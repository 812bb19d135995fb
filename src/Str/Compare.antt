-- ===== src/Str/Compare.antt =====
-- What `strlen`, `strcmp` and `strncmp` of lib/string.c tell of their arguments.
use sometuffcoolpr.Prelude.{ℕ, zero, suc, ◌+◌, ◌<◌, ◌≡◌, refl, ◌↔◌, [], ◌∷◌, arith, length, take}
use sometuffcoolpr.Prelude.Int.{pos}
use sometuffcoolpr.Str.{CString, strlen, strlen_from, strcmp, strncmp}

-- The bytes of a C string: none is NUL, all fit a byte.
abbrev pub IsText : CString → Type 0
IsText [] = Unit {0}
IsText (c ∷ s) = (0 < c) × (c < 256) × IsText s

strlen_from-add : (s : CString) (n : ℕ) → strlen_from s n ≡ n + length s
unfolding strlen_from
strlen_from-add [] n = omega arith
strlen_from-add (c ∷ s) n = omega (arith, strlen_from-add s (n + 1))

pub strlen-length : (s : CString) → strlen s ≡ length s
unfolding strlen
strlen-length s = omega (arith, strlen_from-add s 0)

pub strcmp_self : (s : CString) → strcmp s s ≡ pos 0
unfolding strcmp
strcmp_self [] = refl
strcmp_self (c ∷ s) = ground (arith, strcmp_self s)

pub eq_of_strcmp : (s t : CString) → IsText s → IsText t → strcmp s t ≡ pos 0 → s ≡ t
unfolding strcmp
eq_of_strcmp [] [] hs ht e = refl
eq_of_strcmp [] (y ∷ t) hs ht e = ground arith
eq_of_strcmp (x ∷ s) [] hs ht e = ground arith
eq_of_strcmp (x ∷ s) (y ∷ t) hs ht e = ground (arith, eq_of_strcmp s t hs.2 ht.2)

-- `strcmp` returns 0 exactly when the two strings are the same.
pub strcmp_iff : (s t : CString) → IsText s → IsText t → (strcmp s t ≡ pos 0) ↔ (s ≡ t)
strcmp_iff s t hs ht = (eq_of_strcmp s t hs ht, λ e. rw e (strcmp_self t))

strncmp-take : (n : ℕ) (s t : CString) → take n s ≡ take n t → strncmp s t n ≡ pos 0
unfolding strncmp
strncmp-take zero s t e = refl
strncmp-take (suc n) [] [] e = refl
strncmp-take (suc n) [] (y ∷ t) e = ground arith
strncmp-take (suc n) (x ∷ s) [] e = ground arith
strncmp-take (suc n) (x ∷ s) (y ∷ t) e = ground (arith, strncmp-take n s t)

take-strncmp :
    (n : ℕ) (s t : CString) → IsText s → IsText t → strncmp s t n ≡ pos 0 → take n s ≡ take n t
unfolding strncmp
take-strncmp zero s t hs ht e = refl
take-strncmp (suc n) [] [] hs ht e = refl
take-strncmp (suc n) [] (y ∷ t) hs ht e = ground arith
take-strncmp (suc n) (x ∷ s) [] hs ht e = ground arith
take-strncmp (suc n) (x ∷ s) (y ∷ t) hs ht e = ground (arith, take-strncmp n s t hs.2 ht.2)

-- `strncmp` returns 0 exactly when the first `n` characters of the two strings, or all of them
-- where a string is shorter, are the same.
pub strncmp_iff :
    (n : ℕ) (s t : CString) → IsText s → IsText t → (strncmp s t n ≡ pos 0) ↔ (take n s ≡ take n t)
strncmp_iff n s t hs ht = (take-strncmp n s t hs ht, strncmp-take n s t)
