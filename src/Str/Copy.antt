-- ===== src/Str/Copy.antt =====
-- The writing functions of lib/string.c: what they leave at the destination, and that they write
-- nowhere else.
use sometuffcoolpr.Prelude.{
  ℕ, zero, suc, ◌+◌, ◌-◌, ◌%◌, ◌≤◌, ◌<◌, ◌≡◌, ◌≢◌, ◌⊎◌, inl, ◌&&◌, some, [], ◌∷◌, ◌++◌, arith, ltb,
  leb, length, if◌then◌else◌,
}
use sometuffcoolpr.Prelude.Memory.{Memory, write}
use sometuffcoolpr.Str.{CString, strcpy_loop, strcpy, memcpy, memset, strcat_end, strcat}

-- At `p` stands the NUL-terminated string `s`.
abbrev pub Holds : Memory → ℕ → CString → Type 0
Holds m p [] = m p ≡ 0
Holds m p (c ∷ s) = (m p ≡ c) × (c ≢ 0) × Holds m (p + 1) s

-- `m'` differs from `m` at most at the `n` addresses from `p` on.
abbrev pub SameOutside : ℕ → ℕ → Memory → Memory → Type 0
SameOutside p n m m' = (a : ℕ) → (a < p) ⊎ (p + n ≤ a) → m' a ≡ m a

-- The `n` bytes from `p` and the `k` bytes from `q` have none in common.
abbrev pub Apart : ℕ → ℕ → ℕ → ℕ → Type 0
Apart p n q k = (p + n ≤ q) ⊎ (q + k ≤ p)

Holds-frame :
    (s : CString) (p : ℕ) (m m' : Memory)
    → ((a : ℕ) → p ≤ a → a ≤ p + length s → m' a ≡ m a)
    → Holds m p s
    → Holds m' p s
Holds-frame [] p m m' same h = ground (arith, same p)
Holds-frame (c ∷ s) p m m' same h = (
  ground (arith, same p),
  h.1,
  Holds-frame s (p + 1) m m' (λ a lo hi. same a (omega arith) (omega arith)) h.2,
)

strcpy_loop-Holds :
    (k : ℕ) (m : Memory) (dest src : ℕ) (s : CString)
    → Holds m src s
    → Apart dest (length s + 1) src (length s + 1)
    → length s < k
    → (m' : Memory) × (strcpy_loop k m dest src ≡ some m')
      × Holds m' dest s
      × SameOutside dest (length s + 1) m m'
unfolding strcpy_loop
strcpy_loop-Holds zero m dest src s h apart fuel = absurd (omega arith)
strcpy_loop-Holds (suc k) m dest src [] h apart fuel =
    (write m dest (m src), ground arith, ground arith, λ a out. ground arith)
strcpy_loop-Holds (suc k) m dest src (c ∷ s) h apart fuel =
    let next : Memory = write m dest (m src) in
    let kept : Holds next (src + 1) s =
      Holds-frame s (src + 1) m next (λ a lo hi. ground arith) h.2 in
    let (m', run, copy, same) =
      strcpy_loop-Holds k next (dest + 1) (src + 1) s kept (omega arith) (omega arith) in
    (m', ground arith, (ground (arith, same dest), h.1, copy), λ a out. ground (arith, same a))

-- `strcpy` ends, leaves the source's string at the destination and writes nothing beyond its
-- terminating NUL, where the two areas do not overlap.
pub strcpy-Holds :
    (fuel : ℕ) (m : Memory) (dest src : ℕ) (s : CString)
    → Holds m src s
    → Apart dest (length s + 1) src (length s + 1)
    → length s < fuel
    → (m' : Memory) × (strcpy fuel m dest src ≡ some m')
      × Holds m' dest s
      × SameOutside dest (length s + 1) m m'
unfolding strcpy
strcpy-Holds fuel m dest src s = strcpy_loop-Holds fuel m dest src s

strcat_end-length :
    (k : ℕ) (m : Memory) (p : ℕ) (s : CString)
    → Holds m p s
    → length s < k
    → strcat_end k m p ≡ some (p + length s)
unfolding strcat_end
strcat_end-length zero m p s h fuel = absurd (omega arith)
strcat_end-length (suc k) m p [] h fuel = ground arith
strcat_end-length (suc k) m p (c ∷ s) h fuel = ground (arith, strcat_end-length k m (p + 1) s)

Holds-append :
    (s t : CString) (p : ℕ) (m m' : Memory)
    → Holds m p s
    → ((a : ℕ) → p ≤ a → a < p + length s → m' a ≡ m a)
    → Holds m' (p + length s) t
    → Holds m' p (s ++ t)
Holds-append [] t p m m' h same ht = let e : p + 0 ≡ p = omega arith in rw e at ht
Holds-append (c ∷ s) t p m m' h same ht =
    let e : p + suc (length s) ≡ p + 1 + length s = omega arith in
    (
      ground (arith, same p),
      h.1,
      Holds-append s t (p + 1) m m' h.2 (λ a lo hi. same a (omega arith) (omega arith))
          (rw e at ht),
    )

-- `strcat` ends, leaves the concatenation at the destination, and writes only over the old NUL and
-- the bytes of the second string behind it, where the second string does not overlap those or the
-- first.
pub strcat-Holds :
    (fuel : ℕ) (m : Memory) (dest src : ℕ) (s t : CString)
    → Holds m dest s
    → Holds m src t
    → Apart dest (length s + length t + 1) src (length t + 1)
    → length s + length t < fuel
    → (m' : Memory) × (strcat fuel m dest src ≡ some m')
      × Holds m' dest (s ++ t)
      × SameOutside (dest + length s) (length t + 1) m m'
unfolding strcat
strcat-Holds fuel m dest src s t hs ht apart lt =
    let (m', run, copy, same) =
      strcpy_loop-Holds fuel m (dest + length s) src t ht (omega arith) (omega arith) in
    (
      m',
      rw (strcat_end-length fuel m dest s hs (omega arith), strcat) run,
      Holds-append s t dest m m' hs (λ a lo hi. same a (inl hi)) copy,
      same,
    )

-- `memcpy` copies `n` bytes and writes nowhere else, where the two areas do not overlap.
pub memcpy_lem :
    (n : ℕ) (m : Memory) (dest src : ℕ)
    → Apart dest n src n
    → (a : ℕ)
    → memcpy m dest src n a ≡ (if leb dest a && ltb a (dest + n) then m (src + (a - dest)) else m a)
unfolding memcpy
memcpy_lem zero m dest src apart a = ground arith
memcpy_lem (suc n) m dest src apart a =
    let e : dest + 1 ≤ a → src + 1 + (a - (dest + 1)) ≡ src + (a - dest) = λ h. omega arith in
    let z : a ≡ dest → src + (a - dest) ≡ src = λ h. omega arith in
    ground (arith, memcpy_lem n (write m dest (m src)) (dest + 1) (src + 1) (omega arith) a, e, z)

-- `memset` sets `n` bytes to the low byte of the value and writes nowhere else.
pub memset_lem :
    (n : ℕ) (m : Memory) (dest v a : ℕ)
    → memset m dest v n a ≡ (if leb dest a && ltb a (dest + n) then v % 256 else m a)
unfolding memset
memset_lem zero m dest v a = ground arith
memset_lem (suc n) m dest v a = ground (arith, memset_lem n (write m dest (v % 256)) (dest + 1) v a)
