-- ===== src/Str/Tests.antt =====
-- Runs of the functions of src/kernel/lib/string.c.
use sometuffcoolpr.Prelude.{◌+◌, ◌≡◌, refl, some, [], ◌∷◌, arith, ◌==◌, if◌then◌else◌, length}
use sometuffcoolpr.Prelude.Memory.{Memory}
use sometuffcoolpr.Str.{CString, atoi, utoa}
use sometuffcoolpr.Str.Copy.{Holds, SameOutside}
use sometuffcoolpr.Str.Number.{numeral, utoa-Holds, atoi-numeral}

-- "ab" at 10 and "c" at 20.
abbrev texts : Memory
texts p = if p == 10 then 97 else if p == 11 then 98 else if p == 20 then 99 else 0

abbrev just_a : CString
just_a = 97 ∷ []

abbrev ab : CString
ab = 97 ∷ 98 ∷ []

Holds-ab : Holds texts 10 (97 ∷ 98 ∷ [])
Holds-ab = (refl, (λ e. absurd (omega arith)), (refl, (λ e. absurd (omega arith)), refl))

Holds-c : Holds texts 20 (99 ∷ [])
Holds-c = (refl, (λ e. absurd (omega arith)), refl)

utoa-Holds_example :
    (m' : Memory) × (utoa 300 texts 255 40 16 ≡ some m')
    × Holds m' 40 (numeral 16 300 255)
    × SameOutside 40 (length (numeral 16 300 255) + 1) texts m'
utoa-Holds_example = utoa-Holds 300 texts 255 40 16 (omega arith) (omega arith) (omega arith)

atoi-numeral_example : atoi (numeral 10 300 255) ≡ 255
atoi-numeral_example = atoi-numeral 300 255 (omega arith) (omega arith)
