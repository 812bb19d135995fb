-- ===== src/Arch/Ports.antt =====
-- src/kernel/drivers/pit.c, the remapping of drivers/pic.c, and the brand string of
-- arch/x86/cpuid.c. What is sent to the ports is a list, the first write first.
use sometuffcoolpr.Prelude.{
  ℕ, zero, suc, ◌+◌, ◌*◌, ◌/◌, ◌%◌, ◌^◌, ◌<◌, ◌≡◌, Option, none, some, List, [], ◌∷◌, ◌++◌, ◌==◌,
  false, if◌then◌else◌, arith,
}
use native.Mathlib.Nat.{div-lt_iff_lt-mul}

-- A division by zero is `none`.
unfoldable pub pit_init : ℕ → Option (List (ℕ × ℕ))
pit_init frequency =
    let divisor : ℕ = 1193182 / frequency in
    if frequency == 0
    then none
    else some ((0x43, 0x36) ∷ (0x40, divisor % 256) ∷ (0x40, divisor / 2 ^ 8 % 256) ∷ [])

-- `a1` and `a2` are the masks that are read before the writes.
unfoldable pub pic_remap : (a1 a2 : ℕ) → List (ℕ × ℕ)
pic_remap a1 a2 =
    (0x20, 0x11)
    ∷ (0xA0, 0x11)
    ∷ (0x21, 0x20)
    ∷ (0xA1, 0x28)
    ∷ (0x21, 4)
    ∷ (0xA1, 2)
    ∷ (0x21, 1)
    ∷ (0xA1, 1)
    ∷ (0x21, a1)
    ∷ (0xA1, a2)
    ∷ []

-- The four bytes of a register as they lie in memory.
abbrev pub register_bytes : ℕ → List ℕ
register_bytes r = r % 256 ∷ r / 2 ^ 8 % 256 ∷ r / 2 ^ 16 % 256 ∷ r / 2 ^ 24 % 256 ∷ []

-- The registers of `cpuid` for a leaf.
pub record Leaf : Type 0 where
  pub eax : ℕ
  pub ebx : ℕ
  pub ecx : ℕ
  pub edx : ℕ

-- The `n` turns of the loop of `cpu_get_brand` from leaf `i`.
unfoldable pub brand_from : (n i : ℕ) → (ℕ → Leaf) → List ℕ
brand_from zero i cpuid = []
brand_from (suc n) i cpuid =
    let l = cpuid (0x80000002 + i) in
    register_bytes l.eax
    ++ (register_bytes l.ebx
        ++ (register_bytes l.ecx ++ (register_bytes l.edx ++ brand_from n (i + 1) cpuid)))

-- The 49 bytes of the buffer.
unfoldable pub cpu_get_brand : (ℕ → Leaf) → List ℕ
unfolding brand_from
cpu_get_brand cpuid = brand_from 3 0 cpuid ++ (0 ∷ [])

-- What the timer divides its clock by, from the two bytes that channel 0 is given.
abbrev pub sent_divisor : Option (List (ℕ × ℕ)) → ℕ
sent_divisor (some (c ∷ (p, low) ∷ (q, high) ∷ [])) = low + high * 256
sent_divisor _ = 0

-- For every frequency that the 16-bit divisor can give, the two bytes sent are the divisor.
pub pit_init-divisor :
    (frequency : ℕ)
    → 1193182 / 65536 < frequency
    → sent_divisor (pit_init frequency) ≡ 1193182 / frequency
unfolding pit_init
pit_init-divisor frequency low =
    let short : 1193182 / frequency < 65536 =
      (div-lt_iff_lt-mul {k = frequency} {x = 1193182} {y = 65536} (omega arith)).1 (omega arith) in
    let some_frequency : (frequency == 0) ≡ false = ground arith in rw some_frequency (omega arith)
