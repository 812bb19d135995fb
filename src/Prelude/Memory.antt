-- ===== src/Prelude/Memory.antt =====
-- Byte memory as a function of the address, and arrays of it as lists.
use Prim.Native.Nat.{ℕ, zero, suc, ◌+◌}
use mathlib.Core.List.{List, [], ◌∷◌}
use sometuffcoolpr.Prelude.Tests.{if◌then◌else◌, ◌==◌}

abbrev pub Memory : Type 0
Memory = ℕ → ℕ

-- `*p = v`
abbrev pub write : Memory → ℕ → ℕ → Memory
write m p v a = if a == p then v else m a

-- The `n` bytes from `p` on.
abbrev pub bytes : Memory → ℕ → ℕ → List ℕ
bytes m p zero = []
bytes m p (suc n) = m p ∷ bytes m (p + 1) n
