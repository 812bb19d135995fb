-- ===== src/Fs/Fd/Table.antt =====
-- Which descriptors are handed out, closed and refused.
use sometuffcoolpr.Prelude.{
  ℕ, zero, suc, ◌+◌, ◌≤◌, ◌<◌, ◌≡◌, refl, true, false, ◌==◌, arith, Bool-cases, inl, inr, ==_eq,
  ==_self,
}
use sometuffcoolpr.Prelude.Int.{ℤ, pos, negsuc}
use sometuffcoolpr.Fs.Fd.{Table, fd_alloc, fd_alloc_from}

module _ (t : Table) where
  -- The outcome of a search of the `n` descriptors from `i`.
  abbrev pub Lowest : (n i : ℕ) → ℤ × Table → Type 0
  Lowest n i (negsuc k, t') =
      (k ≡ 0) × ((j : ℕ) → i ≤ j → j < i + n → (t j).used ≡ true) × ((j : ℕ) → t' j ≡ t j)
  Lowest n i (pos d, t') =
      (i ≤ d)
      × (d < i + n)
      × ((t d).used ≡ false)
      × ((j : ℕ) → i ≤ j → j < d → (t j).used ≡ true)
      × (t' d ≡ record (t d) { used = true; offset = 0 })
      × ((j : ℕ) → ((j == d) ≡ false) → t' j ≡ t j)

  Lowest-skip :
      (n i : ℕ) (r : ℤ × Table) → (t i).used ≡ true → Lowest n (i + 1) r → Lowest (suc n) i r
  Lowest-skip n i (negsuc k, t') used (minus_one, all, same) = (
    minus_one,
    (λ j le lt. elim (Bool-cases (j == i)) [
      | inl e ↦ rw (==_eq j i e) used
      | inr ne ↦ all j (ground arith) (omega arith)
    ]),
    same,
  )
  Lowest-skip n i (pos d, t') used (le, lt, unused, all, new, same) = (
    omega arith,
    omega arith,
    unused,
    (λ j le' lt'. elim (Bool-cases (j == i)) [
      | inl e ↦ rw (==_eq j i e) used
      | inr ne ↦ all j (ground arith) lt'
    ]),
    new,
    same,
  )

  fd_alloc_from-Lowest : (n i : ℕ) → Lowest n i (fd_alloc_from n i t)
  unfolding fd_alloc_from
  fd_alloc_from-Lowest zero i = (refl, (λ j le lt. absurd (omega arith)), λ j. refl)
  fd_alloc_from-Lowest (suc n) i = elim (Bool-cases (t i).used) [
    | inl used ↦
        rw used (Lowest-skip n i (fd_alloc_from n (i + 1) t) used (fd_alloc_from-Lowest n (i + 1)))
    | inr unused ↦ rw unused (
      omega arith,
      omega arith,
      unused,
      (λ j le lt. absurd (omega arith)),
      rw (==_self i) refl,
      λ j ne. rw ne refl,
    )
  ]

  -- `fd_alloc` hands out the lowest unused descriptor, marked used and at offset 0, and leaves the
  -- others alone; it is -1 when all 32 are used, and only then.
  pub fd_alloc-Lowest : Lowest 32 0 (fd_alloc t)
  unfolding fd_alloc
  fd_alloc-Lowest = fd_alloc_from-Lowest 32 0
