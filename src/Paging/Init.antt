-- ===== src/Paging/Init.antt =====
-- What `paging_init` of src/kernel/mm/paging.c maps.
use sometuffcoolpr.Prelude.{
  ℕ, zero, suc, ◌+◌, ◌*◌, ◌/◌, ◌%◌, ◌^◌, ◌<◌, ◌≡◌, ◌≢◌, Bool-cases, inl, inr, ◌&&◌, none, some,
  true, refl, ◌∙◌, false, arith, leb, ltb, ◌==◌, if◌then◌else◌,
}
use sometuffcoolpr.Paging.{
  Paging, translate, put_entry, present_writable, clear_table, identity_map, paging_init,
}
use sometuffcoolpr.Paging.Translate.{Tracks, clear_table_lem}

identity_map_lem :
    (n i table : ℕ) (m : ℕ → ℕ → ℕ) (t j : ℕ)
    → identity_map n i table m t j
      ≡ (if (t == table) && (leb i j && ltb j (i + n)) then present_writable (j * 4096) else m t j)
unfolding identity_map
identity_map_lem zero i table m t j = ground arith
identity_map_lem (suc n) i table m t j = ground (
  arith,
  identity_map_lem n (i + 1) table (put_entry m table i (present_writable (i * 4096))) t j,
)

-- The entries of the first table.
entry :
    (fresh : ℕ) (p : Paging) (j : ℕ)
    → j < 1024
    → (paging_init fresh p).memory fresh j ≡ (if j == 0 then 0 else j * 4096 + 3)
unfolding paging_init
entry fresh p j h = ground (
  arith,
  identity_map_lem 1023 1 fresh (clear_table 1024 0 fresh p.memory) fresh j,
  clear_table_lem 1024 0 fresh p.memory fresh j,
)

-- With any page-aligned frame for the table, frame 0 included, each address from the second page up to
-- 4 MB translates to itself behind `paging_init`, and no other translates.
pub paging_init-identity :
    (fresh : ℕ) (p : Paging) (v : ℕ)
    → fresh % 4096 ≡ 0
    → translate (paging_init fresh p) v ≡ (if leb 4096 v && ltb v (2 ^ 22) then some v else none)
unfolding paging_init translate
paging_init-identity fresh p v page =
    let table : present_writable fresh / 4096 * 4096 ≡ fresh = omega arith in
    let e = entry fresh p (v / 2 ^ 12 % 1024) (omega arith) in
    let odd : (present_writable fresh % 2 == 0) ≡ false = ground arith in
    elim (Bool-cases (v / 2 ^ 22 == 0)) [
      | inl d ↦ rw (d, odd, table, e) (ground arith)
      | inr d ↦ rw d (ground arith)
    ]

-- With a page-aligned frame of the first 4 MB other than frame 0, what `map_page` needs is there.
pub paging_init-Tracks :
    (fresh : ℕ) (p : Paging)
    → fresh ≢ 0
    → fresh % 4096 ≡ 0
    → fresh < 2 ^ 22
    → Tracks (paging_init fresh p)
unfolding paging_init
paging_init-Tracks fresh p some_frame page low = record {
  empty = λ d h. ground arith;
  entry = λ d h. ground arith;
  aligned = λ d. ground arith;
  apart = λ d e h same. ground arith;
  low = λ d. ground arith;
  identity = λ w lo hi.
      let inside : leb 4096 w && ltb w (2 ^ 22) ≡ true = ground arith in
      paging_init-identity fresh p w page ∙ rw inside refl;
}
