-- ===== src/Paging/Translate.antt =====
-- The translation of addresses that the processor makes of the tables.
use sometuffcoolpr.Prelude.{
  ℕ, zero, suc, ◌+◌, ◌*◌, ◌/◌, ◌%◌, ◌^◌, ◌≤◌, ◌<◌, ◌≡◌, ◌≢◌, ◌∙◌, refl, Bool-cases, inl, inr, ◌&&◌,
  some, arith, leb, ltb, ◌==◌, if◌then◌else◌, ==_eq, ==_self,
}
use sometuffcoolpr.Paging.{
  Paging, put_entry, present_writable, clear_table, add_table, new_table, set_entry, map_page,
  translate,
}

-- The directory points at the tables that are tracked, which are page-aligned and apart and lie in
-- the first 4 MB, and from the second page on these translate to themselves.
pub record Tracks (p : Paging) : Type 0 where
  pub empty : (d : ℕ) → p.page_tables d ≡ 0 → p.page_directory d ≡ 0
  pub entry : (d : ℕ) → p.page_tables d ≢ 0 → p.page_directory d ≡ p.page_tables d + 3
  pub aligned : (d : ℕ) → p.page_tables d % 4096 ≡ 0
  pub apart : (d e : ℕ) → p.page_tables d ≢ 0 → p.page_tables d ≡ p.page_tables e → d ≡ e
  pub low : (d : ℕ) → p.page_tables d < 2 ^ 22
  pub identity : (w : ℕ) → 4096 ≤ w → w < 2 ^ 22 → translate p w ≡ some w

-- A frame that may become a table: the kernel reaches it at its physical address.
pub record IsFresh (p : Paging) (fresh : ℕ) : Type 0 where
  pub some_frame : fresh ≢ 0
  pub page : fresh % 4096 ≡ 0
  pub low : fresh < 2 ^ 22
  pub unused : (d : ℕ) → p.page_tables d ≢ fresh

pub clear_table_lem :
    (n i table : ℕ) (m : ℕ → ℕ → ℕ) (t j : ℕ)
    → clear_table n i table m t j
      ≡ (if (t == table) && (leb i j && ltb j (i + n)) then 0 else m t j)
unfolding clear_table
clear_table_lem zero i table m t j = ground arith
clear_table_lem (suc n) i table m t j =
    ground (arith, clear_table_lem n (i + 1) table (put_entry m table i 0) t j)

translate-new :
    (fresh d : ℕ) (p : Paging) (v : ℕ)
    → Tracks p
    → IsFresh p fresh
    → p.page_tables d ≡ 0
    → translate (new_table fresh d fresh p) v ≡ translate p v
unfolding translate
translate-new fresh d p v t f new = elim (Bool-cases (v / 2 ^ 22 == d)) [
  | inl e ↦
      let at : v / 2 ^ 22 ≡ d = ==_eq (v / 2 ^ 22) d e in
      let old : p.page_directory (v / 2 ^ 22) ≡ 0 = rw at (t.empty d new) in
      let table : present_writable fresh / 4096 * 4096 ≡ fresh = omega (arith, f.page) in
      let zeroed : clear_table 1024 0 fresh p.memory fresh (v / 2 ^ 12 % 1024) ≡ 0 =
        ground (arith, clear_table_lem 1024 0 fresh p.memory fresh (v / 2 ^ 12 % 1024)) in
      ground (arith, e, old, table, zeroed)
  | inr e ↦ elim (Bool-cases (p.page_tables (v / 2 ^ 22) == 0)) [
    | inl none_yet ↦
        let zero_entry : p.page_directory (v / 2 ^ 22) ≡ 0 =
          t.empty (v / 2 ^ 22) (==_eq _ 0 none_yet) in
        rw (e, zero_entry) refl
    | inr some_table ↦
        let entry : p.page_directory (v / 2 ^ 22) ≡ p.page_tables (v / 2 ^ 22) + 3 =
          t.entry (v / 2 ^ 22) (ground arith) in
        let table : (p.page_tables (v / 2 ^ 22) + 3) / 4096 * 4096 ≡ p.page_tables (v / 2 ^ 22) =
          omega (arith, t.aligned (v / 2 ^ 22)) in
        let kept : clear_table 1024 0 fresh p.memory (p.page_tables (v / 2 ^ 22))
              (v / 2 ^ 12 % 1024)
            ≡ p.memory (p.page_tables (v / 2 ^ 22)) (v / 2 ^ 12 % 1024) =
          ground (
            arith,
            f.unused (v / 2 ^ 22),
            clear_table_lem 1024 0 fresh p.memory (p.page_tables (v / 2 ^ 22)) (v / 2 ^ 12 % 1024),
          ) in
        rw (e, entry, table, kept) refl
  ]
]

added :
    (fresh d : ℕ) (p : Paging)
    → Tracks p
    → (p.page_tables d ≡ 0 → IsFresh p fresh)
    → (p' : Paging) × (add_table fresh d p ≡ some p')
      × Tracks p'
      × (p'.page_tables d ≢ 0)
      × ((v : ℕ) → translate p' v ≡ translate p v)
unfolding add_table
added fresh d p t missing = elim (Bool-cases (p.page_tables d == 0)) [
  | inr old ↦ rw old (p, refl, t, (λ e. absurd (ground arith)), λ v. refl)
  | inl new ↦
      let f = missing (==_eq (p.page_tables d) 0 new) in
      rw (new, t.identity fresh (omega (arith, f.some_frame, f.page)) f.low)
        (
          new_table fresh d fresh p,
          refl,
          record {
            empty = λ e h. ground (arith, f.some_frame, t.empty e);
            entry = λ e h. ground (arith, f.page, t.entry e);
            aligned = λ e. ground (arith, f.page, t.aligned e);
            apart = λ e e' h h'. ground (arith, f.unused e, f.unused e', t.apart e e');
            low = λ e. ground (arith, f.low, t.low e);
            identity = λ w lo hi.
                translate-new fresh d p w t f (==_eq (p.page_tables d) 0 new) ∙ t.identity w lo hi;
          },
          ground (arith, f.some_frame),
          λ v. translate-new fresh d p v t f (==_eq (p.page_tables d) 0 new),
        )
]

-- What a directory entry of a table says.
entry-table :
    (p : Paging) (d : ℕ)
    → Tracks p
    → p.page_tables d ≢ 0
    → (p.page_directory d % 2 ≡ 1) × (p.page_directory d / 4096 * 4096 ≡ p.page_tables d)
entry-table p d t table =
    (omega (arith, t.entry d table, t.aligned d), omega (arith, t.entry d table, t.aligned d))

set_entry-same :
    (v physical_addr : ℕ) (p : Paging)
    → Tracks p
    → p.page_tables (v / 2 ^ 22) ≢ 0
    → (w : ℕ) → w / 4096 ≡ v / 4096
    → translate (set_entry (p.page_tables (v / 2 ^ 22)) (v / 2 ^ 12 % 1024) physical_addr p) w
      ≡ some (physical_addr / 4096 * 4096 + w % 4096)
unfolding translate
set_entry-same v physical_addr p t table w same =
    let (odd, at) = entry-table p (v / 2 ^ 22) t table in
    let dir : w / 2 ^ 22 ≡ v / 2 ^ 22 = omega arith in
    let pte : ℕ = present_writable (physical_addr / 4096 * 4096) in
    let pte_odd : pte % 2 ≡ 1 = omega arith in
    let pte_at : pte / 4096 * 4096 ≡ physical_addr / 4096 * 4096 = omega arith in
    rw (dir, odd, at, same, ==_self (p.page_tables (v / 2 ^ 22)), ==_self (v / 2 ^ 12 % 1024))
      (rw (pte_odd, pte_at) refl)

set_entry-other :
    (v physical_addr : ℕ) (p : Paging)
    → Tracks p
    → p.page_tables (v / 2 ^ 22) ≢ 0
    → (w : ℕ) → w / 4096 ≢ v / 4096
    → translate (set_entry (p.page_tables (v / 2 ^ 22)) (v / 2 ^ 12 % 1024) physical_addr p) w
      ≡ translate p w
unfolding translate
set_entry-other v physical_addr p t table w other =
    elim (Bool-cases (p.page_tables (w / 2 ^ 22) == 0)) [
      | inl none_yet ↦
          let zero_entry : p.page_directory (w / 2 ^ 22) ≡ 0 =
            t.empty (w / 2 ^ 22) (==_eq _ 0 none_yet) in
          rw zero_entry refl
      | inr some_table ↦
          let (odd, at) = entry-table p (w / 2 ^ 22) t (ground arith) in
          let kept : put_entry p.memory (p.page_tables (v / 2 ^ 22)) (v / 2 ^ 12 % 1024)
                (present_writable (physical_addr / 4096 * 4096)) (p.page_tables (w / 2 ^ 22))
                (w / 2 ^ 12 % 1024)
              ≡ p.memory (p.page_tables (w / 2 ^ 22)) (w / 2 ^ 12 % 1024) =
            ground (arith, t.apart (w / 2 ^ 22) (v / 2 ^ 22)) in
          rw (odd, at, kept) refl
    ]

-- Setting an entry of a tracked table maps its page, and no other.
set_entry-translate :
    (v physical_addr : ℕ) (p : Paging)
    → Tracks p
    → p.page_tables (v / 2 ^ 22) ≢ 0
    → (w : ℕ)
    → translate (set_entry (p.page_tables (v / 2 ^ 22)) (v / 2 ^ 12 % 1024) physical_addr p) w ≡ (
        if w / 4096 == v / 4096
        then some (physical_addr / 4096 * 4096 + w % 4096)
        else translate p w)
set_entry-translate v physical_addr p t table w = elim (Bool-cases (w / 4096 == v / 4096)) [
  | inl e ↦ rw e (set_entry-same v physical_addr p t table w (==_eq (w / 4096) (v / 4096) e))
  | inr e ↦ rw e (set_entry-other v physical_addr p t table w (ground arith))
]

-- Where the directory points at the tables that are tracked, which are page-aligned, apart and in the
-- first 4 MB, which from the second page on translates to itself, and with a fresh frame of the first
-- 4 MB other than frame 0 if the table is missing, `map_page` of an address from 4 MB on succeeds and
-- keeps this; then the addresses of the page translate to those of the physical page, and all other
-- addresses as before.
pub map_page-translate :
    (fresh v physical_addr : ℕ) (p : Paging)
    → Tracks p
    → 2 ^ 22 ≤ v
    → (p.page_tables (v / 2 ^ 22) ≡ 0 → IsFresh p fresh)
    → (p' : Paging) × (map_page fresh v physical_addr p ≡ some p')
      × Tracks p'
      × ((w : ℕ)
          → translate p' w ≡ (
              if w / 4096 == v / 4096
              then some (physical_addr / 4096 * 4096 + w % 4096)
              else translate p w))
unfolding map_page
map_page-translate fresh v physical_addr p t high f =
    let (p', e, t', table, same) = added fresh (v / 2 ^ 22) p t f in
    let at : translate p' (p'.page_tables (v / 2 ^ 22)) ≡ some (p'.page_tables (v / 2 ^ 22)) =
      t'.identity (p'.page_tables (v / 2 ^ 22)) (omega (arith, table, t'.aligned (v / 2 ^ 22)))
        (t'.low (v / 2 ^ 22)) in
    (
      set_entry (p'.page_tables (v / 2 ^ 22)) (v / 2 ^ 12 % 1024) physical_addr p',
      rw (map_page, e) (rw at refl),
      record {
        empty = t'.empty;
        entry = t'.entry;
        aligned = t'.aligned;
        apart = t'.apart;
        low = t'.low;
        identity = λ w lo hi.
            set_entry-other v physical_addr p' t' table w (omega arith) ∙ t'.identity w lo hi;
      },
      λ w. set_entry-translate v physical_addr p' t' table w ∙ rw (same w) refl,
    )

-- The tables that are tracked behind `map_page`: the old ones, and the frame if one was missing.
pub map_page-tables :
    (fresh v physical_addr d : ℕ) (p p' : Paging)
    → map_page fresh v physical_addr p ≡ some p'
    → p'.page_tables d
      ≡ (if (p.page_tables (v / 2 ^ 22) == 0) && (d == v / 2 ^ 22) then fresh else p.page_tables d)
unfolding map_page add_table
map_page-tables fresh v physical_addr d p p' e = ground (arith, e)
