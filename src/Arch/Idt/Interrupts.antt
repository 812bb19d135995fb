-- ===== src/Arch/Idt/Interrupts.antt =====
-- What an interrupt leaves behind.
use sometuffcoolpr.Prelude.{
  ℕ, ◌+◌, ◌*◌, ◌/◌, ◌%◌, ◌^◌, ◌≤◌, ◌<◌, ◌≡◌, ◌≢◌, refl, ◌∙◌, true, false, some, ◌==◌, if◌then◌else◌,
  arith, Bool-cases, inl, inr, ==_eq, ==_ne, ==_self,
}
use sometuffcoolpr.Prelude.Int.{ℤ, pos, negsuc}
use sometuffcoolpr.Pmm.{Pmm, alloc_frame, first_free_frame}
use sometuffcoolpr.Pmm.Search.{in_use}
use sometuffcoolpr.Pmm.Alloc.{Allocated, alloc_frame-Allocated}
use sometuffcoolpr.Paging.{Paging, translate}
use sometuffcoolpr.Paging.Translate.{Tracks, IsFresh, map_page-translate, map_page-tables}
use sometuffcoolpr.Fs.{ok}
use sometuffcoolpr.Machine.{Machine}
use sometuffcoolpr.Arch.Idt.{page_of, map_frame, is_heap_fault, page_fault_handler}

-- The paging and the frames agree: the tables are tracked, and their frames are in use.
pub record Owned (p : Paging) (pmm : Pmm) : Type 0 where
  pub tracks : Tracks p
  pub used : (d : ℕ) → p.page_tables d ≢ 0 → in_use pmm.bitmap (p.page_tables d / 4096) ≡ true
  pub small : pmm.total_frames ≤ 2 ^ 20

-- What a frame that was handed out tells.
record Taken (pmm : Pmm) (address : ℕ) (pmm' : Pmm) : Type 0 where
  page : address % 4096 ≡ 0
  clear : in_use pmm.bitmap (address / 4096) ≡ false
  marked :
      (f : ℕ) → in_use pmm'.bitmap f ≡ (if f == address / 4096 then true else in_use pmm.bitmap f)
  total : pmm'.total_frames ≡ pmm.total_frames

Taken-case : (pmm : Pmm) (a : ℕ × Pmm) (r : ℤ) → Allocated pmm a r → a.0 ≢ 0 → Taken pmm a.0 a.1
Taken-case pmm a (negsuc m) (e, same, all) ne = absurd (ne e)
Taken-case pmm a (pos d) (e, lt, clear, lower, marked, total) ne =
    let frame : a.0 / 4096 ≡ d = omega (arith, e) in
    record {
      page = omega (arith, e);
      clear = rw frame clear;
      marked = λ f. rw frame (marked f);
      total = total;
    }

taken :
    (pmm : Pmm)
    → pmm.total_frames ≤ 2 ^ 20
    → (alloc_frame pmm).0 ≢ 0
    → Taken pmm (alloc_frame pmm).0 (alloc_frame pmm).1
taken pmm small ne =
    Taken-case pmm (alloc_frame pmm) (first_free_frame pmm) (alloc_frame-Allocated pmm small) ne

-- A frame that was handed out is no table.
Taken-IsFresh :
    (p : Paging) (pmm pmm' : Pmm) (address : ℕ)
    → Owned p pmm
    → Taken pmm address pmm'
    → address ≢ 0
    → address < 2 ^ 22
    → IsFresh p address
Taken-IsFresh p pmm pmm' address o t ne low = record {
  some_frame = ne;
  low = low;
  page = t.page;
  unused = λ d e. elim (Bool-cases (in_use pmm.bitmap (p.page_tables d / 4096))) [
    | inl used ↦ absurd (ground (arith, t.clear, used, e))
    | inr clear ↦ absurd (ground (arith, o.used d, e, clear, ne))
  ];
}

-- Taking a frame keeps the tables' frames in use.
Taken-Owned :
    (p : Paging) (pmm pmm' : Pmm) (address : ℕ)
    → Owned p pmm
    → Taken pmm address pmm'
    → Owned p pmm'
Taken-Owned p pmm pmm' address o t = record {
  tracks = o.tracks;
  used = λ d h. ground (arith, o.used d h, t.marked (p.page_tables d / 4096));
  small = omega (arith, o.small, t.total);
}

-- What demand paging leaves: the tables and the frames agree, and one page more is mapped.
pub record Maps (fault_addr frame : ℕ) (m m' : Machine) : Type 0 where
  pub owned : Owned m'.paging m'.pmm
  pub page :
      (w : ℕ)
      → translate m'.paging w
        ≡ (if w / 4096 == fault_addr / 4096 then some (frame + w % 4096) else translate m.paging w)

map_frame-new :
    (page frame : ℕ) (m : Machine)
    → Owned m.paging m.pmm
    → frame % 4096 ≡ 0
    → m.paging.page_tables (page / 2 ^ 22) ≡ 0
    → 2 ^ 22 ≤ page
    → (alloc_frame m.pmm).0 ≢ 0
    → (alloc_frame m.pmm).0 < 2 ^ 22
    → (m' : Machine) × (map_frame page frame m ≡ ok m') × Maps page frame m m'
unfolding map_frame
map_frame-new page frame m o aligned missing high some_frame low =
    let t = taken m.pmm o.small some_frame in
    let fresh =
      Taken-IsFresh m.paging m.pmm (alloc_frame m.pmm).1 (alloc_frame m.pmm).0 o t some_frame low in
    let (p, e, tracks, same) =
      map_page-translate (alloc_frame m.pmm).0 page frame m.paging o.tracks high (λ x. fresh) in
    let new : (m.paging.page_tables (page / 2 ^ 22) == 0) ≡ true = rw missing refl in
    let o' = Taken-Owned m.paging m.pmm (alloc_frame m.pmm).1 (alloc_frame m.pmm).0 o t in
    let frame_page : frame / 4096 * 4096 ≡ frame = omega (arith, aligned) in
    (
      record m { paging = p; pmm = (alloc_frame m.pmm).1 },
      rw (map_frame, new, e) (rw new refl),
      record {
        owned = record {
          tracks = tracks;
          used = λ d h. elim (Bool-cases (d == page / 2 ^ 22)) [
            | inl at ↦
                let table : p.page_tables d ≡ (alloc_frame m.pmm).0 =
                  map_page-tables (alloc_frame m.pmm).0 page frame d m.paging p e
                  ∙ rw (new, at) refl in
                rw (table, t.marked, ==_self) refl
            | inr other ↦
                let table : p.page_tables d ≡ m.paging.page_tables d =
                  map_page-tables (alloc_frame m.pmm).0 page frame d m.paging p e
                  ∙ rw (new, other) refl in
                rw table (o'.used d (λ z. h (table ∙ z)))
          ];
          small = o'.small;
        };
        page = λ w. same w ∙ rw frame_page refl;
      },
    )

map_frame-old :
    (page frame : ℕ) (m : Machine)
    → Owned m.paging m.pmm
    → frame % 4096 ≡ 0
    → m.paging.page_tables (page / 2 ^ 22) ≢ 0
    → 2 ^ 22 ≤ page
    → (m' : Machine) × (map_frame page frame m ≡ ok m') × Maps page frame m m'
unfolding map_frame
map_frame-old page frame m o aligned present high =
    let (p, e, tracks, same) =
      map_page-translate 0 page frame m.paging o.tracks high (λ x. absurd (present x)) in
    let old : (m.paging.page_tables (page / 2 ^ 22) == 0) ≡ false = ==_ne _ 0 present in
    let frame_page : frame / 4096 * 4096 ≡ frame = omega (arith, aligned) in
    let table : (d : ℕ) → p.page_tables d ≡ m.paging.page_tables d =
      λ d. map_page-tables 0 page frame d m.paging p e ∙ rw old refl in
    (
      record m { paging = p; pmm = m.pmm },
      rw (map_frame, old, e) (rw old refl),
      record {
        owned = record {
          tracks = tracks;
          used = λ d h. rw (table d) (o.used d (λ z. h (table d ∙ z)));
          small = o.small;
        };
        page = λ w. same w ∙ rw frame_page refl;
      },
    )

-- Where the page tables are tracked, apart, in the first 4 MB and in frames that are in use, of at
-- most 2^20, and the first 4 MB from the second page on translates to itself: a page fault of the
-- kernel on a page of its heap that is not present, where the next two frames are other than frame 0
-- and the second of them lies in the first 4 MB, returns. Then the page is mapped to the first of
-- them, all other addresses translate as before, and the page tables are as assumed again.
pub page_fault_handler-Maps :
    (fault_addr err_code : ℕ) (m : Machine)
    → Owned m.paging m.pmm
    → is_heap_fault fault_addr err_code ≡ true
    → (alloc_frame m.pmm).0 ≢ 0
    → (alloc_frame (alloc_frame m.pmm).1).0 ≢ 0
    → (alloc_frame (alloc_frame m.pmm).1).0 < 2 ^ 22
    → (m' : Machine) × (page_fault_handler fault_addr err_code m ≡ ok m')
      × Maps fault_addr (alloc_frame m.pmm).0 m m'
unfolding page_fault_handler
page_fault_handler-Maps fault_addr err_code m o heap first second low =
    let high : 2 ^ 22 ≤ page_of fault_addr = ground (arith, heap) in
    let t = taken m.pmm o.small first in
    let o' = Taken-Owned m.paging m.pmm (alloc_frame m.pmm).1 (alloc_frame m.pmm).0 o t in
    let m1 : Machine = record m { pmm = (alloc_frame m.pmm).1 } in
    let page : page_of fault_addr / 4096 ≡ fault_addr / 4096 = omega arith in
    rw (heap, ==_ne (alloc_frame m.pmm).0 0 first)
      (elim (Bool-cases (m.paging.page_tables (page_of fault_addr / 2 ^ 22) == 0)) [
        | inl missing ↦
            let (m', e, maps) =
              map_frame-new (page_of fault_addr) (alloc_frame m.pmm).0 m1 o' t.page
                (==_eq _ 0 missing) high second low in
            (m', e, record { owned = maps.owned; page = λ w. rw⁻¹ page (maps.page w) })
        | inr present ↦
            let (m', e, maps) =
              map_frame-old (page_of fault_addr) (alloc_frame m.pmm).0 m1 o' t.page (ground arith)
                high in
            (m', e, record { owned = maps.owned; page = λ w. rw⁻¹ page (maps.page w) })
      ])
