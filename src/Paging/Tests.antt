-- ===== src/Paging/Tests.antt =====
-- An empty page directory, for src/kernel/mm/paging.c.
use sometuffcoolpr.Prelude.{ℕ, ◌+◌, ◌/◌, ◌%◌, ◌≡◌, refl, some, arith, ◌==◌, if◌then◌else◌}
use sometuffcoolpr.Paging.{Paging, translate, map_page, paging_init}
use sometuffcoolpr.Paging.Init.{paging_init-identity, paging_init-Tracks}
use sometuffcoolpr.Paging.Translate.{Tracks, IsFresh, map_page-translate}

abbrev unmapped : Paging
unmapped = record { page_directory = λ d. 0; page_tables = λ d. 0; memory = λ t i. 90 }

-- The tables that the boot leaves, with the first one at 0x8000.
abbrev booted : Paging
booted = paging_init 0x8000 unmapped

booted-Tracks : Tracks booted
booted-Tracks = paging_init-Tracks 0x8000 unmapped (λ e. absurd (omega arith)) refl (omega arith)

frame-IsFresh : IsFresh booted 0x9000
unfolding paging_init
frame-IsFresh = record {
  some_frame = λ e. absurd (omega arith);
  page = refl;
  low = omega arith;
  unused = λ d e. absurd (ground (arith, e));
}

map_page-translate_example :
    (p' : Paging) × (map_page 0x9000 0x400123 0x9FFF booted ≡ some p')
    × Tracks p'
    × ((w : ℕ)
        → translate p' w
          ≡ (if w / 4096 == 0x400 then some (0x9000 + w % 4096) else translate booted w))
map_page-translate_example =
    map_page-translate 0x9000 0x400123 0x9FFF booted booted-Tracks (omega arith)
      (λ e. frame-IsFresh)

paging_init-identity_example : translate (paging_init 0 unmapped) 0x1234 ≡ some 0x1234
paging_init-identity_example = paging_init-identity 0 unmapped 0x1234 refl
