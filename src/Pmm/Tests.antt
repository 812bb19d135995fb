-- ===== src/Pmm/Tests.antt =====
-- A machine with 64 frames for src/kernel/mm/pmm.c.
use sometuffcoolpr.Prelude.{
  ℕ, ◌+◌, ◌*◌, ◌/◌, ◌≡◌, ◌<◌, refl, false, not, ◌||◌, List, [], ◌∷◌, arith, ◌==◌,
}
use sometuffcoolpr.Prelude.Int.{pos}
use sometuffcoolpr.Pmm.{
  Pmm, Region, first_free_frame, not_full, free_bit, alloc_frame, free_frame, get_free_frames,
  pmm_init,
}
use sometuffcoolpr.Pmm.Search.{in_use}
use sometuffcoolpr.Pmm.Alloc.{Allocated, alloc_frame-Allocated, alloc_frame-free_frame}
use sometuffcoolpr.Pmm.Init.{touched, usable, pmm_init-in_use}

-- The frames below 33 are in use.
abbrev low_used : Pmm
low_used = record { bitmap = λ i j. (i == 0) || (j == 0); total_frames = 64 }

alloc_frame-Allocated_example :
    Allocated low_used (alloc_frame low_used) (first_free_frame low_used)
alloc_frame-Allocated_example = alloc_frame-Allocated low_used (omega arith)

first_33 : first_free_frame low_used ≡ pos 33
unfolding first_free_frame not_full free_bit
first_33 = refl

alloc_frame-free_frame_example :
    (get_free_frames low_used ≡ 1 + get_free_frames (alloc_frame low_used).1)
    × (get_free_frames (free_frame (alloc_frame low_used).1 (alloc_frame low_used).0)
        ≡ get_free_frames low_used)
    × ((f : ℕ)
        → in_use (free_frame (alloc_frame low_used).1 (alloc_frame low_used).0).bitmap f
          ≡ in_use low_used.bitmap f)
alloc_frame-free_frame_example = alloc_frame-free_frame low_used 33 (omega arith) first_33

-- Usable memory from frame 1 to frame 64.
abbrev regions : List Region
regions = record { addr = 4096; len = 63 * 4096; kind = 1 } ∷ []

pmm_init-in_use_example :
    (p' : Pmm) × (pmm_init 0x2000 0x3010 64 regions (λ i j. false) low_used ≡ (0, p'))
    × (p'.total_frames ≡ 64)
    × ((f : ℕ)
        → f < p'.total_frames / 32 * 32
        → in_use p'.bitmap f
          ≡ (touched 0x2000 (0x3010 + (p'.total_frames + 31) / 32 * 4) f || not (usable regions f)))
pmm_init-in_use_example =
    pmm_init-in_use 0x2000 0x3010 64 regions (λ i j. false) low_used refl (omega arith)
      (omega arith) (omega arith, tt)
