-- ===== src/Pmm/Init.antt =====
-- Which frames are in use behind `pmm_init`.
use sometuffcoolpr.Prelude.{
  ℕ, zero, suc, ◌+◌, ◌-◌, ◌*◌, ◌/◌, ◌%◌, ◌^◌, ◌≤◌, ◌<◌, ◌≡◌, refl, ◌∙◌, ap, Bool, true, false, not,
  ◌&&◌, ◌||◌, List, [], ◌∷◌, arith, ltb, leb, ◌==◌, if◌then◌else◌, Bool-cases, inl, inr,
}
use sometuffcoolpr.Pmm.{
  Bitmap, Pmm, Region, set_frame, clear_frame, highest_from, fill_words, clear_frames, set_frames,
  clear_usable, start_of, end_of, pmm_init,
}
use sometuffcoolpr.Pmm.Search.{in_use, set_frame-in_use, clear_frame-in_use}

abbrev pub between : ℕ → ℕ → ℕ → Bool
between from to f = leb from f && ltb f to

-- The region begins before the end of the frame and reaches to its end: the frame that a region
-- begins in counts, the one that it ends inside does not.
abbrev pub holds : Region → ℕ → Bool
holds r f = ltb r.addr (f * 4096 + 4096) && leb (f * 4096 + 4096) (r.addr + r.len)

abbrev pub usable : List Region → ℕ → Bool
usable [] f = false
usable (r ∷ regions) f = ((r.kind == 1) && holds r f) || usable regions f

-- The regions end within 2^44 bytes, where the number of a frame has 32 bits.
abbrev pub Ends : List Region → Type 0
Ends [] = Unit {0}
Ends (r ∷ regions) = (r.addr + r.len < 2 ^ 44) × Ends regions

-- The frames that the loop over a region clears are those that it holds.
between-holds :
    (r : Region) (f : ℕ)
    → r.addr + r.len < 2 ^ 44
    → between (start_of r) (start_of r + (end_of r - start_of r)) f ≡ holds r f
between-holds r f h = ground arith

fill_words_lem :
    (n i : ℕ) (b : Bitmap) (i' j : ℕ)
    → fill_words n i b i' j ≡ (if between i (i + n) i' then true else b i' j)
unfolding fill_words
fill_words_lem zero i b i' j = ground arith
fill_words_lem (suc n) i b i' j =
    ground (arith, fill_words_lem n (i + 1) (λ k l. if k == i then true else b k l) i' j)

set_frames_lem :
    (n f : ℕ) (b : Bitmap) (g : ℕ)
    → in_use (set_frames n f b) g ≡ (if between f (f + n) g then true else in_use b g)
unfolding set_frames
set_frames_lem zero f b g = ground arith
set_frames_lem (suc n) f b g =
    set_frames_lem n (f + 1) (set_frame b f) g ∙ ground (arith, set_frame-in_use b f g)

clear_frames_lem :
    (total n f : ℕ) (b : Bitmap) (g : ℕ)
    → g < total
    → in_use (clear_frames total n f b) g ≡ (if between f (f + n) g then false else in_use b g)
unfolding clear_frames
clear_frames_lem total zero f b g lt = ground arith
clear_frames_lem total (suc n) f b g lt = elim (Bool-cases (ltb f total)) [
  | inl e ↦ rw e (
      clear_frames_lem total n (f + 1) (clear_frame b f) g lt
      ∙ ground (arith, clear_frame-in_use b f g))
  | inr e ↦ rw e (clear_frames_lem total n (f + 1) b g lt ∙ ground arith)
]

abbrev pub larger : ℕ → ℕ → ℕ
larger a b = if ltb a b then b else a

-- The highest end of a region, of which 32 bits are kept.
abbrev pub top : List Region → ℕ
top [] = 0
top (r ∷ regions) = larger ((r.addr + r.len) % 2 ^ 32) (top regions)

highest_from-top : (h : ℕ) (regions : List Region) → highest_from h regions ≡ larger h (top regions)
unfolding highest_from
highest_from-top h [] = ground arith
highest_from-top h (r ∷ regions) =
    highest_from-top (larger h ((r.addr + r.len) % 2 ^ 32)) regions ∙ ground arith

top-small : (regions : List Region) → top regions < 2 ^ 32
top-small [] = omega arith
top-small (r ∷ regions) = ground (arith, top-small regions)

clear_usable_lem :
    (total : ℕ) (regions : List Region) (b : Bitmap) (g : ℕ)
    → Ends regions
    → g < total
    → in_use (clear_usable total regions b) g ≡ (if usable regions g then false else in_use b g)
unfolding clear_usable
clear_usable_lem total [] b g h lt = refl
clear_usable_lem total (r ∷ regions) b g h lt = elim (Bool-cases (r.kind == 1)) [
  | inl e ↦ rw e (
      clear_usable_lem total regions (clear_frames total (end_of r - start_of r) (start_of r) b) g
        h.1 lt
      ∙ rw
          (
            clear_frames_lem total (end_of r - start_of r) (start_of r) b g lt,
            between-holds r g h.0,
          )
          (ground arith))
  | inr e ↦ rw e (clear_usable_lem total regions b g h.1 lt)
]

-- The frames that the bytes from one address to another lie in.
abbrev pub touched : (from to : ℕ) → ℕ → Bool
touched from to f = between (from / 4096) ((to + 4095) / 4096) f

if-not : (x : Bool) → (if x then false else true) ≡ not x
if-not true = refl
if-not false = refl

-- The frames of the kernel and those of the bitmap behind it, as one range.
ranges :
    (f a b c d k m : ℕ) (x : Bool)
    → a ≤ b
    → b ≤ c
    → c ≤ d
    → k ≡ c - a
    → m ≡ d - b
    → (if between b (b + m) f then true else (if between a (a + k) f then true else x))
      ≡ (between a d f || x)
ranges f a b c d k m x ab bc cd ek em = ground arith

module _ (kernel_start kernel_end flags : ℕ) (regions : List Region) (memory : Bitmap)
    (p : Pmm) where
  abbrev total : ℕ
  total = highest_from 0 regions / 4096

  total-top : total ≡ top regions / 4096
  total-top = ap (λ n. n / 4096) (highest_from-top 0 regions ∙ ground arith)

  abbrev bitmap_end : ℕ
  bitmap_end = kernel_end + (total + 31) / 32 * 4

  abbrev before_reserve : Bitmap
  before_reserve = clear_usable total regions (fill_words (total / 32) 0 memory)

  before_reserve-in_use :
      (f : ℕ)
      → Ends regions
      → f < total / 32 * 32
      → in_use before_reserve f ≡ not (usable regions f)
  before_reserve-in_use f ends lt =
      clear_usable_lem total regions (fill_words (total / 32) 0 memory) f ends (omega arith)
      ∙ (let word : between 0 (0 + total / 32) (f / 32) ≡ true = ground arith in
          rw (fill_words_lem (total / 32) 0 memory (f / 32) (f % 32), word)
            (if-not (usable regions f)))

  reserve-in_use :
      (k m : ℕ) (b : Bitmap) (f : ℕ)
      → kernel_start ≤ kernel_end
      → k ≡ (kernel_end + 4095) / 4096 - kernel_start / 4096
      → m ≡ (bitmap_end + 4095) / 4096 - kernel_end / 4096
      → in_use (set_frames m (kernel_end / 4096) (set_frames k (kernel_start / 4096) b)) f
        ≡ (touched kernel_start bitmap_end f || in_use b f)
  reserve-in_use k m b f order ek em =
      set_frames_lem m (kernel_end / 4096) (set_frames k (kernel_start / 4096) b) f
      ∙ rw (set_frames_lem k (kernel_start / 4096) b f) (
          ranges f (kernel_start / 4096) (kernel_end / 4096) ((kernel_end + 4095) / 4096)
            ((bitmap_end + 4095) / 4096) k m (in_use b f) (omega arith) (omega arith) (omega arith)
            ek em)

  -- `pmm_init` with a memory map, whose regions end within 2^44 bytes, and a kernel below 2^31
  -- succeeds and counts the frames up to the highest end of a region, of which 32 bits are kept. Of
  -- the frames in whole words of its bitmap exactly those are in use that no usable region of the map
  -- holds (one that begins before the frame's end and reaches to it), or that the kernel or the bitmap
  -- behind it lies in.
  pub pmm_init-in_use :
      flags / 2 ^ 6 % 2 ≡ 1
      → kernel_start ≤ kernel_end
      → kernel_end < 2 ^ 31
      → Ends regions
      → (p' : Pmm) × (pmm_init kernel_start kernel_end flags regions memory p ≡ (0, p'))
        × (p'.total_frames ≡ top regions / 4096)
        × ((f : ℕ)
            → f < p'.total_frames / 32 * 32
            → in_use p'.bitmap f ≡ (
                touched kernel_start (kernel_end + (p'.total_frames + 31) / 32 * 4) f
                || not (usable regions f)))
  unfolding pmm_init
  pmm_init-in_use map order low ends =
      let high : highest_from 0 regions < 2 ^ 32 =
        ground (arith, highest_from-top 0 regions, top-small regions) in
      let is_set : (flags / 2 ^ 6 % 2 == 1) ≡ true = rw map refl in
      let k : ℕ = (kernel_end + 4096 - 1) % 2 ^ 32 / 4096 - kernel_start / 4096 in
      let m : ℕ =
        (kernel_end + (total + 31) / 32 * 4 + 4096 - 1) % 2 ^ 32 / 4096 * 4096 / 4096
        - kernel_end / 4096 in
      let ek : k ≡ (kernel_end + 4095) / 4096 - kernel_start / 4096 = omega arith in
      let em : m ≡ (bitmap_end + 4095) / 4096 - kernel_end / 4096 = omega arith in
      (
        record {
          bitmap =
              set_frames m (kernel_end / 4096) (set_frames k (kernel_start / 4096) before_reserve);
          total_frames = total;
        },
        rw is_set refl,
        total-top,
        λ f lt.
            reserve-in_use k m before_reserve f order ek em
            ∙ ap (λ (x : Bool). touched kernel_start bitmap_end f || x)
                (before_reserve-in_use f ends lt),
      )
