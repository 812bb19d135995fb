-- ===== src/Pmm.antt =====
-- src/kernel/mm/pmm.c. A word of the bitmap is given by its bits: `bitmap i j` is the bit `1 << j`
-- of `bitmap[i]`. The memory map is the list of its entries; the addresses that the linker sets are
-- arguments. A loop over the frames from one to another takes their number.
pub mod Alloc
pub mod Search
pub mod Init
mod Tests
use sometuffcoolpr.Prelude.{
  ℕ, zero, suc, ◌+◌, ◌-◌, ◌*◌, ◌/◌, ◌%◌, ◌^◌, Bool, true, false, not, ◌&&◌, Option, none, some,
  List, [], ◌∷◌, ltb, ◌==◌, if◌then◌else◌,
}
use sometuffcoolpr.Prelude.Int.{ℤ, pos, negsuc}

abbrev pub Bitmap : Type 0
Bitmap = ℕ → ℕ → Bool

pub record Pmm : Type 0 where
  pub bitmap : Bitmap
  pub total_frames : ℕ

-- `multiboot_mmap_entry_t`
pub record Region : Type 0 where
  pub addr : ℕ
  pub len : ℕ
  pub kind : ℕ

abbrev pub frame_size : ℕ
frame_size = 4096

abbrev pub put_bit : Bitmap → ℕ → ℕ → Bool → Bitmap
put_bit b i j v i' j' = if (i' == i) && (j' == j) then v else b i' j'

unfoldable pub set_frame : Bitmap → ℕ → Bitmap
set_frame b frame = put_bit b (frame / 32) (frame % 32) true

unfoldable pub clear_frame : Bitmap → ℕ → Bitmap
clear_frame b frame = put_bit b (frame / 32) (frame % 32) false

-- The `n` bits from `j` of a word: is one of them clear?
unfoldable pub some_clear : (n j : ℕ) → (ℕ → Bool) → Bool
some_clear zero j word = false
some_clear (suc n) j word =
    let rest = some_clear n (j + 1) word in if not (word j) then true else rest

-- The loop over the bits of a word.
unfoldable pub first_clear : (n j : ℕ) → (ℕ → Bool) → Option ℕ
first_clear zero j word = none
first_clear (suc n) j word =
    let rest = first_clear n (j + 1) word in if not (word j) then some j else rest

-- `bitmap[i] != 0xFFFFFFFF`
unfoldable pub not_full : (ℕ → Bool) → Bool
unfolding some_clear
not_full word = some_clear 32 0 word

unfoldable pub free_bit : (ℕ → Bool) → Option ℕ
unfolding first_clear
free_bit word = first_clear 32 0 word

-- The `n` turns of the loop over the words from `i`.
unfoldable pub first_free_from : (n i : ℕ) → Bitmap → ℤ
first_free_from zero i b = negsuc 0
first_free_from (suc n) i b =
    let rest = first_free_from n (i + 1) b in
    if not_full (b i)
    then elim (free_bit (b i)) [ none ↦ rest | some j ↦ pos (i * 32 + j) ]
    else rest

unfoldable pub first_free_frame : Pmm → ℤ
unfolding first_free_from
first_free_frame p = first_free_from (p.total_frames / 32) 0 p.bitmap

-- The address of the frame, 0 for NULL.
unfoldable pub alloc_frame : Pmm → ℕ × Pmm
unfolding first_free_frame set_frame
alloc_frame p = elim (first_free_frame p) [
  | negsuc n ↦ (0, p)
  | pos frame ↦ (frame * frame_size % 2 ^ 32, record p { bitmap = set_frame p.bitmap frame })
]

unfoldable pub free_frame : Pmm → ℕ → Pmm
unfolding clear_frame
free_frame p frame = record p { bitmap = clear_frame p.bitmap (frame / frame_size) }

unfoldable pub get_total_frames : Pmm → ℕ
get_total_frames p = p.total_frames

unfoldable pub free_frames_from : (n i : ℕ) → Bitmap → ℕ
free_frames_from zero i b = 0
free_frames_from (suc n) i b =
    let rest = free_frames_from n (i + 1) b in if not (b (i / 32) (i % 32)) then 1 + rest else rest

unfoldable pub get_free_frames : Pmm → ℕ
unfolding free_frames_from
get_free_frames p = free_frames_from p.total_frames 0 p.bitmap

-- The first loop of `pmm_init`: a region's end is a `uint32_t`.
unfoldable pub highest_from : ℕ → List Region → ℕ
highest_from highest [] = highest
highest_from highest (r ∷ regions) =
    let end : ℕ = (r.addr + r.len) % 2 ^ 32 in
    highest_from (if ltb highest end then end else highest) regions

-- `bitmap[i] = 0xFFFFFFFF` for the `n` words from `i`.
unfoldable pub fill_words : (n i : ℕ) → Bitmap → Bitmap
fill_words zero i b = b
fill_words (suc n) i b = fill_words n (i + 1) (λ i' j. if i' == i then true else b i' j)

unfoldable pub clear_frames : ℕ → (n f : ℕ) → Bitmap → Bitmap
unfolding clear_frame
clear_frames total zero f b = b
clear_frames total (suc n) f b =
    clear_frames total n (f + 1) (if ltb f total then clear_frame b f else b)

unfoldable pub set_frames : (n f : ℕ) → Bitmap → Bitmap
unfolding set_frame
set_frames zero f b = b
set_frames (suc n) f b = set_frames n (f + 1) (set_frame b f)

abbrev pub start_of : Region → ℕ
start_of r = r.addr / frame_size % 2 ^ 32

abbrev pub end_of : Region → ℕ
end_of r = (r.addr + r.len) % 2 ^ 64 / frame_size % 2 ^ 32

-- The loop that frees the usable memory.
unfoldable pub clear_usable : ℕ → List Region → Bitmap → Bitmap
unfolding clear_frames
clear_usable total [] b = b
clear_usable total (r ∷ regions) b =
    clear_usable total regions
      (if r.kind == 1 then clear_frames total (end_of r - start_of r) (start_of r) b else b)

abbrev pub missing_memory_map : ℕ
missing_memory_map = 1

-- `memory` is what stands at the kernel's end, where the bitmap is put.
unfoldable pub pmm_init :
    (kernel_start kernel_end : ℕ) → (flags : ℕ) → List Region → (memory : Bitmap) → Pmm → ℕ × Pmm
unfolding highest_from fill_words clear_usable set_frames
pmm_init kernel_start kernel_end flags regions memory p =
    let total : ℕ = highest_from 0 regions / frame_size in
    let bitmap_size : ℕ = (total + 31) / 32 * 4 in
    let bitmap_end : ℕ =
      (kernel_end + bitmap_size + frame_size - 1) % 2 ^ 32 / frame_size * frame_size in
    let all_used = fill_words (total / 32) 0 memory in
    let usable = clear_usable total regions all_used in
    let start_frame : ℕ = kernel_start / frame_size in
    let end_frame : ℕ = (kernel_end + frame_size - 1) % 2 ^ 32 / frame_size in
    let reserved = set_frames (end_frame - start_frame) start_frame usable in
    let bitmap_frame : ℕ = kernel_end / frame_size in
    let with_bitmap = set_frames (bitmap_end / frame_size - bitmap_frame) bitmap_frame reserved in
    if flags / 2 ^ 6 % 2 == 1
    then (0, record { bitmap = with_bitmap; total_frames = total })
    else (missing_memory_map, p)
