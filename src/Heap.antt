-- ===== src/Heap.antt =====
-- src/kernel/mm/heap.c with the bounds of mm/vm.h. The memory is the 32-bit word at each address;
-- every access of the allocator is to a word at a multiple of four (`Heap.Blocks` keeps that), so
-- two accesses meet exactly when their addresses are equal, tails and headers included. A pointer
-- is its address, NULL is 0, and `size_t` arithmetic wraps. Loops over the block list run on fuel,
-- and `none` means that it ran out, as on a cyclic list.
pub mod Blocks
pub mod Alloc
pub mod Free
pub mod Validate
pub mod Faults
mod Tests
use sometuffcoolpr.Prelude.{
  ℕ, zero, suc, ◌+◌, ◌-◌, ◌*◌, ◌/◌, ◌%◌, ◌^◌, Bool, true, false, ◌&&◌, ◌||◌, not, Option, none,
  some, List, [], ◌∷◌, ltb, leb, ◌==◌, if◌then◌else◌,
}
use sometuffcoolpr.Prelude.Memory.{Memory, write}

abbrev pub kernel_heap_start : ℕ
kernel_heap_start = 0x400000

abbrev pub kernel_heap_end : ℕ
kernel_heap_end = 0x800000

abbrev pub heap_magic : ℕ
heap_magic = 0xDEADBEEF

abbrev pub min_block_size : ℕ
min_block_size = 8

-- `sizeof(block_header_t)`
abbrev pub header_size : ℕ
header_size = 20

-- The fields of `block_header_t`, as the addresses of their words.
abbrev pub magic_of : ℕ → ℕ
magic_of b = b

abbrev pub size_of : ℕ → ℕ
size_of b = b + 4

abbrev pub free_of : ℕ → ℕ
free_of b = b + 8

abbrev pub next_of : ℕ → ℕ
next_of b = b + 12

abbrev pub prev_of : ℕ → ℕ
prev_of b = b + 16

-- `heap_head`, `heap_start` and `heap_end`, and the memory.
pub record Heap : Type 0 where
  pub mem : Memory
  pub head : ℕ
  pub start : ℕ
  pub end : ℕ

abbrev pub u32 : ℕ → ℕ
u32 n = n % 2 ^ 32

abbrev pub sub32 : ℕ → ℕ → ℕ
sub32 a b = (a + 2 ^ 32 - b) % 2 ^ 32

unfoldable pub heap_init : Heap → Heap
heap_init h = record h { start = kernel_heap_start; end = kernel_heap_start }

-- `(size + 7) & ~7`: the low three bits are cleared.
abbrev pub align : ℕ → ℕ
align size = u32 (size + 7) / 8 * 8

-- `(char*)(b + 1) + size`
abbrev pub tail_of : ℕ → ℕ → ℕ
tail_of b size = u32 (b + header_size + size)

-- The five fields of a header and the tail word behind its payload.
unfoldable pub new_block : ℕ → (size free next prev : ℕ) → Memory → Memory
new_block b size free next prev m =
    write
      (write
        (write (write (write (write m (magic_of b) heap_magic) (size_of b) size) (free_of b) free)
          (next_of b) next)
        (prev_of b) prev)
      (tail_of b size) heap_magic

-- The first allocation.
unfoldable pub first_block : ℕ → Heap → ℕ × Heap
first_block size h =
    let new_end : ℕ = u32 (h.end + header_size + size) in
    if leb kernel_heap_end new_end then (0, h) else (
      h.end + header_size,
      record h { mem = new_block h.end size 0 0 0 h.mem; head = h.end; end = new_end },
    )

-- Where the search loop stops: at a block that fits, or at the last block.
pub data Found : Type 0 where
  fits : ℕ → Found
  last : ℕ → Found

unfoldable pub search : ℕ → Memory → ℕ → ℕ → Option Found
search zero m size current = none
search (suc k) m size current =
    let rest = search k m size (m (next_of current)) in
    if not (m (free_of current) == 0) && leb size (m (size_of current))
    then some (fits current)
    else if m (next_of current) == 0
    then some (last current)
    else rest

-- `if (new_block->next) new_block->next->prev = new_block;`
pub set_prev : ℕ → ℕ → Memory → Memory
set_prev b p m = if b == 0 then m else write m (prev_of b) p

-- `current` is cut after `size` bytes, and a free block made of the rest.
pub split : ℕ → ℕ → Memory → Memory
split size current m =
    let b = tail_of current size in
    let rest_size = sub32 (m (size_of current)) (size + header_size + 4) in
    let next = m (next_of current) in
    let m1 = set_prev next b (new_block b rest_size 1 next current m) in
    write (write (write m1 (size_of current) size) (next_of current) b) (tail_of current size)
      heap_magic

pub take_block : ℕ → ℕ → Memory → Memory
take_block size current m =
    write
      (if leb (u32 (size + header_size + 4 + min_block_size)) (m (size_of current))
        then split size current m
        else m)
      (free_of current) 0

unfoldable pub append_block : ℕ → ℕ → Heap → ℕ × Heap
append_block size current h =
    let new_end : ℕ = u32 (h.end + header_size + size + 4) in
    if ltb new_end h.end then (0, h) else if leb kernel_heap_end new_end then (0, h) else (
      h.end + header_size,
      record h {
        mem = write (new_block h.end size 0 0 current h.mem) (next_of current) h.end;
        end = new_end;
      },
    )

-- `kmalloc` behind its checks, with the size rounded up.
unfoldable pub allocate : ℕ → ℕ → Heap → Option (ℕ × Heap)
allocate fuel size h =
    if h.head == 0 then some (first_block size h) else elim (search fuel h.mem size h.head) [
      | none ↦ none
      | some (fits b) ↦ some (u32 (b + header_size), record h { mem = take_block size b h.mem })
      | some (last b) ↦ some (append_block size b h)
    ]

-- The address returned is 0 for NULL.
unfoldable pub kmalloc : ℕ → ℕ → Heap → Option (ℕ × Heap)
kmalloc fuel size h =
    if size == 0
    then some (0, h)
    else if ltb (align size) size
    then some (0, h)
    else if ltb (sub32 (sub32 (sub32 kernel_heap_end h.end) header_size) 4) (align size)
    then some (0, h)
    else allocate fuel (align size) h

-- What `kfree` and `heap_validate` print.
pub data Report : Type 0 where
  invalid_free_header header_corrupted tail_corruption heap_corruption double_free : Report
  cycle_detected magic_corrupted outside_range exceeds_boundary structure_valid : Report

-- `b && b >= heap_start && b < heap_end && b->free`
pub mergeable : Heap → Memory → ℕ → Bool
mergeable h m b = not (b == 0) && (leb h.start b && (ltb b h.end && not (m (free_of b) == 0)))

-- The free block `b` takes in the block behind it; the old `b->next->next` stays in the list.
pub absorb : ℕ → Memory → Memory
absorb b m =
    let n = m (next_of b) in
    let m1 = write m (size_of b) (u32 (m (size_of b) + (header_size + m (size_of n) + 4))) in
    let m2 = write m1 (next_of b) (m1 (next_of n)) in
    let m3 = write m2 (tail_of b (m2 (size_of b))) heap_magic in set_prev (m3 (next_of b)) b m3

pub merge_next : Heap → ℕ → Memory → Memory
merge_next h b m = if mergeable h m (m (next_of b)) then absorb b m else m

-- The block before `b` takes `b` in.
pub absorb_into : ℕ → ℕ → Memory → Memory
absorb_into p b m =
    let m1 = write m (size_of p) (u32 (m (size_of p) + (header_size + m (size_of b) + 4))) in
    let p' = m1 (prev_of b) in
    let m2 = write m1 (tail_of p' (m1 (size_of p'))) heap_magic in
    let m3 = write m2 (next_of (m2 (prev_of b))) (m2 (next_of b)) in
    set_prev (m3 (next_of b)) (m3 (prev_of b)) m3

pub merge_prev : Heap → ℕ → Memory → Memory
merge_prev h b m = if mergeable h m (m (prev_of b)) then absorb_into (m (prev_of b)) b m else m

-- `while (last && last->next) last = last->next;`
pub walk_last : ℕ → Memory → ℕ → Option ℕ
walk_last zero m b = none
walk_last (suc k) m b =
    let rest = walk_last k m (m (next_of b)) in
    if b == 0 then some b else if m (next_of b) == 0 then some b else rest

-- The end of `kfree`: an empty heap is reset, or `heap_end` moves down to a free last block.
pub trim : ℕ → Heap → Option Heap
trim fuel h =
    if not (h.head == 0) && (not (h.mem (free_of h.head) == 0) && h.mem (next_of h.head) == 0)
    then some (record h { end = h.start; head = 0 })
    else elim (walk_last fuel h.mem h.head) [
      | none ↦ none
      | some b ↦
          some (if not (b == 0) && not (h.mem (free_of b) == 0) then record h { end = b } else h)
    ]

-- The checks of `kfree`, in their order; `none` lets the block through.
pub check_block : Heap → ℕ → Option Report
check_block h b =
    if ltb b h.start || leb h.end b
    then some invalid_free_header
    else if not (h.mem (magic_of b) == heap_magic)
    then some header_corrupted
    else if not (h.mem (tail_of b (h.mem (size_of b))) == heap_magic)
    then some tail_corruption
    else if h.mem (size_of b) == 0 || ltb h.end (tail_of b (h.mem (size_of b)))
    then some heap_corruption
    else if not (h.mem (free_of b) == 0)
    then some double_free
    else none

pub release : ℕ → ℕ → Heap → Option Heap
release fuel b h =
    trim fuel (record h { mem = merge_prev h b (merge_next h b (write h.mem (free_of b) 1)) })

-- The message printed, if any, and the heap.
pub kfree : ℕ → ℕ → Heap → Option (Option Report × Heap)
kfree fuel ptr h =
    if ptr == 0
    then some (none, h)
    else let b = sub32 ptr header_size in
      elim (check_block h b) [
        | some r ↦ some (some r, h)
        | none ↦ elim (release fuel b h) [ none ↦ none | some h' ↦ some (none, h') ]
      ]

-- A line of `heap_dump`: address, size and whether the block is free.
pub dump : ℕ → Memory → ℕ → Option (List (ℕ × ℕ × Bool))
dump zero m b = none
dump (suc k) m b =
    let rest = dump k m (m (next_of b)) in
    if b == 0 then some [] else elim rest [
      | none ↦ none
      | some lines ↦ some ((b, m (size_of b), not (m (free_of b) == 0)) ∷ lines)
    ]

unfoldable pub heap_dump : ℕ → Heap → Option (List (ℕ × ℕ × Bool))
unfolding dump
heap_dump fuel h = dump fuel h.mem h.head

-- The two pointers of the cycle test: does the loop meet a cycle?
pub has_cycle : ℕ → Memory → (slow fast : ℕ) → Option Bool
has_cycle zero m slow fast = none
has_cycle (suc k) m slow fast =
    let slow' = m (next_of slow) in
    let fast' = m (next_of (m (next_of fast))) in
    let rest = has_cycle k m slow' fast' in
    if fast == 0
    then some false
    else if m (next_of fast) == 0
    then some false
    else if slow' == fast'
    then some true
    else rest

pub validate_block : Heap → ℕ → Option Report
validate_block h b =
    let m = h.mem in
    if not (m (magic_of b) == heap_magic)
    then some magic_corrupted
    else if not (m (next_of b) == 0) && not (m (prev_of (m (next_of b))) == b)
    then some heap_corruption
    else if ltb b h.start || leb h.end b
    then some outside_range
    else if ltb h.end (u32 (u32 (b + header_size) + m (size_of b)))
    then some exceeds_boundary
    else none

pub validate_from : ℕ → Heap → ℕ → Option Report
validate_from zero h b = none
validate_from (suc k) h b =
    let rest = validate_from k h (h.mem (next_of b)) in
    if b == 0
    then some structure_valid
    else elim (validate_block h b) [ some r ↦ some r | none ↦ rest ]

-- The message of `heap_validate`.
pub heap_validate : ℕ → Heap → Option Report
heap_validate fuel h = elim (has_cycle fuel h.mem h.head h.head) [
  | none ↦ none
  | some true ↦ some cycle_detected
  | some false ↦ validate_from fuel h h.head
]
