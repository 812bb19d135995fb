-- ===== src/Shell/Commands/Storage.antt =====
-- The handlers of the heap and of the physical memory, with what `kfree`, `heap_validate` and
-- `heap_dump` of src/kernel/mm/heap.c print.
use sometuffcoolpr.Prelude.{
  ◌&&◌, ◌||◌, true, false, ℕ, zero, suc, ◌+◌, ◌-◌, ◌%◌, ◌^◌, Bool, Option, none, some, List, [],
  ◌∷◌, ◌++◌, ltb, ◌==◌, if◌then◌else◌, length,
}
use sometuffcoolpr.Prelude.Text.{codes}
use sometuffcoolpr.Prelude.Memory.{Memory}
use sometuffcoolpr.Str.{CString, atoi, atoi_hex}
use sometuffcoolpr.Vga.Output.{Item, text, dec, hex}
use sometuffcoolpr.Heap.{
  Heap, Report, invalid_free_header, header_corrupted, tail_corruption, heap_corruption,
  double_free, cycle_detected, magic_corrupted, outside_range, exceeds_boundary, structure_valid,
  kmalloc, kfree, heap_dump, heap_validate,
}
use sometuffcoolpr.Pmm.{get_total_frames, get_free_frames}
use sometuffcoolpr.Fs.{Result, ok, fault, ◌>>=◌, Fs}
use sometuffcoolpr.Paging.{translate}
use sometuffcoolpr.Arch.Idt.{page_fault_handler}
use sometuffcoolpr.Machine.{Machine, World, say}
use sometuffcoolpr.Shell.Commands.{Handler, arg, not_positive, finished}

unfoldable pub report_text : Report → CString
report_text invalid_free_header = codes "Invalid free header!\n"
report_text header_corrupted = codes "Heap header corrupted!\n"
report_text tail_corruption = codes "Heap tail corruption detected!\n"
report_text heap_corruption = codes "Heap corruption detected!\n"
report_text double_free = codes "Double free detected!\n"
report_text cycle_detected = codes "Heap cycle detected!\n"
report_text magic_corrupted = codes "Heap magic corrupted!\n"
report_text outside_range = codes "Block outside heap range!\n"
report_text exceeds_boundary = codes "Block exceeds heap boundary!\n"
report_text structure_valid = codes "Heap structure valid.\n"

-- What a call of `kfree` prints.
unfoldable pub free_message : Option Report → List Item
unfolding report_text
free_message none = []
free_message (some r) = text (report_text r) ∷ []

-- Does the piece of `n` bytes at `a` meet one of the others?
unfoldable pub meets : (a n : ℕ) → List (ℕ × ℕ) → Bool
meets a n [] = false
meets a n ((b, k) ∷ objects) = (ltb a (b + k) && ltb b (a + n)) || meets a n objects

-- The `n` bytes from `a` hold the same words.
unfoldable pub same_words : (n a : ℕ) → Memory → Memory → Bool
same_words zero a m m' = true
same_words (suc n) a m m' = (m a == m' a) && same_words n (a + 1) m m'

unfoldable pub intact : List (ℕ × ℕ) → Memory → Memory → Bool
unfolding same_words
intact [] m m' = true
intact ((b, k) ∷ objects) m m' = same_words k b m m' && intact objects m m'

-- The heap behind a call. When the call writes to memory that holds a node or a buffer, what follows
-- depends on how these are laid out, and the result is a fault.
unfoldable pub with_heap : Heap → Machine → Result Machine
unfolding intact
with_heap h m = if intact m.fs.objects m.heap.mem h.mem then ok (record m { heap = h }) else fault

unfoldable pub alloc_on : ℕ → World → Machine → Result (ℕ × Machine)
unfolding finished with_heap
alloc_on size w m =
    finished (kmalloc w.fuel size m.heap) >>= λ (ptr, h). with_heap h m >>= λ m'. ok (ptr, m')

abbrev pub with_object : (ptr size : ℕ) → Fs → Fs
with_object ptr size fs = record fs { objects = (ptr, size) ∷ fs.objects }

-- Memory for a node or a buffer. When `kmalloc` gives memory that another one holds, these share it
-- from then on, and the result is a fault, as the store keeps them apart.
unfoldable pub alloc_object : ℕ → World → Machine → Result (ℕ × Machine)
unfolding alloc_on meets
alloc_object size w m = alloc_on size w m >>= λ (ptr, m').
    if meets ptr size m'.fs.objects
    then fault
    else ok (ptr, record m' { fs = with_object ptr size m'.fs })

-- `kfree(ptr)`, and its address as the handlers print it.
unfoldable pub free_and_print : ℕ → World → Machine → Result Machine
unfolding free_message finished with_heap
free_and_print ptr w m = finished (kfree w.fuel ptr m.heap) >>= λ (r, h). with_heap h m >>= λ m'.
    say (free_message r ++ (text (codes "Freed: ") ∷ hex ptr ∷ text (codes "\n") ∷ [])) m'

unfoldable pub cmd_alloc : Handler
unfolding atoi alloc_on
cmd_alloc argv w m =
    let size : ℕ = atoi (arg argv 1) in
    if ltb (length argv) 2
    then say (text (codes "Usage: alloc <size>\n") ∷ []) m
    else if not_positive size
    then say (text (codes "Invalid size\n") ∷ []) m
    else alloc_on size w m >>= λ (ptr, m').
        if ptr == 0
        then say (text (codes "Allocation failed\n") ∷ []) m'
        else say (text (codes "Allocated at: ") ∷ hex ptr ∷ text (codes "\n") ∷ [])
            (record m' { last_alloc = ptr })

unfoldable pub cmd_free : Handler
unfolding atoi_hex free_and_print
cmd_free argv w m =
    let ptr : ℕ = atoi_hex (arg argv 1) in
    if ltb (length argv) 2
    then say (text (codes "Usage: free <address>\n") ∷ []) m
    else if ptr == 0
    then say (text (codes "Invalid address\n") ∷ []) m
    else free_and_print ptr w m

unfoldable pub cmd_freelast : Handler
unfolding free_and_print
cmd_freelast argv w m =
    if m.last_alloc == 0
    then say (text (codes "No previous allocation\n") ∷ []) m
    else free_and_print m.last_alloc w m >>= λ m'. ok (record m' { last_alloc = 0 })

unfoldable pub cmd_heapval : Handler
unfolding report_text finished
cmd_heapval argv w m =
    finished (heap_validate w.fuel m.heap) >>= λ r. say (text (report_text r) ∷ []) m

-- The lines of the blocks, the first of which has the number `i`.
unfoldable pub block_lines : ℕ → List (ℕ × ℕ × Bool) → List Item
block_lines i [] = []
block_lines i ((b, size, free) ∷ blocks) =
    text (codes "  Block ")
    ∷ dec i
    ∷ text (codes ": addr=")
    ∷ hex b
    ∷ text (codes " size=")
    ∷ dec size
    ∷ text (codes " header=")
    ∷ hex b
    ∷ text (codes " payload=")
    ∷ hex ((b + 20) % 2 ^ 32)
    ∷ text (codes " ")
    ∷ text (if free then codes "FREE" else codes "USED")
    ∷ text (codes "\n")
    ∷ block_lines (i + 1) blocks

unfoldable pub dump_text : List (ℕ × ℕ × Bool) → List Item
unfolding block_lines
dump_text [] = text (codes "Heap empty.\n") ∷ []
dump_text (b ∷ blocks) = text (codes "Heap blocks:\n") ∷ block_lines 0 (b ∷ blocks)

unfoldable pub cmd_heapinfo : Handler
unfolding dump_text heap_dump finished
cmd_heapinfo argv w m = finished (heap_dump w.fuel m.heap) >>= λ blocks. say (dump_text blocks) m

unfoldable pub cmd_meminfo : Handler
unfolding get_total_frames
cmd_meminfo argv w m =
    let total : ℕ = get_total_frames m.pmm in
    let free : ℕ = get_free_frames m.pmm in
    say
      (text (codes "Physical Memory:\n")
        ∷ text (codes "  Total frames: ")
        ∷ dec total
        ∷ text (codes "\n")
        ∷ text (codes "  Free frames:  ")
        ∷ dec free
        ∷ text (codes "\n")
        ∷ text (codes "  Used frames:  ")
        ∷ dec ((total + 2 ^ 32 - free) % 2 ^ 32)
        ∷ text (codes "\n")
        ∷ [])
      m

-- The `n` bytes from the `i`-th behind `addr`, sixteen on a line.
unfoldable pub byte_items : (n : ℕ) → Memory → (addr i : ℕ) → List Item
byte_items zero raw addr i = text (codes "\n") ∷ []
byte_items (suc n) raw addr i =
    let p : ℕ = (addr + i) % 2 ^ 32 in
    let heading : List Item =
      if i % 16 == 0 then text (codes "\n") ∷ hex p ∷ text (codes ": ") ∷ [] else [] in
    let padding : List Item = if ltb (raw p) 16 then text (codes "0") ∷ [] else [] in
    heading ++ (padding ++ (hex (raw p) ∷ text (codes " ") ∷ byte_items n raw addr (i + 1)))

-- Reading the `n` bytes from `addr`: at one that the page tables do not map, the handler of page
-- faults maps its page or panics.
unfoldable pub touch : (n addr : ℕ) → Machine → Result Machine
unfolding translate page_fault_handler
touch zero addr m = ok m
touch (suc n) addr m = elim (translate m.paging (addr % 2 ^ 32)) [
  | none ↦ page_fault_handler (addr % 2 ^ 32) 0 m >>= λ m'. touch n (addr + 1) m'
  | some p ↦ touch n (addr + 1) m
]

unfoldable pub cmd_memdump : Handler
unfolding atoi atoi_hex byte_items touch
cmd_memdump argv w m =
    let addr : ℕ = atoi_hex (arg argv 1) in
    let bytes : ℕ = atoi (arg argv 2) in
    if ltb (length argv) 3
    then say (text (codes "Usage: memdump <addr> <bytes>\n") ∷ []) m
    else if not_positive bytes
    then say (text (codes "Invalid byte count\n") ∷ []) m
    else touch bytes addr m >>= λ m'. say (byte_items bytes w.raw addr 0) m'
