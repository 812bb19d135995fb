-- ===== src/Heap/Alloc/Split.antt =====
-- The words that `take_block` writes.
use sometuffcoolpr.Prelude.{
  ℕ, ◌+◌, ◌-◌, ◌^◌, ◌≤◌, ◌<◌, ◌≡◌, ◌≢◌, ◌⊎◌, arith, ◌==◌, if◌then◌else◌, fun_ext,
}
use sometuffcoolpr.Prelude.Memory.{Memory, write}
use sometuffcoolpr.Heap.{
  take_block, split, set_prev, new_block, heap_magic, kernel_heap_end, size_of, free_of, next_of,
  prev_of,
}

-- What a cut after `size` bytes of the block at `a`, of `s` bytes, leaves in memory.
pub record Cut (size a s next : ℕ) (m m' : Memory) : Type 0 where
  pub magic : m' a ≡ m a
  pub size_set : m' (size_of a) ≡ size
  pub used : m' (free_of a) ≡ 0
  pub next_set : m' (next_of a) ≡ a + 20 + size
  pub prev : m' (prev_of a) ≡ m (prev_of a)
  pub new_magic : m' (a + 20 + size) ≡ heap_magic
  pub new_size : m' (size_of (a + 20 + size)) ≡ s - size - 24
  pub new_free : m' (free_of (a + 20 + size)) ≡ 1
  pub new_next : m' (next_of (a + 20 + size)) ≡ next
  pub new_prev : m' (prev_of (a + 20 + size)) ≡ a
  pub below : (x : ℕ) → x < a → m' x ≡ m x
  pub above : (x : ℕ) → a + 20 + s ≤ x → x ≢ prev_of next → m' x ≡ m x
  pub back : next ≢ 0 → m' (prev_of next) ≡ a + 20 + size

abbrev cut_words : ℕ → ℕ → ℕ → ℕ → Memory → Memory
cut_words size a s next m =
    let b = a + 20 + size in
    let t = b + 20 + (s - size - 24) in
    let header : Memory =
      write
        (write
          (write (write (write (write m b heap_magic) (size_of b) (s - size - 24)) (free_of b) 1)
            (next_of b) next)
          (prev_of b) a)
        t heap_magic in
    let linked : Memory = if next == 0 then header else write header (prev_of next) b in
    write (write (write (write linked (size_of a) size) (next_of a) b) b heap_magic) (free_of a) 0

take_block-cut_words :
    (size a s next : ℕ) (m : Memory)
    → m (size_of a) ≡ s
    → m (next_of a) ≡ next
    → size + 32 ≤ s
    → a + 20 + s ≤ kernel_heap_end
    → take_block size a m ≡ cut_words size a s next m
unfolding take_block split set_prev new_block
take_block-cut_words size a s next m hs hn fit top = fun_ext λ x. ground arith

cut_words-Cut :
    (size a s next : ℕ) (m : Memory)
    → 0 < size
    → size + 32 ≤ s
    → (next ≡ 0) ⊎ (a + 20 + s ≤ next)
    → Cut size a s next m (cut_words size a s next m)
cut_words-Cut size a s next m pos fit out = record {
  magic = ground arith;
  size_set = ground arith;
  used = ground arith;
  next_set = ground arith;
  prev = ground arith;
  new_magic = ground arith;
  new_size = ground arith;
  new_free = ground arith;
  new_next = ground arith;
  new_prev = ground arith;
  below = λ x h. ground arith;
  above = λ x h ne. ground arith;
  back = λ ne. ground arith;
}

-- The cut of `take_block`, for a block below the end of the heap.
pub take_block-Cut :
    (size a s next : ℕ) (m : Memory)
    → 0 < size
    → m (size_of a) ≡ s
    → m (next_of a) ≡ next
    → size + 32 ≤ s
    → a + 20 + s ≤ kernel_heap_end
    → (next ≡ 0) ⊎ (a + 20 + s ≤ next)
    → Cut size a s next m (take_block size a m)
take_block-Cut size a s next m pos hs hn fit top out =
    rw (take_block-cut_words size a s next m hs hn fit top)
      (cut_words-Cut size a s next m pos fit out)

-- A block that is not cut only loses its free flag.
pub take_block-whole :
    (size a s : ℕ) (m : Memory)
    → m (size_of a) ≡ s
    → s < size + 32
    → size + 32 < 2 ^ 32
    → take_block size a m ≡ write m (free_of a) 0
unfolding take_block
take_block-whole size a s m hs small nowrap = ground arith
