-- ===== src/Heap/Faults.antt =====
-- `kfree` and `kmalloc` of src/kernel/mm/heap.c on heaps where they damage the block list.
use sometuffcoolpr.Prelude.{
  ℕ, zero, suc, ◌+◌, ◌-◌, ◌^◌, ◌≤◌, ◌<◌, ◌≡◌, refl, ◌∙◌, ap, false, none, some, [], ◌∷◌, arith,
  ◌==◌,
}
use sometuffcoolpr.Prelude.Memory.{Memory, write}
use sometuffcoolpr.Heap.{
  Heap, kmalloc, kfree, allocate, append_block, new_block, set_prev, align, search, heap_magic,
  kernel_heap_end, kernel_heap_start, magic_of, size_of, free_of, next_of, prev_of, u32, sub32,
  header_size, check_block, release, merge_next, merge_prev, mergeable, trim, walk_last,
  absorb_into,
}
use sometuffcoolpr.Heap.Blocks.{Block, flag, Wf}

-- Three blocks without a gap between them, `p`, `b` and `n`: when `p` takes in `b`, the tail that
-- `kfree` writes for the merged block falls on the size word of `n`, which becomes HEAP_MAGIC.
pub absorb_into-overwrites :
    (m : Memory) (p b n : ℕ)
    → m (prev_of b) ≡ p
    → m (next_of b) ≡ n
    → p + header_size + m (size_of p) ≡ b
    → b + header_size + m (size_of b) ≡ n
    → n + 20 < 2 ^ 32
    → absorb_into p b m (size_of n) ≡ heap_magic
unfolding absorb_into set_prev
absorb_into-overwrites m p b n hp hn gap1 gap2 top = ground arith

-- Where `b` lies twelve bytes more behind the free block `p` than its own size, as a few splits leave
-- it, the tail of the merged block falls on the `next` word of `b` before it is read, so that the list
-- goes on at HEAP_MAGIC.
pub absorb_into-breaks :
    (m : Memory) (p b : ℕ)
    → m (prev_of b) ≡ p
    → p + header_size + m (size_of p) + (m (size_of b) + 12) ≡ b
    → b + 20 ≤ kernel_heap_end
    → absorb_into p b m (next_of p) ≡ heap_magic
unfolding absorb_into set_prev
absorb_into-breaks m p b hp gap top = ground arith

-- Two blocks in use, the second with its tail in place.
pub record TwoUsed (h : Heap) (b c : Block) : Type 0 where
  pub wf : Wf h (b ∷ c ∷ [])
  pub used_b : b.free ≡ false
  pub used_c : c.free ≡ false
  pub tail : h.mem (c.addr + 20 + c.size) ≡ heap_magic

-- `kfree` of the second.
abbrev pub after_free : Heap → Block → Heap
after_free h c = record h { mem = write h.mem (free_of c.addr) 1; end = c.addr }

-- The `kmalloc` that follows, of more than the second block holds.
abbrev pub after_alloc : Heap → Block → ℕ → Heap
after_alloc h c size = record h {
  mem =
      write (new_block c.addr size 0 0 c.addr (write h.mem (free_of c.addr) 1)) (next_of c.addr)
        c.addr;
  end = c.addr + 24 + size;
}

-- The facts about the two headers that the runs below need, with the flags resolved.
record Facts (h : Heap) (b c : Block) : Type 0 where
  start : h.start ≡ kernel_heap_start
  lo : kernel_heap_start ≤ b.addr
  far : b.addr + 20 + b.size ≤ c.addr
  top : c.addr + 20 + c.size ≤ h.end
  high : h.end ≤ kernel_heap_end
  pos : 0 < c.size
  head : h.head ≡ b.addr
  next_b : h.mem (next_of b.addr) ≡ c.addr
  free_b : h.mem (free_of b.addr) ≡ 0
  size_b : h.mem (size_of b.addr) ≡ b.size
  magic_c : h.mem (magic_of c.addr) ≡ heap_magic
  size_c : h.mem (size_of c.addr) ≡ c.size
  free_c : h.mem (free_of c.addr) ≡ 0
  prev_c : h.mem (prev_of c.addr) ≡ b.addr
  next_c : h.mem (next_of c.addr) ≡ 0
  tail_c : h.mem (c.addr + 20 + c.size) ≡ heap_magic

facts : (h : Heap) (b c : Block) → TwoUsed h b c → Facts h b c
facts h b c t =
    let w = t.wf in
    let hc = w.chain.5 in
    record {
      start = w.at_start;
      lo = omega (arith, w.at_start, w.ordered.0);
      far = w.ordered.4.0;
      top = w.ordered.4.4;
      high = w.below;
      pos = w.ordered.4.2;
      head = w.chain.0;
      next_b = hc.0;
      free_b = w.chain.3 ∙ ap flag t.used_b;
      size_b = w.chain.2;
      magic_c = hc.1;
      size_c = hc.2;
      free_c = hc.3 ∙ ap flag t.used_c;
      prev_c = hc.4;
      next_c = hc.5;
      tail_c = t.tail;
    }

passes : (h : Heap) (b c : Block) → Facts h b c → check_block h c.addr ≡ none
unfolding check_block
passes h b c f = ground arith

release_last : (h : Heap) (b c : Block) → Facts h b c → release 3 c.addr h ≡ some (after_free h c)
unfolding release merge_next merge_prev mergeable trim walk_last
release_last h b c f = ground arith

free_last :
    (h : Heap) (b c : Block) → Facts h b c → kfree 3 (c.addr + 20) h ≡ some (none, after_free h c)
unfolding kfree
free_last h b c f =
    let e : sub32 (c.addr + 20) header_size ≡ c.addr = ground arith in
    let nz : (c.addr + 20 == 0) ≡ false = ground arith in
    ground (arith, nz, e, passes h b c f, release_last h b c f)

alloc_again :
    (h : Heap) (b c : Block) (size : ℕ)
    → Facts h b c
    → c.size < size
    → size ≤ align size
    → c.addr + 24 + align size < kernel_heap_end
    → kmalloc 3 size (after_free h c) ≡ some (c.addr + 20, after_alloc h c (align size))
unfolding kmalloc allocate search append_block
alloc_again h b c size f big rounded room =
    let fits_in : u32 (c.addr + 20 + align size + 4) ≡ c.addr + 24 + align size =
      omega (arith, f.lo) in
    ground (arith, rounded, fits_in)

-- The search goes round at `c`.
circles :
    (k size : ℕ) (m : Memory) (p : ℕ)
    → 0 < p
    → m (next_of p) ≡ p
    → m (free_of p) ≡ 0
    → search k m size p ≡ none
unfolding search
circles zero size m p pos loop used = refl
circles (suc k) size m p pos loop used = ground (arith, circles k size m p pos loop used)

search-none :
    (fuel s size : ℕ) (h : Heap) (b c : Block)
    → Facts h b c
    → c.addr + 24 + size < kernel_heap_end
    → search fuel (after_alloc h c size).mem s h.head ≡ none
unfolding search new_block
search-none zero s size h b c f room = refl
search-none (suc k) s size h b c f room =
    ground (arith, circles k s (after_alloc h c size).mem c.addr)

never_ends :
    (h : Heap) (b c : Block) (size fuel request : ℕ)
    → Facts h b c
    → 0 < request
    → c.addr + 24 + size + request + 32 ≤ kernel_heap_end
    → kmalloc fuel request (after_alloc h c size) ≡ none
unfolding kmalloc allocate
never_ends h b c size fuel request f pos fits_in =
    ground (arith, search-none fuel (align request) size h b c f)

-- Two blocks in use: `kfree` of the second succeeds and moves `heap_end` down to its header, but
-- leaves it in the list, behind the first. The next `kmalloc` of more than it held, with 32 bytes more
-- than the request left behind its header, puts the new block over it and makes it its own successor;
-- it returns an address. Every later request for which there is room loops for ever, since no amount
-- of fuel gives a result.
pub free_then_alloc-circular :
    (h : Heap) (b c : Block) (size : ℕ)
    → TwoUsed h b c
    → c.size < size
    → c.addr + 32 + size ≤ kernel_heap_end
    → (h1 : Heap) × (h2 : Heap) × (kfree 3 (c.addr + 20) h ≡ some (none, h1))
      × (h1.end ≡ c.addr)
      × (h1.mem (next_of b.addr) ≡ c.addr)
      × (kmalloc 3 size h1 ≡ some (c.addr + 20, h2))
      × (h2.mem (next_of c.addr) ≡ c.addr)
      × ((fuel request : ℕ)
          → 0 < request
          → h2.end + request + 32 ≤ kernel_heap_end
          → kmalloc fuel request h2 ≡ none)
free_then_alloc-circular h b c size t big room =
    let f = facts h b c t in
    let fits_in : c.addr + 24 + align size < kernel_heap_end = omega arith in
    (
      after_free h c,
      after_alloc h c (align size),
      free_last h b c f,
      refl,
      ground (arith, f.next_b, f.far),
      alloc_again h b c size f big (omega arith) fits_in,
      ground arith,
      λ fuel request pos enough. never_ends h b c (align size) fuel request f pos enough,
    )

oversize_run :
    (h : Heap) (b : Block)
    → Wf h (b ∷ [])
    → h.end ≡ kernel_heap_end - 20
    → h.mem (free_of b.addr) ≡ 0
    → kmalloc 1 (2 ^ 32 - 8) h
      ≡ some (
        kernel_heap_end,
        record h {
          mem = write (new_block h.end (2 ^ 32 - 8) 0 0 b.addr h.mem) (next_of b.addr) h.end;
          end = kernel_heap_end - 4;
        },
      )
unfolding kmalloc allocate search append_block
oversize_run h b w full free_b =
    let head : h.head ≡ b.addr = w.chain.0 in
    let next : h.mem (next_of b.addr) ≡ 0 = w.chain.5 in
    let low : kernel_heap_start ≤ b.addr = omega (arith, w.ordered.0, w.at_start) in
    let limit : sub32 (sub32 (sub32 kernel_heap_end h.end) header_size) 4 ≡ 2 ^ 32 - 4 =
      omega arith in
    ground (arith, limit)

-- With `heap_end` 20 bytes below the limit and one block, in use, that fills the heap, `kmalloc`
-- grants a request of 2 ^ 32 - 8 bytes, and the tail that it writes falls on the `next` word of
-- the new header.
pub kmalloc-oversize :
    (h : Heap) (b : Block)
    → Wf h (b ∷ [])
    → b.free ≡ false
    → h.end ≡ kernel_heap_end - 20
    → (h' : Heap) × (kmalloc 1 (2 ^ 32 - 8) h ≡ some (kernel_heap_end, h'))
      × (h'.mem (next_of (kernel_heap_end - 20)) ≡ heap_magic)
unfolding new_block
kmalloc-oversize h b w used full =
    let free_b : h.mem (free_of b.addr) ≡ 0 = w.chain.3 ∙ ap flag used in
    let m : Memory = write (new_block h.end (2 ^ 32 - 8) 0 0 b.addr h.mem) (next_of b.addr) h.end in
    (record h { mem = m; end = kernel_heap_end - 4 }, oversize_run h b w full free_b, ground arith)
