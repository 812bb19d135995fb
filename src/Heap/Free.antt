-- ===== src/Heap/Free.antt =====
-- `kfree` of mm/heap.c: what it refuses, on a well-formed heap.
pub mod Policy
mod Merge
mod Next
mod Prev
mod Trim
pub mod Refines
pub mod Restore
pub mod Taking
use sometuffcoolpr.Prelude.{
  ℕ, ◌+◌, ◌≤◌, ◌<◌, ◌≡◌, inl, inr, sym, subst, true, false, none, some, List, [], ◌∷◌, arith, ◌==◌,
  if◌then◌else◌, Option-cases,
}
use sometuffcoolpr.Prelude.Memory.{Memory}
use sometuffcoolpr.Heap.{
  Heap, Report, double_free, kfree, heap_magic, kernel_heap_end, kernel_heap_start, magic_of,
  size_of, free_of, next_of, tail_of, sub32, header_size, check_block,
}
use sometuffcoolpr.Heap.Blocks.{Block, flag, Chain, Ordered, Wf, lo-le-hi, In}

-- What the header of a block in the list says, and where it lies.
pub record Header (m : Memory) (b : Block) (lo hi : ℕ) : Type 0 where
  pub magic : m (magic_of b.addr) ≡ heap_magic
  pub size : m (size_of b.addr) ≡ b.size
  pub free : m (free_of b.addr) ≡ flag b.free
  pub low : lo ≤ b.addr
  pub high : b.addr + 20 + b.size ≤ hi
  pub positive : 0 < b.size

pub Chain-Header :
    (bs : List Block) (c : Block) (m : Memory) (prev p lo hi : ℕ)
    → Chain m prev p bs
    → Ordered lo bs hi
    → In c bs
    → Header m c lo hi
Chain-Header [] c m prev p lo hi ch o i = absurd i
Chain-Header (b ∷ bs) c m prev p lo hi ch o (inl e) =
    subst (λ (x : Block). Header m x lo hi) (sym e)
      (record {
        magic = ch.1;
        size = ch.2;
        free = ch.3;
        low = o.0;
        high = lo-le-hi bs (b.addr + 20 + b.size) hi o.4;
        positive = o.2;
      })
Chain-Header (b ∷ bs) c m prev p lo hi ch o (inr i) =
    let h = Chain-Header bs c m b.addr (m (next_of b.addr)) (b.addr + 20 + b.size) hi ch.5 o.4 i in
    record {
      magic = h.magic;
      size = h.size;
      free = h.free;
      low = omega (arith, h.low, o.0);
      high = h.high;
      positive = h.positive;
    }

pub checked :
    (h : Heap) (c : Block)
    → Header h.mem c kernel_heap_start h.end
    → h.start ≡ kernel_heap_start
    → h.end ≤ kernel_heap_end
    → h.mem (c.addr + 20 + c.size) ≡ heap_magic
    → check_block h c.addr ≡ (if c.free then some double_free else none)
unfolding check_block
checked h c k start high tail =
    let t : tail_of c.addr (h.mem (size_of c.addr)) ≡ c.addr + 20 + c.size =
      omega (arith, k.high, k.size) in
    ground (arith, t)

-- On a well-formed heap, `kfree` of a block of the list that is already free, its tail word in
-- place, reports a double free and changes nothing.
pub kfree-double_free :
    (fuel : ℕ) (h : Heap) (bs : List Block) (c : Block)
    → Wf h bs
    → In c bs
    → c.free ≡ true
    → h.mem (c.addr + 20 + c.size) ≡ heap_magic
    → kfree fuel (c.addr + 20) h ≡ some (some double_free, h)
unfolding kfree
kfree-double_free fuel h bs c w i free tail =
    let k =
      subst (λ (x : ℕ). Header h.mem c x h.end) w.at_start
        (Chain-Header bs c h.mem 0 h.head h.start h.end w.chain w.ordered i) in
    let e : sub32 (c.addr + 20) header_size ≡ c.addr = omega (arith, k.high, w.below, k.low) in
    let nz : (c.addr + 20 == 0) ≡ false = ground arith in
    ground (arith, e, nz, checked h c k w.at_start w.below tail)

-- Whatever the heap, when `kfree` prints a message it has changed nothing.
pub kfree-report :
    (fuel ptr : ℕ) (h h' : Heap) (r : Report) → kfree fuel ptr h ≡ some (some r, h') → h' ≡ h
unfolding kfree
kfree-report fuel ptr h h' r e =
    ground (arith, Option-cases (check_block h (sub32 ptr header_size)))
