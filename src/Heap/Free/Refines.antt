-- ===== src/Heap/Free/Refines.antt =====
-- `kfree` of mm/heap.c and the deallocator on the block list.
use sometuffcoolpr.Prelude.{
  ℕ, ◌+◌, ◌^◌, ◌≤◌, ◌<◌, ◌≡◌, ◌≢◌, inl, inr, ◌∙◌, arith, ◌==◌, List, [], ◌∷◌, false, refl,
  Bool-cases, ==_self, Option, none, some, length, subst,
}
use sometuffcoolpr.Heap.{
  Heap, Report, kfree, release, trim, merge_next, merge_prev, heap_magic, kernel_heap_start, sub32,
  header_size, check_block,
}
use sometuffcoolpr.Heap.Blocks.{Block, Chain, Ordered, Wf, In}
use sometuffcoolpr.Heap.Free.{Chain-Header, Header, checked}
use sometuffcoolpr.Heap.Free.Trim.{LastUsed, trim-Settles, settle-Sound, settled-Wf}
use sometuffcoolpr.Heap.Free.Policy.{with_next, free_next, free_prev, dispose}
use sometuffcoolpr.Heap.Free.Next.{
  marked, free_next-Freed, mergeable_null, In-low, with_next-nil, with_next-free, with_next-used,
}
use sometuffcoolpr.Heap.Free.Prev.{FreeAt, Near, free_prev-Freed}

-- The merged blocks do not reach into what follows them, and a free block before the one
-- at `a` is near.
pub record Fits (a : ℕ) (bs : List Block) (hi : ℕ) : Type 0 where
  pub behind : Ordered kernel_heap_start (free_next a bs) hi
  pub both : Ordered kernel_heap_start (free_prev a (free_next a bs)) hi
  pub near : Near a (free_next a bs)

-- The heap after a `kfree` whose outcome on the lists is `o`.
pub record Frees (r : Option (Option Report × Heap)) (o : List Block × ℕ) : Type 0 where
  pub heap : Heap
  pub result : r ≡ some (none, heap)
  pub ends : heap.end ≡ o.1
  pub chain : Chain heap.mem 0 heap.head o.0
  pub wf : LastUsed o.0 → Wf heap o.0

with_next-FreeAt : (b : Block) (bs : List Block) → FreeAt b.addr (with_next b bs)
with_next-FreeAt b [] = rw (with_next-nil b) (inl (refl, refl))
with_next-FreeAt b (n ∷ ns) = elim (Bool-cases n.free) [
  | inl free ↦ rw (with_next-free b n ns free) (inl (refl, refl))
  | inr used ↦ rw (with_next-used b n ns used) (inl (refl, refl))
]

free_next-FreeAt :
    (bs : List Block) (c : Block) (lo hi : ℕ)
    → Ordered lo bs hi
    → In c bs
    → FreeAt c.addr (free_next c.addr bs)
unfolding free_next
free_next-FreeAt [] c lo hi o i = absurd i
free_next-FreeAt (b ∷ bs) c lo hi o (inl e) = rw (e, ==_self b.addr) (with_next-FreeAt b bs)
free_next-FreeAt (b ∷ bs) c lo hi o (inr i) =
    let far = In-low bs c (b.addr + 20 + b.size) hi o.4 i in
    let other : (b.addr == c.addr) ≡ false = ground arith in
    rw other (inr (λ e. omega arith, free_next-FreeAt bs c (b.addr + 20 + b.size) hi o.4 i))

length-free_next : (a : ℕ) (bs : List Block) → length (free_next a bs) ≤ length bs
unfolding free_next with_next
length-free_next a [] = omega arith
length-free_next a (b ∷ []) = ground arith
length-free_next a (b ∷ n ∷ ns) = ground (arith, length-free_next a (n ∷ ns))

length-free_prev : (a : ℕ) (bs : List Block) → length (free_prev a bs) ≤ length bs
unfolding free_prev with_next
length-free_prev a [] = omega arith
length-free_prev a (b ∷ []) = ground arith
length-free_prev a (b ∷ n ∷ ns) = ground (arith, length-free_prev a (n ∷ ns))

free_prev-cons : (a : ℕ) (bs : List Block) → FreeAt a bs → free_prev a bs ≢ []
unfolding free_prev with_next
free_prev-cons a [] f = absurd f
free_prev-cons a (b ∷ []) f = λ e. ground arith
free_prev-cons a (b ∷ n ∷ ns) f = λ e. ground arith

kfree-released :
    (fuel a : ℕ) (h h' : Heap)
    → a + 20 < 2 ^ 32
    → check_block h a ≡ none
    → release fuel a h ≡ some h'
    → kfree fuel (a + 20) h ≡ some (none, h')
unfolding kfree
kfree-released fuel a h h' top let_through done =
    let e : sub32 (a + 20) header_size ≡ a = omega arith in
    let nz : (a + 20 == 0) ≡ false = ground arith in ground (arith, e, nz, let_through, done)

-- On a well-formed heap, `kfree` of a block in use whose tail is in place, where no merged block
-- reaches into what follows it and a free block before it is near, with fuel for the list: it ends
-- without a message, the links lead through the blocks that the deallocator on the list leaves, with
-- its end, and the heap is well formed if the last of them is in use.
pub kfree-Refines :
    (fuel : ℕ) (h : Heap) (bs : List Block) (c : Block)
    → Wf h bs
    → In c bs
    → c.free ≡ false
    → h.mem (c.addr + 20 + c.size) ≡ heap_magic
    → Fits c.addr bs h.end
    → length bs < fuel
    → Frees (kfree fuel (c.addr + 20) h) (dispose c.addr bs h.end)
unfolding release
kfree-Refines fuel h bs c w i used tail fit enough =
    let k =
      subst (λ (x : ℕ). Header h.mem c x h.end) w.at_start
        (Chain-Header bs c h.mem 0 h.head h.start h.end w.chain w.ordered i) in
    let m1 = merge_next h c.addr (marked c.addr h.mem) in
    let m2 = merge_prev h c.addr m1 in
    let start = w.at_start in
    let behind : Ordered h.start (free_next c.addr bs) h.end = rw start fit.behind in
    let both : Ordered h.start (free_prev c.addr (free_next c.addr bs)) h.end = rw start fit.both in
    let f = free_next-FreeAt bs c h.start h.end w.ordered i in
    let g1 =
      free_next-Freed h start w.below bs c 0 h.head h.start h.mem (omega arith) w.chain w.ordered i
        behind in
    let g2 =
      free_prev-Freed h start w.below (free_next c.addr bs) c.addr 0 h.head h.start m1 (omega arith)
        g1.chain behind f fit.near both (λ e. mergeable_null h m1) in
    let h2 : Heap = record h { mem = m2 } in
    let freed = free_prev c.addr (free_next c.addr bs) in
    let s =
      trim-Settles freed fuel h2 kernel_heap_start h.end start (omega arith) g2.chain fit.both (
        omega (arith, length-free_prev c.addr (free_next c.addr bs), length-free_next c.addr bs)) in
    record {
      heap = s.heap;
      result =
          kfree-released fuel c.addr h s.heap (omega (arith, k.high, w.below))
            (checked h c k start w.below tail ∙ rw used refl) s.result;
      ends = s.ends;
      chain = s.chain;
      wf = λ last. settled-Wf (dispose c.addr bs h.end) (trim fuel h2) h2 s start (
          settle-Sound freed h.end w.below w.aligned fit.both
            (free_prev-cons c.addr (free_next c.addr bs) f) last);
    }
