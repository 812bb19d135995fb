-- ===== src/Heap/Free/Restore.antt =====
-- `kfree` of mm/heap.c takes back what `kmalloc` took from a free block.
use sometuffcoolpr.Heap.Free.Taking.{Coalesced, first_fit-Taken}
use sometuffcoolpr.Prelude.{
  ℕ, ◌+◌, ◌-◌, ◌*◌, ◌/◌, ◌^◌, ◌≤◌, ◌<◌, ◌≡◌, inl, inr, ◌∙◌, ap, arith, List, [], ◌∷◌, true, false,
  refl, Bool, none, some, length, subst, sym,
}
use sometuffcoolpr.Heap.{Heap, kmalloc, kfree, heap_magic, kernel_heap_start}
use sometuffcoolpr.Heap.Blocks.{Block, Ordered, Wf, In, first_fit}
use sometuffcoolpr.Heap.Alloc.{kmalloc-Refines}
use sometuffcoolpr.Heap.Alloc.Policy.{Outcome, request, serve, largest}
use sometuffcoolpr.Heap.Free.Trim.{LastUsed, settle-LastUsed}
use sometuffcoolpr.Heap.Free.Refines.{Fits, Frees, kfree-Refines}
use sometuffcoolpr.Heap.Free.Policy.{with_next, free_next, free_prev, settle}
use sometuffcoolpr.Heap.Free.Prev.{FreeAt, Near, free_prev-here, free_prev-apart, free_prev-later}

not_both : (x y : Bool) → (x ≡ true → y ≡ false) → y ≡ true → x ≡ false
not_both true y h free = absurd (ground (arith, h refl))
not_both false y h free = refl

free_prev-Coalesced : (a : ℕ) (bs : List Block) → Coalesced bs → FreeAt a bs → free_prev a bs ≡ bs
free_prev-Coalesced a [] c f = absurd f
free_prev-Coalesced a (b ∷ bs) c (inl (e, free)) = free_prev-here a b bs e
free_prev-Coalesced a (b ∷ []) c (inr (ne, f)) = absurd f
free_prev-Coalesced a (b ∷ n ∷ ns) c (inr (ne, inl (e, free))) =
    free_prev-apart a b n ns ne e (not_both b.free n.free c.0 free)
free_prev-Coalesced a (b ∷ n ∷ ns) c (inr (ne, inr (far, f))) =
    free_prev-later a b n ns ne far
    ∙ ap (λ l. b ∷ l) (free_prev-Coalesced a (n ∷ ns) c.1 (inr (far, f)))

Near-above : (a lo hi : ℕ) (bs : List Block) → Ordered lo bs hi → a < lo → Near a bs
Near-above a lo hi [] o h = tt
Near-above a lo hi (b ∷ []) o h = tt
Near-above a lo hi (b ∷ n ∷ ns) o h = (
  (λ e free. absurd (omega (arith, o.0, o.4.0))),
  Near-above a (b.addr + 20 + b.size) hi (n ∷ ns) o.4 (omega (arith, o.0)),
)

Coalesced-Near :
    (a lo hi : ℕ) (bs : List Block) → Coalesced bs → FreeAt a bs → Ordered lo bs hi → Near a bs
Coalesced-Near a lo hi [] c f o = tt
Coalesced-Near a lo hi (b ∷ []) c f o = tt
Coalesced-Near a lo hi (b ∷ n ∷ ns) c (inl (e, free)) o =
    ((λ same taken. omega arith), Near-above a (b.addr + 20 + b.size) hi (n ∷ ns) o.4 (omega arith))
Coalesced-Near a lo hi (b ∷ n ∷ ns) c (inr (ne, f)) o = (
  (λ same taken. absurd (apart f same taken)),
  Coalesced-Near a (b.addr + 20 + b.size) hi (n ∷ ns) c.1 f o.4,
)
  where
    apart : FreeAt a (n ∷ ns) → n.addr ≡ a → b.free ≡ true → ⊥
    apart (inl (e, free)) same taken = ground (arith, c.0 taken)
    apart (inr (far, g)) same taken = far same

length-free_next : (a : ℕ) (bs : List Block) → length bs ≤ length (free_next a bs) + 1
unfolding free_next with_next
length-free_next a [] = omega arith
length-free_next a (b ∷ []) = ground arith
length-free_next a (b ∷ n ∷ ns) = ground (arith, length-free_next a (n ∷ ns))

abbrev round_up : ℕ → ℕ
round_up size = (size + 7) / 8 * 8

request-first_fit :
    (size p end : ℕ) (bs bs' : List Block)
    → 0 < size
    → size ≤ 2 ^ 32 - 32
    → round_up size ≤ largest end
    → first_fit (round_up size) bs ≡ some (p, bs')
    → request size bs end ≡ (p, bs', end)
unfolding request serve
request-first_fit size p end bs bs' pos small fits_limit e = ground (arith, e)

first_fit-restored :
    (size a lo hi : ℕ) (bs bs' : List Block)
    → Coalesced bs
    → Ordered lo bs hi
    → first_fit size bs ≡ some (a + 20, bs')
    → (free_next a bs' ≡ bs) × FreeAt a bs
first_fit-restored size a lo hi bs bs' c o e = elim (first_fit-Taken size lo hi bs c o) [
  | inl no_block ↦ absurd (ground (arith, no_block, e))
  | inr t ↦
      let same_at : t.at ≡ a = ground (arith, t.found, e) in
      let same_list : t.list ≡ bs' = cc (t.found, e) in
      (rw (sym same_at, sym same_list) t.restored, rw (sym same_at) t.free)
]

-- The block at `a`, freed on a list in which it was taken from a free block of `bs`.
kfree-restored :
    (fuel size : ℕ) (h : Heap) (bs bs' : List Block) (c : Block)
    → Coalesced bs
    → LastUsed bs
    → Ordered kernel_heap_start bs h.end
    → length bs + 1 < fuel
    → first_fit size bs ≡ some (c.addr + 20, bs')
    → Wf h bs'
    → In c bs'
    → c.free ≡ false
    → h.mem (c.addr + 20 + c.size) ≡ heap_magic
    → Frees (kfree fuel (c.addr + 20) h) (bs, h.end)
kfree-restored fuel size h bs bs' c apart last o enough served w i used tail =
    let a = c.addr in
    let (back, free) = first_fit-restored size a kernel_heap_start h.end bs bs' apart o served in
    let both : free_prev a (free_next a bs') ≡ bs =
      ap (free_prev a) back ∙ free_prev-Coalesced a bs apart free in
    let fit : Fits a bs' h.end = record {
      behind = rw back o;
      both = rw both o;
      near = rw back (Coalesced-Near a kernel_heap_start h.end bs apart free o);
    } in
    let short : length bs' < fuel = omega (arith, length-free_next a bs', ap length back) in
    subst (Frees (kfree fuel (a + 20) h))
      (ap (λ l. settle l h.end) both ∙ settle-LastUsed bs h.end last)
      (kfree-Refines fuel h bs' c w i used tail fit short)

-- On a well-formed heap without free neighbours and with its last block in use, for a positive size
-- up to 2 ^ 32 - 32 bytes that `kmalloc` tries and that a free block serves, `kmalloc` with fuel for
-- the list returns the payload of that block. On any heap with the list and the end that it leaves,
-- such as when the client has written the payload, `kfree` of the block in use at that address, its
-- tail in place, restores the list and the end, and the heap is well formed.
pub kmalloc-kfree :
    (fuel size p : ℕ) (h h' : Heap) (bs bs' : List Block) (c : Block)
    → Wf h bs
    → Coalesced bs
    → LastUsed bs
    → length bs + 1 < fuel
    → 0 < size
    → size ≤ 2 ^ 32 - 32
    → round_up size ≤ largest h.end
    → first_fit (round_up size) bs ≡ some (p, bs')
    → Wf h' bs'
    → h'.end ≡ h.end
    → In c bs'
    → c.free ≡ false
    → c.addr + 20 ≡ p
    → h'.mem (p + c.size) ≡ heap_magic
    → (g : Heap) × (g' : Heap) × (kmalloc fuel size h ≡ some (p, g))
      × Wf g bs'
      × (g.end ≡ h.end)
      × (kfree fuel p h' ≡ some (none, g'))
      × Wf g' bs
      × (g'.end ≡ h.end)
kmalloc-kfree fuel size p h h' bs bs' c w apart last enough pos small fits_limit served w' ends i
      used here tail =
    let r = kmalloc-Refines fuel size h bs small w (omega arith) in
    let q = request-first_fit size p h.end bs bs' pos small fits_limit served in
    let o : Ordered kernel_heap_start bs h'.end = rw (ends, sym w.at_start) w.ordered in
    let k =
      kfree-restored fuel (round_up size) h' bs bs' c apart last o enough (rw here served) w' i used
        (rw here tail) in
    (
      r.heap,
      k.heap,
      r.result ∙ ap (λ (x : Outcome). some (x.0, r.heap)) q,
      subst (Wf r.heap) (ap (λ (x : Outcome). x.1) q) r.wf,
      r.ends ∙ ap (λ (x : Outcome). x.2) q,
      ap (λ x. kfree fuel x h') (sym here) ∙ k.result,
      k.wf last,
      k.ends ∙ ends,
    )
