-- ===== src/Heap/Validate.antt =====
-- `heap_validate` and `heap_dump` of mm/heap.c on a well-formed heap.
use mathlib.Core.List.{append_assoc, map}
use native.Mathlib.Nat.{le_refl}
use sometuffcoolpr.Prelude.{
  ℕ, zero, suc, ◌+◌, ◌≤◌, ◌<◌, ◌≡◌, ◌≢◌, sym, subst, Bool, false, not, none, some, List, [], ◌∷◌,
  ◌++◌, arith, ◌==◌, length, ==_ne,
}
use sometuffcoolpr.Prelude.Memory.{Memory}
use sometuffcoolpr.Heap.{
  Heap, structure_valid, heap_validate, has_cycle, validate_from, validate_block, heap_dump, dump,
  kernel_heap_end, free_of, next_of, prev_of,
}
use sometuffcoolpr.Heap.Blocks.{Block, Chain, Ordered, Wf, lo-le-hi}

abbrev pub line : Block → ℕ × ℕ × Bool
line b = (b.addr, b.size, b.free)

dump-Chain :
    (k : ℕ) (bs : List Block) (m : Memory) (prev p lo hi : ℕ)
    → 0 < lo
    → Chain m prev p bs
    → Ordered lo bs hi
    → length bs < k
    → dump k m p ≡ some (map line bs)
unfolding dump
dump-Chain zero bs m prev p lo hi low c o fuel = absurd (omega arith)
dump-Chain (suc k) [] m prev p lo hi low c o fuel = ground arith
dump-Chain (suc k) (b ∷ bs) m prev p lo hi low c o fuel =
    let rest =
      dump-Chain k bs m b.addr (m (next_of b.addr)) (b.addr + 20 + b.size) hi (omega arith) c.5 o.4
        (omega arith) in
    let nz : (b.addr == 0) ≡ false = ground arith in
    let f : not (m (free_of b.addr) == 0) ≡ b.free = ground arith in
    subst (λ (x : ℕ). dump (suc k) m x ≡ some (map line (b ∷ bs))) (sym c.0)
      (rw (nz, rest, dump) (rw (c.2, f)))

-- `heap_dump` lists exactly the blocks of a well-formed heap, in order.
pub heap_dump-line :
    (fuel : ℕ) (h : Heap) (bs : List Block)
    → Wf h bs
    → length bs < fuel
    → heap_dump fuel h ≡ some (map line bs)
unfolding heap_dump
heap_dump-line fuel h bs w enough =
    dump-Chain fuel bs h.mem 0 h.head h.start h.end (omega (arith, w.at_start)) w.chain w.ordered
      enough

front-lt :
    (ws ys : List Block) (w y : Block) (lo hi : ℕ)
    → Ordered lo ((w ∷ ws) ++ (y ∷ ys)) hi
    → w.addr < y.addr
front-lt [] ys w y lo hi o = omega (arith, o.4.0)
front-lt (v ∷ ws) ys w y lo hi o =
    omega (arith, o.4.0, front-lt ws ys v y (w.addr + 20 + w.size) hi o.4)

-- The slow pointer is behind the fast one, on the same chain.
record Race (m : Memory) (slow fast : ℕ) (zs ys : List Block) : Type 0 where
  q : ℕ
  q' : ℕ
  lo : ℕ
  lo' : ℕ
  hi : ℕ
  low : 0 < lo
  low' : 0 < lo'
  chain : Chain m q slow (zs ++ ys)
  ordered : Ordered lo (zs ++ ys) hi
  chain' : Chain m q' fast ys
  ordered' : Ordered lo' ys hi

apart :
    (m : Memory) (slow fast : ℕ) (w : Block) (ws ys : List Block)
    → Race m slow fast (w ∷ ws) ys
    → slow ≢ fast
apart m slow fast w ws [] r = omega (arith, r.chain.0, r.ordered.0, r.low, r.chain')
apart m slow fast w ws (y ∷ ys) r =
    omega (arith, r.chain.0, r.chain'.0, front-lt ws ys w y r.lo r.hi r.ordered)

-- One round of the loop.
round :
    (m : Memory) (slow fast : ℕ) (zs ys : List Block) (y y2 : Block)
    → Race m slow fast zs (y ∷ y2 ∷ ys)
    → (w : Block) × (ws : List Block) × Race m
        (m (next_of slow))
        (m (next_of (m (next_of fast))))
        (w ∷ ws)
        ys
round m slow fast [] ys y y2 r = (
  y2,
  [],
  record {
    q = y.addr;
    q' = y2.addr;
    lo = y.addr + 20 + y.size;
    lo' = y2.addr + 20 + y2.size;
    hi = r.hi;
    low = omega arith;
    low' = omega arith;
    chain = rw r.chain.0 r.chain.5;
    ordered = r.ordered.4;
    chain' = rw (r.chain'.0, r.chain'.5.0) r.chain'.5.5;
    ordered' = r.ordered'.4.4;
  },
)
round m slow fast (z ∷ []) ys y y2 r = (
  y,
  y2 ∷ [],
  record {
    q = z.addr;
    q' = y2.addr;
    lo = z.addr + 20 + z.size;
    lo' = y2.addr + 20 + y2.size;
    hi = r.hi;
    low = omega arith;
    low' = omega arith;
    chain = rw r.chain.0 r.chain.5;
    ordered = r.ordered.4;
    chain' = rw (r.chain'.0, r.chain'.5.0) r.chain'.5.5;
    ordered' = r.ordered'.4.4;
  },
)
round m slow fast (z ∷ v ∷ zs) ys y y2 r =
    let e : zs ++ (y ∷ y2 ∷ ys) ≡ (zs ++ (y ∷ y2 ∷ [])) ++ ys =
      sym (append_assoc zs (y ∷ y2 ∷ []) ys) in
    (
      v,
      zs ++ (y ∷ y2 ∷ []),
      record {
        q = z.addr;
        q' = y2.addr;
        lo = z.addr + 20 + z.size;
        lo' = y2.addr + 20 + y2.size;
        hi = r.hi;
        low = omega arith;
        low' = omega arith;
        chain =
            subst (λ (us : List Block). Chain m z.addr (m (next_of slow)) (v ∷ us)) e
              (rw r.chain.0 r.chain.5);
        ordered =
            subst (λ (us : List Block). Ordered (z.addr + 20 + z.size) (v ∷ us) r.hi) e r.ordered.4;
        chain' = rw (r.chain'.0, r.chain'.5.0) r.chain'.5.5;
        ordered' = r.ordered'.4.4;
      },
    )

no_cycle :
    (k : ℕ) (m : Memory) (slow fast : ℕ) (zs ys : List Block)
    → Race m slow fast zs ys
    → length ys < k
    → has_cycle k m slow fast ≡ some false
unfolding has_cycle
no_cycle zero m slow fast zs ys r fuel = absurd (omega arith)
no_cycle (suc k) m slow fast zs [] r fuel = ground (arith, r.chain')
no_cycle (suc k) m slow fast zs (y ∷ []) r fuel =
    let e : m (next_of fast) ≡ 0 = rw r.chain'.0 r.chain'.5 in ground (arith, e)
no_cycle (suc k) m slow fast zs (y ∷ y2 ∷ ys) r fuel =
    let (w, ws, r') = round m slow fast zs ys y y2 r in
    let live : (fast == 0) ≡ false = ground (arith, r.chain'.0, r.ordered'.0, r.low') in
    let e : m (next_of fast) ≡ y2.addr = rw r.chain'.0 r.chain'.5.0 in
    let live' : (m (next_of fast) == 0) ≡ false = ground (arith, e, r.ordered'.4.0) in
    let ne = apart m (m (next_of slow)) (m (next_of (m (next_of fast)))) w ws ys r' in
    rw (live, live', ==_ne _ _ ne)
      (no_cycle k m (m (next_of slow)) (m (next_of (m (next_of fast)))) (w ∷ ws) ys r'
        (omega arith))

-- No check of the walk fails.
passes :
    (h : Heap) (b : Block) (bs : List Block) (prev p lo hi : ℕ)
    → Chain h.mem prev p (b ∷ bs)
    → Ordered lo (b ∷ bs) hi
    → hi ≤ h.end
    → h.end ≤ kernel_heap_end
    → h.start ≤ lo
    → validate_block h p ≡ none
unfolding validate_block
passes h b [] prev p lo hi c o top high low =
    subst (λ (x : ℕ). validate_block h x ≡ none) (sym c.0)
      (let last = c.5 in let fits_in : b.addr + 20 + b.size ≤ hi = o.4 in ground arith)
passes h b (b' ∷ bs) prev p lo hi c o top high low =
    subst (λ (x : ℕ). validate_block h x ≡ none) (sym c.0)
      (let e = c.5.0 in
        let back : h.mem (prev_of (h.mem (next_of b.addr))) ≡ b.addr = rw c.5.0 c.5.4 in
        let inside = lo-le-hi (b' ∷ bs) (b.addr + 20 + b.size) hi o.4 in
        ground (arith, e, back, c.1, c.2))

validate_from-Chain :
    (k : ℕ) (h : Heap) (bs : List Block) (prev p lo : ℕ)
    → Chain h.mem prev p bs
    → Ordered lo bs h.end
    → 0 < lo
    → h.start ≤ lo
    → h.end ≤ kernel_heap_end
    → length bs < k
    → validate_from k h p ≡ some structure_valid
unfolding validate_from
validate_from-Chain zero h bs prev p lo c o low start high fuel = absurd (omega arith)
validate_from-Chain (suc k) h [] prev p lo c o low start high fuel = ground (arith, c)
validate_from-Chain (suc k) h (b ∷ bs) prev p lo c o low start high fuel =
    let nz : (p == 0) ≡ false = ground (arith, c.0, o.0) in
    let e : h.mem (next_of p) ≡ h.mem (next_of b.addr) = rw c.0 in
    rw (nz, passes h b bs prev p lo h.end c o (le_refl h.end) high start, validate_from)
      (validate_from-Chain k h bs b.addr (h.mem (next_of p)) (b.addr + 20 + b.size) (rw e c.5) o.4
        (omega arith) (omega (arith, o.0)) high (omega arith))

-- `heap_validate` ends on every well-formed heap, with fuel for the list, and reports it valid: no
-- false alarm.
pub heap_validate-Wf :
    (fuel : ℕ) (h : Heap) (bs : List Block)
    → Wf h bs
    → length bs < fuel
    → heap_validate fuel h ≡ some structure_valid
unfolding heap_validate
heap_validate-Wf fuel h bs w enough =
    let low : 0 < h.start = omega (arith, w.at_start) in
    let race : Race h.mem h.head h.head [] bs = record {
      q = 0;
      q' = 0;
      lo = h.start;
      lo' = h.start;
      hi = h.end;
      low = low;
      low' = low;
      chain = w.chain;
      ordered = w.ordered;
      chain' = w.chain;
      ordered' = w.ordered;
    } in
    rw (no_cycle fuel h.mem h.head h.head [] bs race enough, heap_validate)
      (validate_from-Chain fuel h bs 0 h.head h.start w.chain w.ordered low (le_refl h.start)
        w.below enough)
