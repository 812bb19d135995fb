-- ===== src/Heap/Blocks.antt =====
-- The block list of mm/heap.c as a list, and the first-fit allocator on it that `kmalloc` meets.
use sometuffcoolpr.Prelude.{
  ℕ, ◌+◌, ◌-◌, ◌%◌, ◌≤◌, ◌<◌, ◌≡◌, ◌≢◌, ◌⊎◌, ◌∙◌, ap, sym, Bool, true, false, ◌&&◌, Option, none,
  some, List, [], ◌∷◌, leb, if◌then◌else◌, arith,
}
use sometuffcoolpr.Prelude.Memory.{Memory}
use sometuffcoolpr.Heap.{
  Heap, heap_magic, header_size, magic_of, size_of, free_of, next_of, prev_of, kernel_heap_start,
  kernel_heap_end,
}

pub record Block : Type 0 where
  pub addr : ℕ
  pub size : ℕ
  pub free : Bool

abbrev pub block : ℕ → ℕ → Bool → Block
block a s f = record { addr = a; size = s; free = f }

abbrev pub flag : Bool → ℕ
flag true = 1
flag false = 0

-- From `p`, reached from `prev`, the links lead through exactly these blocks, each with its magic
-- value, size, flag and back link.
abbrev pub Chain : Memory → ℕ → ℕ → List Block → Type 0
Chain m prev p [] = p ≡ 0
Chain m prev p (b ∷ bs) =
    (p ≡ b.addr)
    × (m (magic_of b.addr) ≡ heap_magic)
    × (m (size_of b.addr) ≡ b.size)
    × (m (free_of b.addr) ≡ flag b.free)
    × (m (prev_of b.addr) ≡ prev)
    × Chain m b.addr (m (next_of b.addr)) bs

-- The blocks lie in address order between `lo` and `hi`, none reaching into the next, each at
-- a word address, with a size that is a positive multiple of eight.
abbrev pub Ordered : ℕ → List Block → ℕ → Type 0
Ordered lo [] hi = lo ≤ hi
Ordered lo (b ∷ bs) hi =
    (lo ≤ b.addr)
    × (b.addr % 4 ≡ 0)
    × (0 < b.size)
    × (b.size % 8 ≡ 0)
    × Ordered (b.addr + header_size + b.size) bs hi

pub lo-le-hi : (bs : List Block) (lo hi : ℕ) → Ordered lo bs hi → lo ≤ hi
lo-le-hi [] lo hi h = h
lo-le-hi (b ∷ bs) lo hi h = omega (arith, lo-le-hi bs (b.addr + header_size + b.size) hi h.4)

-- `heap_start` is fixed, `heap_end` is a word address in range, and the list fills the heap between.
pub record Wf (h : Heap) (bs : List Block) : Type 0 where
  pub at_start : h.start ≡ kernel_heap_start
  pub below : h.end ≤ kernel_heap_end
  pub aligned : h.end % 4 ≡ 0
  pub chain : Chain h.mem 0 h.head bs
  pub ordered : Ordered h.start bs h.end
  pub reset : bs ≡ [] → h.end ≡ h.start

-- The words of a header.
abbrev pub SameHeader : ℕ → Memory → Memory → Type 0
SameHeader b m m' = (a : ℕ) → b ≤ a → a < b + header_size → m' a ≡ m a

-- A change outside the blocks' area keeps the chain.
pub Chain-frame :
    (bs : List Block) (m m' : Memory) (prev p lo hi : ℕ)
    → Ordered lo bs hi
    → ((a : ℕ) → lo ≤ a → a < hi → m' a ≡ m a)
    → Chain m prev p bs
    → Chain m' prev p bs
Chain-frame [] m m' prev p lo hi o same c = c
Chain-frame (b ∷ bs) m m' prev p lo hi o same c =
    let top : b.addr + header_size + b.size ≤ hi =
      lo-le-hi bs (b.addr + header_size + b.size) hi o.4 in
    let e : m' (next_of b.addr) ≡ m (next_of b.addr) =
      same (next_of b.addr) (omega arith) (omega arith) in
    (
      c.0,
      same (magic_of b.addr) (omega arith) (omega arith) ∙ c.1,
      same (size_of b.addr) (omega arith) (omega arith) ∙ c.2,
      same (free_of b.addr) (omega arith) (omega arith) ∙ c.3,
      same (prev_of b.addr) (omega arith) (omega arith) ∙ c.4,
      rw e (
          Chain-frame bs m m' b.addr (m (next_of b.addr)) (b.addr + header_size + b.size) hi o.4
            (λ a l r. same a (omega arith) r) c.5),
    )

-- The same for the tail of a list whose first block gets another back link.
pub Chain-relink :
    (bs : List Block) (m m' : Memory) (prev prev' p lo hi : ℕ)
    → 0 < lo
    → Ordered lo bs hi
    → ((a : ℕ) → lo ≤ a → a < hi → a ≢ prev_of p → m' a ≡ m a)
    → (p ≢ 0 → m' (prev_of p) ≡ prev')
    → Chain m prev p bs
    → Chain m' prev' p bs
Chain-relink [] m m' prev prev' p lo hi pos o same back c = c
Chain-relink (b ∷ bs) m m' prev prev' p lo hi pos o same back c =
    let top : b.addr + header_size + b.size ≤ hi =
      lo-le-hi bs (b.addr + header_size + b.size) hi o.4 in
    let e : m' (next_of b.addr) ≡ m (next_of b.addr) =
      same (next_of b.addr) (omega arith) (omega arith) (omega (arith, c.0)) in
    (
      c.0,
      same (magic_of b.addr) (omega arith) (omega arith) (omega (arith, c.0)) ∙ c.1,
      same (size_of b.addr) (omega arith) (omega arith) (omega (arith, c.0)) ∙ c.2,
      same (free_of b.addr) (omega arith) (omega arith) (omega (arith, c.0)) ∙ c.3,
      ap (λ x. m' (prev_of x)) (sym c.0) ∙ back (omega (arith, c.0)),
      rw e (
          Chain-frame bs m m' b.addr (m (next_of b.addr)) (b.addr + header_size + b.size) hi o.4
            (λ a l r. same a (omega arith) r (omega (arith, c.0))) c.5),
    )

-- The abstract allocator: the first free block that is large enough, cut if the rest can hold a
-- header, a tail and `min_block_size` bytes. The address is that of the block's payload.
unfoldable pub fit : ℕ → Block → List Block → List Block
fit size b bs =
    if leb (size + 32) b.size
    then block b.addr size false ∷ block (b.addr + 20 + size) (b.size - size - 24) true ∷ bs
    else block b.addr b.size false ∷ bs

unfoldable pub first_fit : ℕ → List Block → Option (ℕ × List Block)
unfolding fit
first_fit size [] = none
first_fit size (b ∷ bs) =
    let rest = first_fit size bs in
    if b.free && leb size b.size
    then some (b.addr + 20, fit size b bs)
    else elim rest [ none ↦ none | some (p, bs') ↦ some (p, b ∷ bs') ]

abbrev pub In : Block → List Block → Type 0
In c [] = ⊥
In c (b ∷ bs) = (c ≡ b) ⊎ In c bs
