-- ===== src/Fs/Ramfs/Content.antt =====
-- What `ramfs_write` leaves in a file and `ramfs_read` returns of it.
use sometuffcoolpr.Prelude.{
  ℕ, ◌+◌, ◌^◌, ◌≤◌, ◌<◌, ◌≡◌, ◌≢◌, refl, false, arith, ltb, leb, ◌==◌, if◌then◌else◌, Bool-cases,
  inl, inr, ==_ne, sym, ◌-◌, zero, suc, ◌∙◌, ap, List, [], ◌∷◌, ◌++◌, length, get_or, length-append,
}
use native.Mathlib.Nat.{zero-add, suc-add}
use sometuffcoolpr.Prelude.Memory.{Memory}
use sometuffcoolpr.Fs.{ok, Node, splice, u32, is_dir}
use sometuffcoolpr.Fs.Ramfs.{reserve, write_node, read_node, int_of}

-- A file whose bytes lie inside its buffer.
pub record IsFile (r : Node) : Type 0 where
  pub file : is_dir r.flags ≡ false
  pub fits : r.size ≤ r.capacity

-- `r'` is the file `r` with the bytes of `buffer` at `offset`: the bytes outside of them stay, and
-- the size grows to hold them.
pub record Written (r : Node) (offset size : ℕ) (buffer : Memory) (r' : Node) : Type 0 where
  pub IsFile_of : IsFile r'
  pub grown : r'.size ≡ (if ltb r.size (offset + size) then offset + size else r.size)
  pub inside : (i : ℕ) → i < size → r'.content (offset + i) ≡ buffer i
  pub before : (i : ℕ) → i < offset → i < r.size → r'.content i ≡ r.content i
  pub behind : (i : ℕ) → offset + size ≤ i → i < r.size → r'.content i ≡ r.content i
  pub name : r'.name ≡ r.name
  pub children : r'.children ≡ r.children
  pub room : r'.capacity ≡ (if ltb r.capacity (offset + size) then offset + size else r.capacity)

abbrev overwrite : Node → ℕ → ℕ → Memory → Node
overwrite r offset size buffer = record r {
  content = splice r.content offset buffer size;
  size = if ltb r.size (offset + size) then offset + size else r.size;
}

read_node-within :
    (r : Node) (offset size : ℕ) (into : Memory)
    → IsFile r
    → 0 < size
    → offset + size < 2 ^ 32
    → offset + size ≤ r.size
    → read_node r offset size into
      ≡ ok (int_of size, splice into 0 (λ a. r.content (offset + a)) size)
unfolding read_node
read_node-within r offset size into f some_bytes short h =
    let e : u32 (offset + size) ≡ offset + size = ground arith in
    let inside : leb r.size offset ≡ false = ground arith in
    let whole : ltb r.size (offset + size) ≡ false = ground arith in
    let room : ltb r.capacity (offset + size) ≡ false = ground (arith, f.fits) in
    rw (inside, e, whole, room) refl

module _ (fresh : ℕ) (garbage : Memory) (r : Node) (offset size : ℕ) (buffer : Memory)
    (allocated : fresh ≢ 0) (f : IsFile r) (short : offset + size < 2 ^ 32) where
  pub write_node-Written :
      (r' : Node) × (write_node fresh garbage r offset size buffer ≡ ok (int_of size, r'))
      × Written r offset size buffer r'
  unfolding write_node reserve
  write_node-Written =
      let e : u32 (offset + size) ≡ offset + size = ground arith in
      let some_node : (fresh == 0) ≡ false = ==_ne fresh 0 allocated in
      elim (Bool-cases (ltb r.capacity (offset + size))) [
        | inl grows ↦
            let new = record r {
              content = splice garbage 0 r.content r.size;
              capacity = offset + size;
            } in
            let full : ltb (offset + size) (offset + size) ≡ false = ground arith in
            (
              overwrite new offset size buffer,
              rw (f.file, e, grows, some_node, full) refl,
              record {
                IsFile_of = record { file = f.file; fits = ground (arith, f.fits) };
                grown = refl;
                inside = λ i lt. ground arith;
                before = λ i lt ls. ground arith;
                behind = λ i le ls. ground arith;
                name = refl;
                children = refl;
                room = rw grows refl;
              },
            )
        | inr room ↦ (
          overwrite r offset size buffer,
          rw (f.file, e, room) (rw room refl),
          record {
            IsFile_of = record { file = f.file; fits = ground (arith, f.fits) };
            grown = refl;
            inside = λ i lt. ground arith;
            before = λ i lt ls. ground arith;
            behind = λ i le ls. ground arith;
            name = refl;
            children = refl;
            room = rw room refl;
          },
        )
      ]

  -- Reading back what was written gives the bytes that were written, and leaves the reader's memory
  -- behind them alone.
  pub write_node-read :
      0 < size
      → (into : Memory)
      → (r' : Node) × (got : Memory) × (write_node fresh garbage r offset size buffer
          ≡ ok (int_of size, r'))
        × (read_node r' offset size into ≡ ok (int_of size, got))
        × ((i : ℕ) → i < size → got i ≡ buffer i)
        × ((i : ℕ) → size ≤ i → got i ≡ into i)
  write_node-read some_bytes into =
      let (r', e, w) = write_node-Written in
      let h : offset + size ≤ r'.size = ground (arith, w.grown) in
      (
        r',
        splice into 0 (λ a. r'.content (offset + a)) size,
        e,
        read_node-within r' offset size into w.IsFile_of some_bytes short h,
        (λ i lt. ground (arith, w.inside i lt)),
        (λ i le. ground arith),
      )

get_or-append_left : (s t : List ℕ) (i : ℕ) → i < length s → get_or (s ++ t) i 0 ≡ get_or s i 0
get_or-append_left [] t i h = absurd (omega arith)
get_or-append_left (c ∷ s) t zero h = refl
get_or-append_left (c ∷ s) t (suc i) h = get_or-append_left s t i (omega arith)

get_or-append_right : (s t : List ℕ) (i : ℕ) → get_or (s ++ t) (length s + i) 0 ≡ get_or t i 0
get_or-append_right [] t i = ap (λ k. get_or t k 0) (zero-add i)
get_or-append_right (c ∷ s) t i =
    ap (λ k. get_or (c ∷ (s ++ t)) k 0) (suc-add (length s) i) ∙ get_or-append_right s t i

-- The buffer that a text stands in.
abbrev pub source : List ℕ → Memory
source s i = get_or s i 0

-- Two writes, one behind the other, are one.
pub Written-append :
    (r r₁ r₂ : Node) (offset : ℕ) (s t : List ℕ)
    → Written r offset (length s) (source s) r₁
    → Written r₁ (offset + length s) (length t) (source t) r₂
    → Written r offset (length (s ++ t)) (source (s ++ t)) r₂
Written-append r r₁ r₂ offset s t w w' =
    let n = length-append s t in
    record {
      IsFile_of = w'.IsFile_of;
      grown = ground (arith, n, w.grown, w'.grown);
      inside = λ i lt. elim (Bool-cases (ltb i (length s))) [
        | inl front ↦
            w'.before (offset + i) (ground arith) (ground (arith, w.grown))
            ∙ w.inside i (ground arith)
            ∙ sym (get_or-append_left s t i (ground arith))
        | inr later ↦
            let k = i - length s in
            let here : length s + k ≡ i = ground arith in
            let there : offset + i ≡ offset + length s + k = omega (arith, here) in
            ap r₂.content there
            ∙ w'.inside k (omega (arith, n, here))
            ∙ sym (get_or-append_right s t k)
            ∙ ap (λ x. get_or (s ++ t) x 0) here
      ];
      before = λ i lt ls. w'.before i (omega arith) (ground (arith, w.grown)) ∙ w.before i lt ls;
      behind = λ i le ls.
          w'.behind i (omega (arith, n)) (ground (arith, w.grown))
          ∙ w.behind i (omega (arith, n)) ls;
      name = w'.name ∙ w.name;
      children = w'.children ∙ w.children;
      room = ground (arith, n, w.room, w'.room);
    }
