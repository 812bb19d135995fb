-- ===== src/Shell/Commands/Stored/Words.antt =====
-- The writes of `write` of src/kernel/shell/shell.c: one for each word, and one for each space.
use sometuffcoolpr.Prelude.{
  ℕ, ◌+◌, ◌^◌, ◌<◌, ◌≤◌, ◌≡◌, ◌⊎◌, inl, inr, refl, ◌∙◌, false, ap, arith, ◌==◌, fun_ext, List, [],
  ◌∷◌, ◌++◌, Option, length, length-append, sym,
}
use mathlib.Core.List.{append-nil}
use sometuffcoolpr.Prelude.Int.{ℤ, pos}
use sometuffcoolpr.Prelude.Text.{codes}
use sometuffcoolpr.Str.{CString}
use sometuffcoolpr.Vga.Output.{text}
use sometuffcoolpr.Heap.{Heap}
use sometuffcoolpr.Fs.{Result, ok, fault, panic, out_of_fuel, ◌>>=◌, Node, Fs, put_with}
use sometuffcoolpr.Fs.Ramfs.Content.{IsFile, Written, source, Written-append}
use sometuffcoolpr.Fs.Fd.{put_desc, sys_seek, sys_close}
use sometuffcoolpr.Fs.Fd.Transfer.{OpenOn, opened}
use sometuffcoolpr.Machine.{Machine, World, output}
use sometuffcoolpr.Shell.Commands.Files.{write_on, write_words, write_through}
use sometuffcoolpr.Shell.Commands.Places.{Places}
use sometuffcoolpr.Shell.Commands.Stored.Through.{Wrote, write_on-room, write_on-grows}

-- What is written: the words, with a space behind each but the last.
abbrev pub pieces_of : List CString → List CString
pieces_of [] = []
pieces_of (s ∷ []) = s ∷ []
pieces_of (s ∷ s' ∷ words) = s ∷ (b' ' ∷ []) ∷ pieces_of (s' ∷ words)

abbrev pub concat : List CString → CString
concat [] = []
concat (s ∷ ss) = s ++ concat ss

-- For each write from `offset` on, the file's buffer has room, or the heap gives a larger one that
-- is apart from the nodes and buffers so far, and writes to none of them.
abbrev pub Grants : World → Heap → List (ℕ × ℕ) → (capacity offset : ℕ) → List CString → Type 0
Grants w h objects capacity offset [] = Unit {0}
Grants w h objects capacity offset (s ∷ ss) =
    ((offset + length s ≤ capacity) × Grants w h objects capacity (offset + length s) ss)
    ⊎ ((fresh : ℕ) × (h' : Heap) × (capacity < offset + length s)
        × Places w h objects (offset + length s) fresh h'
        × Grants w h' ((fresh, offset + length s) ∷ objects) (offset + length s) (offset + length s)
            ss)

write_pieces : ℤ → List CString → World → Machine → Result Machine
write_pieces fd [] w m = ok m
write_pieces fd (s ∷ ss) w m = write_on fd s w m >>= λ m'. write_pieces fd ss w m'

bind_ok {ℓ} : {A : Type ℓ} (r : Result A) → (r >>= λ a. ok a) ≡ r
bind_ok (ok a) = refl
bind_ok fault = refl
bind_ok panic = refl
bind_ok out_of_fuel = refl

write_words-pieces :
    (fd : ℤ) (words : List CString) (w : World) (m : Machine)
    → write_words fd words w m ≡ write_pieces fd (pieces_of words) w m
unfolding write_words write_pieces
write_words-pieces fd [] w m = refl
write_words-pieces fd (s ∷ []) w m = sym (bind_ok (write_on fd s w m))
write_words-pieces fd (s ∷ s' ∷ words) w m =
    rw (fun_ext λ m'. write_words-pieces fd (s' ∷ words) w m') refl

-- What the writes leave.
record Writes (w : World) (m : Machine) (d offset : ℕ) (r : Node) (ss : List CString) : Type 0 where
  machine : Machine
  file : Node
  objects : List (ℕ × ℕ)
  result : write_pieces (pos d) ss w m ≡ ok machine
  fs : machine.fs ≡ put_with objects m.fs (m.fds d).node file
  written : Written r offset (length (concat ss)) (source (concat ss)) file
  others : (i : ℕ) → ((i == d) ≡ false) → machine.fds i ≡ m.fds i

put-put :
    (o o' : List (ℕ × ℕ)) (fs : Fs) (a : ℕ) (r r' : Node)
    → put_with o' (put_with o fs a r) a r' ≡ put_with o' fs a r'
put-put o o' fs a r r' =
    ap (λ (f : ℕ → Option Node). record fs { nodes = f; objects = o' }) (fun_ext λ x. ground arith)

-- One write, and those behind it.
module _ (w : World) (m : Machine) (d offset : ℕ) (r : Node) (s : CString) (h : Heap)
    (objects : List (ℕ × ℕ)) (o : OpenOn m.fs m.fds d offset r) (f : IsFile r)
    (short : offset + length s < 2 ^ 31) (k : Wrote w m d offset r s o f short h objects) where
  abbrev after : Machine
  after = record m {
    heap = h;
    fs = put_with objects m.fs (m.fds d).node k.file;
    fds = put_desc m.fds d (record (m.fds d) { offset = offset + length s });
  }

  after-OpenOn : OpenOn after.fs after.fds d (offset + length s) k.file
  after-OpenOn = record {
    index = o.index;
    used = ground (arith, o.used);
    at = ground arith;
    node = ground (arith, o.node);
    stored = ground arith;
  }

  one-Writes : Writes w m d offset r (s ∷ [])
  unfolding write_pieces
  one-Writes = record {
    machine = after;
    file = k.file;
    objects = objects;
    result = rw k.result refl;
    fs = refl;
    written = rw append-nil k.written;
    others = λ i ne. ground (arith, ne);
  }

  more-Writes :
      (ss : List CString)
      → Writes w after d (offset + length s) k.file ss
      → Writes w m d offset r (s ∷ ss)
  unfolding write_pieces
  more-Writes ss t =
      let same_node : (after.fds d).node ≡ (m.fds d).node = ground arith in
      record {
        machine = t.machine;
        file = t.file;
        objects = t.objects;
        result = rw k.result t.result;
        fs =
            t.fs
            ∙ ap (λ x. put_with t.objects after.fs x t.file) same_node
            ∙ put-put objects t.objects m.fs (m.fds d).node k.file t.file;
        written = Written-append r k.file t.file offset s (concat ss) k.written t.written;
        others = λ i ne. t.others i ne ∙ (ground (arith, ne));
      }

write_pieces-Writes :
    (ss : List CString) (s : CString) (w : World) (m : Machine) (d offset : ℕ) (r : Node)
    → OpenOn m.fs m.fds d offset r
    → IsFile r
    → offset + length (concat (s ∷ ss)) < 2 ^ 31
    → Grants w m.heap m.fs.objects r.capacity offset (s ∷ ss)
    → Writes w m d offset r (s ∷ ss)
write_pieces-Writes [] s w m d offset r o f small (inl (room, g)) =
    let short : offset + length s < 2 ^ 31 = omega (arith, length-append s []) in
    one-Writes w m d offset r s m.heap m.fs.objects o f short
      (write_on-room w m d offset r s o f short room)
write_pieces-Writes [] s w m d offset r o f small (inr (fresh, h, grows, places, g)) =
    let short : offset + length s < 2 ^ 31 = omega (arith, length-append s []) in
    one-Writes w m d offset r s h ((fresh, offset + length s) ∷ m.fs.objects) o f short
      (write_on-grows w m d offset r s o f short fresh h grows places)
write_pieces-Writes (s' ∷ ss) s w m d offset r o f small (inl (room, g)) =
    let n = length-append s (concat (s' ∷ ss)) in
    let short : offset + length s < 2 ^ 31 = omega (arith, n) in
    let k = write_on-room w m d offset r s o f short room in
    let same : k.file.capacity ≡ r.capacity = ground (arith, k.written.room) in
    more-Writes w m d offset r s m.heap m.fs.objects o f short k (s' ∷ ss) (
      write_pieces-Writes ss s' w (after w m d offset r s m.heap m.fs.objects o f short k) d
        (offset + length s) k.file (after-OpenOn w m d offset r s m.heap m.fs.objects o f short k)
        k.written.IsFile_of (omega (arith, n)) (rw same g))
write_pieces-Writes (s' ∷ ss) s w m d offset r o f small (inr (fresh, h, grows, places, g)) =
    let n = length-append s (concat (s' ∷ ss)) in
    let short : offset + length s < 2 ^ 31 = omega (arith, n) in
    let k = write_on-grows w m d offset r s o f short fresh h grows places in
    let objects : List (ℕ × ℕ) = (fresh, offset + length s) ∷ m.fs.objects in
    let same : k.file.capacity ≡ offset + length s = ground (arith, k.written.room) in
    more-Writes w m d offset r s h objects o f short k (s' ∷ ss) (
      write_pieces-Writes ss s' w (after w m d offset r s h objects o f short k) d
        (offset + length s) k.file (after-OpenOn w m d offset r s h objects o f short k)
        k.written.IsFile_of (omega (arith, n)) (rw same g))

-- The text of the words, with a space between each two.
abbrev pub joined : List CString → CString
joined words = concat (pieces_of words)

words-Writes :
    (words : List CString) (s : CString) (w : World) (m : Machine) (d : ℕ) (r : Node)
    → OpenOn m.fs m.fds d 0 r
    → IsFile r
    → 0 + length (joined (s ∷ words)) < 2 ^ 31
    → Grants w m.heap m.fs.objects r.capacity 0 (pieces_of (s ∷ words))
    → Writes w m d 0 r (pieces_of (s ∷ words))
words-Writes [] s w m d r o f small g = write_pieces-Writes [] s w m d 0 r o f small g
words-Writes (s' ∷ words) s w m d r o f small g =
    write_pieces-Writes ((b' ' ∷ []) ∷ pieces_of (s' ∷ words)) s w m d 0 r o f small g

-- `write` behind `sys_open`: the descriptor `d` is open on the file `r`.
module _ (w : World) (m : Machine) (d : ℕ) (r : Node) (s : CString) (words : List CString)
    (o : OpenOn m.fs m.fds d 0 r) (f : IsFile r) (short : length (joined (s ∷ words)) < 2 ^ 31)
    (granted : Grants w m.heap m.fs.objects r.capacity 0 (pieces_of (s ∷ words))) where
  pub write_through-ok :
      (m' : Machine) × (r' : Node) × (objects : List (ℕ × ℕ)) × (write_through
          (pos d)
          (s ∷ words)
          w
          m
        ≡ ok m')
      × (m'.fs ≡ put_with objects m.fs (m.fds d).node r')
      × Written r 0 (length (joined (s ∷ words))) (source (joined (s ∷ words))) r'
      × ((m'.fds d).used ≡ false)
      × ((i : ℕ) → ((i == d) ≡ false) → m'.fds i ≡ m.fds i)
  unfolding write_through
  write_through-ok =
      let t = put_desc m.fds d (record (m.fds d) { offset = 0 }) in
      let m₁ : Machine = record m { fds = t } in
      let seek : sys_seek m.fds (pos d) 0 ≡ (pos 0, t) = rw (opened m.fs m.fds d 0 r o) refl in
      let same_node : (t d).node ≡ (m.fds d).node = ground arith in
      let o₁ : OpenOn m.fs t d 0 r = record {
        index = o.index;
        used = ground (arith, o.used);
        at = ground arith;
        node = ground (arith, o.node);
        stored = ground (arith, o.stored);
      } in
      let k = words-Writes words s w m₁ d r o₁ f (omega arith) granted in
      (
        output (text (codes "Written.\n") ∷ [])
            (record k.machine { fds = sys_close k.machine.fds (pos d) }),
        k.file,
        k.objects,
        rw (seek, write_words-pieces (pos d) (s ∷ words) w m₁, k.result) refl,
        k.fs ∙ ap (λ x. put_with k.objects m.fs x k.file) same_node,
        k.written,
        ground (arith, o.index),
        λ i ne. ground (arith, ne, o.index, k.others i),
      )
