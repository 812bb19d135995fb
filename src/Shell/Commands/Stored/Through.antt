-- ===== src/Shell/Commands/Stored/Through.antt =====
-- `write` and `rd` of src/kernel/shell/shell.c behind `sys_open`.
use sometuffcoolpr.Prelude.{
  ℕ, zero, suc, ◌+◌, ◌-◌, ◌^◌, ◌<◌, ◌≤◌, ◌≡◌, refl, ◌∙◌, true, false, ap, arith, ==_ne, ◌==◌,
  if◌then◌else◌, List, [], ◌∷◌, length, get_or, ltb, leb,
}
use native.Mathlib.Nat.{add-zero}
use sometuffcoolpr.Prelude.Int.{pos}
use sometuffcoolpr.Prelude.Memory.{Memory}
use sometuffcoolpr.Prelude.Text.{codes}
use sometuffcoolpr.Str.{CString}
use sometuffcoolpr.Str.Compare.{IsText}
use sometuffcoolpr.Vga.Output.{text}
use sometuffcoolpr.Heap.{Heap}
use sometuffcoolpr.Fs.{ok, Node, put_with, deref, splice, u32}
use sometuffcoolpr.Fs.Ramfs.{write_node, read_node, int_of}
use sometuffcoolpr.Fs.Ramfs.Content.{IsFile, Written, source, write_node-Written}
use sometuffcoolpr.Fs.Fd.{Table, put_desc, move_offset, sys_seek, sys_close}
use sometuffcoolpr.Fs.Fd.Transfer.{OpenOn, opened, sys_read-ok}
use sometuffcoolpr.Machine.{Machine, World, say}
use sometuffcoolpr.Shell.Commands.{text_at}
use sometuffcoolpr.Shell.Commands.Places.{Places, alloc_object-Places}
use sometuffcoolpr.Shell.Commands.Files.{write_on, read_through}

write_node-room :
    (garbage : Memory) (r : Node) (offset size : ℕ) (buffer : Memory)
    → offset + size ≤ r.capacity
    → offset + size < 2 ^ 32
    → write_node 0 garbage r offset size buffer ≡ write_node 1 garbage r offset size buffer
unfolding write_node
write_node-room garbage r offset size buffer room short =
    let e : u32 (offset + size) ≡ offset + size = omega arith in
    let no_growth : ltb r.capacity (offset + size) ≡ false = ground arith in rw (e, no_growth) refl

module _ (w : World) (m : Machine) (d offset : ℕ) (r : Node) (s : CString)
    (o : OpenOn m.fs m.fds d offset r) (f : IsFile r) (short : offset + length s < 2 ^ 31) where
  -- What `write_on` leaves, with the heap and the pieces of it that are in use.
  pub record Wrote (heap : Heap) (objects : List (ℕ × ℕ)) : Type 0 where
    pub file : Node
    pub result :
        write_on (pos d) s w m
        ≡ ok (record m {
          heap = heap;
          fs = put_with objects m.fs (m.fds d).node file;
          fds = put_desc m.fds d (record (m.fds d) { offset = offset + length s });
        })
    pub written : Written r offset (length s) (source s) file

  pub write_on-room : offset + length s ≤ r.capacity → Wrote m.heap m.fs.objects
  unfolding write_on
  write_on-room room =
      let (r', e, written) =
        write_node-Written 1 (w.garbage 0) r offset (length s) (source s)
          (λ z. absurd (omega arith)) f (omega arith) in
      let count : int_of (length s) ≡ pos (length s) = ground arith in
      let e' : write_node 0 (w.garbage 0) r offset (length s) (source s) ≡ ok (pos (length s), r') =
        rw (write_node-room (w.garbage 0) r offset (length s) (source s) room (omega arith))
          (rw⁻¹ count e) in
      let some_node : ((m.fds d).node == 0) ≡ false = ==_ne _ 0 o.node in
      let end : u32 (offset + length s) ≡ offset + length s = omega arith in
      let no_growth : ltb r.capacity (offset + length s) ≡ false = ground arith in
      record {
        file = r';
        result =
            rw (opened m.fs m.fds d offset r o, o.stored, deref, o.at, end, f.file, no_growth)
              (rw (some_node, e') (rw (o.at, end) refl));
        written = written;
      }

  pub write_on-grows :
      (fresh : ℕ) (h : Heap)
      → r.capacity < offset + length s
      → Places w m.heap m.fs.objects (offset + length s) fresh h
      → Wrote h ((fresh, offset + length s) ∷ m.fs.objects)
  unfolding write_on
  write_on-grows fresh h small k =
      let (r', e, written) =
        write_node-Written fresh (w.garbage fresh) r offset (length s) (source s) k.some_ptr f
          (omega arith) in
      let count : int_of (length s) ≡ pos (length s) = ground arith in
      let e' : write_node fresh (w.garbage fresh) r offset (length s) (source s)
          ≡ ok (pos (length s), r') =
        rw⁻¹ count e in
      let some_node : ((m.fds d).node == 0) ≡ false = ==_ne _ 0 o.node in
      let end : u32 (offset + length s) ≡ offset + length s = omega arith in
      let growth : ltb r.capacity (offset + length s) ≡ true = ground arith in
      record {
        file = r';
        result =
            rw (opened m.fs m.fds d offset r o, o.stored, deref, o.at, end, f.file, growth)
              (rw (alloc_object-Places w m (offset + length s) fresh h k) (
                rw (opened m.fs m.fds d offset r o, o.stored, deref, o.at, some_node, e')
                  (rw (o.at, end) refl)));
        written = written;
      }

-- The bytes of a text that is followed by a NUL are the text.
text_at-text :
    (s : CString) (n : ℕ) (m : Memory) (p : ℕ)
    → IsText s
    → length s < n
    → ((i : ℕ) → i < length s → m (p + i) ≡ get_or s i 0)
    → m (p + length s) ≡ 0
    → text_at n m p ≡ s
unfolding text_at
text_at-text s zero m p chars enough same end = absurd (omega arith)
text_at-text [] (suc n) m p chars enough same end =
    let e : m p ≡ 0 = rw add-zero at end in ground arith
text_at-text (c ∷ s) (suc n) m p chars enough same end =
    let head : m p ≡ c = rw add-zero at (same 0 (omega arith)) in
    let shift : p + 1 + length s ≡ p + length (c ∷ s) = omega arith in
    let ih =
      text_at-text s n m (p + 1) chars.2 (omega arith)
        (λ i lt. ap m (next i) ∙ same (suc i) (omega arith)) (ap m shift ∙ end) in
    ground (arith, ih, chars.0)
  where
    next : (i : ℕ) → p + 1 + i ≡ p + suc i
    next i = omega arith

read_node-all :
    (r : Node) (size : ℕ) (into : Memory)
    → IsFile r
    → 0 < r.size
    → r.size ≤ size
    → size < 2 ^ 31
    → read_node r 0 size into ≡ ok (pos r.size, splice into 0 (λ a. r.content (0 + a)) r.size)
unfolding read_node
read_node-all r size into f some_bytes small short =
    let inside : leb r.size 0 ≡ false = ground arith in
    let all : (if ltb r.size (u32 (0 + size)) then r.size - 0 else size) ≡ r.size = ground arith in
    let room : ltb r.capacity (0 + r.size) ≡ false = ground (arith, f.fits) in
    let count : int_of r.size ≡ pos r.size = ground arith in rw (inside, all, room, count) refl

-- `rd` behind `sys_open`: the file holds a text of at most 255 bytes.
module _ (m : Machine) (d : ℕ) (r : Node) (s : CString) (o : OpenOn m.fs m.fds d 0 r) (f : IsFile r)
    (chars : IsText s) (size : r.size ≡ length s) (some_bytes : 0 < length s)
    (small : length s ≤ 255) (holds : (i : ℕ) → i < length s → r.content i ≡ get_or s i 0) where
  abbrev buffer : Memory
  buffer = splice (λ a. 0) 0 (λ a. r.content (0 + a)) r.size

  buffer-text : text_at 256 buffer 0 ≡ s
  buffer-text =
      text_at-text s 256 buffer 0 chars (omega arith) (λ i lt. ground (arith, holds i lt))
        (ground arith)

  pub read_through-ok :
      (t : Table) × (read_through (pos d) m
        ≡ say (text s ∷ text (codes "\n") ∷ []) (record m { fds = t }))
      × ((t d).used ≡ false)
      × ((i : ℕ) → ((i == d) ≡ false) → t i ≡ m.fds i)
  unfolding read_through
  read_through-ok =
      let t = put_desc m.fds d (record (m.fds d) { offset = 0 }) in
      let seek : sys_seek m.fds (pos d) 0 ≡ (pos 0, t) = rw (opened m.fs m.fds d 0 r o) refl in
      let o₁ : OpenOn m.fs t d 0 r = record {
        index = o.index;
        used = ground (arith, o.used);
        at = ground arith;
        node = ground (arith, o.node);
        stored = ground (arith, o.stored);
      } in
      let e =
        sys_read-ok m.fs t d 0 255 r (pos r.size) (λ a. 0) buffer o₁
          (read_node-all r 255 (λ a. 0) f (omega arith) (omega arith) (omega arith)) in
      let nonzero : (r.size == 0) ≡ false = ground arith in
      (
        sys_close (move_offset t d (pos r.size)) (pos d),
        rw (seek, e, nonzero, buffer-text) refl,
        ground (arith, o.index),
        λ i ne. ground (arith, ne, o.index),
      )
