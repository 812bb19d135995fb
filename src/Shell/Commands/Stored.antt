-- ===== src/Shell/Commands/Stored.antt =====
-- `write` and `rd` of src/kernel/shell/shell.c on the same file.
pub mod Through
pub mod Words
use native.Mathlib.Nat.{zero-add}
use sometuffcoolpr.Prelude.{
  ℕ, ◌+◌, ◌^◌, ◌<◌, ◌≤◌, ◌≡◌, ◌≢◌, ◌⊎◌, inl, inr, refl, sym, ◌∙◌, true, false, ap, arith, ==_self,
  ==_eq, ◌==◌, if◌then◌else◌, List, [], ◌∷◌, some, Bool-cases, length, get_or, ltb,
}
use sometuffcoolpr.Prelude.Text.{codes}
use sometuffcoolpr.Prelude.Int.{ℤ}
use sometuffcoolpr.Str.{CString}
use sometuffcoolpr.Str.Compare.{IsText}
use sometuffcoolpr.Vga.Output.{text}
use sometuffcoolpr.Fs.{Result, ok, ◌>>=◌, Node, Fs, put_with}
use sometuffcoolpr.Fs.Ramfs.Content.{IsFile, Written, source}
use sometuffcoolpr.Fs.Path.{vfs_lookup}
use sometuffcoolpr.Fs.Path.Shape.{put-SameShape, vfs_lookup-shape}
use sometuffcoolpr.Fs.Fd.{Table, Desc, max_fds}
use sometuffcoolpr.Fs.Fd.Transfer.{OpenOn}
use sometuffcoolpr.Fs.Fd.Open.{Opened, sys_open-Opened}
use sometuffcoolpr.Machine.{Machine, World, say}
use sometuffcoolpr.Shell.Commands.Files.{cmd_write, cmd_rd}
use sometuffcoolpr.Shell.Commands.Stored.Through.{read_through-ok}
use sometuffcoolpr.Shell.Commands.Stored.Words.{Grants, pieces_of, joined, write_through-ok}

-- What an opened descriptor is open on.
Opened-OpenOn :
    (m : Machine) (a : ℕ) (r : Node) (q : Result (ℤ × Table)) (k : Opened m.fds a q)
    → a ≢ 0
    → m.fs.nodes a ≡ some r
    → OpenOn m.fs k.table k.fd 0 r
Opened-OpenOn m a r q k some_node stored = record {
  index = k.inside;
  used = k.used;
  at = k.offset;
  node = rw k.node some_node;
  stored = rw k.node stored;
}

-- Every descriptor is in use as before.
abbrev pub SameUse : Table → Table → Type 0
SameUse t t' = (i : ℕ) → (t' i).used ≡ (t i).used

closed-SameUse :
    (t t₁ t₂ : Table) (d : ℕ)
    → (t d).used ≡ false
    → ((i : ℕ) → ((i == d) ≡ false) → t₁ i ≡ t i)
    → (t₂ d).used ≡ false
    → ((i : ℕ) → ((i == d) ≡ false) → t₂ i ≡ t₁ i)
    → SameUse t t₂
closed-SameUse t t₁ t₂ d before opening after closing i = elim (Bool-cases (i == d)) [
  | inl e ↦ rw (==_eq i d e) (after ∙ sym before)
  | inr ne ↦ ap (λ (x : Desc). x.used) (closing i ne ∙ opening i ne)
]

module _ (cmd cmd' path s : CString) (words : List CString) (w : World) (m : Machine) (a j : ℕ)
    (r : Node) (some_root : m.fs.root ≢ 0) (leads : vfs_lookup m.fs path ≡ ok a) (some_node : a ≢ 0)
    (stored : m.fs.nodes a ≡ some r) (f : IsFile r) (inside : j < max_fds)
    (unused : (m.fds j).used ≡ false) where
  -- `write` of words to a file, and what it leaves.
  cmd_write-ok :
      length (joined (s ∷ words)) < 2 ^ 31
      → Grants w m.heap m.fs.objects r.capacity 0 (pieces_of (s ∷ words))
      → (m' : Machine) × (r' : Node) × (objects : List (ℕ × ℕ)) × (cmd_write
            (cmd ∷ path ∷ s ∷ words)
            w
            m
          ≡ ok m')
        × (m'.fs ≡ put_with objects m.fs a r')
        × Written r 0 (length (joined (s ∷ words))) (source (joined (s ∷ words))) r'
        × SameUse m.fds m'.fds
  unfolding cmd_write
  cmd_write-ok short granted =
      let enough : ltb (length (cmd ∷ path ∷ s ∷ words)) 3 ≡ false = ground arith in
      let k = sys_open-Opened m.fds a j inside unused m.fs path leads some_node in
      let m₁ : Machine = record m { fds = k.table } in
      let o = Opened-OpenOn m a r _ k some_node stored in
      let (m', r', objects, run, fs, written, after, closing) =
        write_through-ok w m₁ k.fd r s words o f short granted in
      (
        m',
        r',
        objects,
        rw (enough, k.result) run,
        fs ∙ ap (λ x. put_with objects m.fs x r') k.node,
        written,
        closed-SameUse m.fds k.table m'.fds k.fd k.was_unused k.others after closing,
      )

  -- `rd` of a file that holds a text.
  cmd_rd-ok :
      IsText s
      → r.size ≡ length s
      → 0 < length s
      → length s ≤ 255
      → ((i : ℕ) → i < length s → r.content i ≡ get_or s i 0)
      → (t : Table) × (cmd_rd (cmd' ∷ path ∷ []) w m
          ≡ say (text s ∷ text (codes "\n") ∷ []) (record m { fds = t }))
        × SameUse m.fds t
  unfolding cmd_rd
  cmd_rd-ok chars size some_bytes small holds =
      let k = sys_open-Opened m.fds a j inside unused m.fs path leads some_node in
      let m₁ : Machine = record m { fds = k.table } in
      let o = Opened-OpenOn m a r _ k some_node stored in
      let (t, run, after, closing) =
        read_through-ok m₁ k.fd r s o f chars size some_bytes small holds in
      (t, rw k.result run, closed-SameUse m.fds k.table t k.fd k.was_unused k.others after closing)

module _ (cmd cmd' path s : CString) (words : List CString) (w : World) (m : Machine) (a j : ℕ)
    (r : Node) (some_root : m.fs.root ≢ 0) (leads : vfs_lookup m.fs path ≡ ok a) (some_node : a ≢ 0)
    (stored : m.fs.nodes a ≡ some r) (f : IsFile r) (inside : j < max_fds)
    (unused : (m.fds j).used ≡ false) where
  -- In a file system whose path leads to a well-formed file, with a descriptor left: `write` of words
  -- that make, with a space between each two, a text of 1 to 255 bytes that is not shorter than the
  -- file, where for each write the file's buffer has room or the heap gives a larger one that is apart
  -- from all nodes and buffers so far and writes to none of them, succeeds. `rd` of the same path then
  -- prints exactly that text and a newline, and afterwards the same descriptors are in use as before.
  pub cmd_write-cmd_rd :
      IsText (joined (s ∷ words))
      → 0 < length (joined (s ∷ words))
      → length (joined (s ∷ words)) ≤ 255
      → r.size ≤ length (joined (s ∷ words))
      → Grants w m.heap m.fs.objects r.capacity 0 (pieces_of (s ∷ words))
      → (m' : Machine) × (t : Table) × (cmd_write (cmd ∷ path ∷ s ∷ words) w m ≡ ok m')
        × (cmd_rd (cmd' ∷ path ∷ []) w m'
            ≡ say (text (joined (s ∷ words)) ∷ text (codes "\n") ∷ []) (record m' { fds = t }))
        × SameUse m.fds t
  cmd_write-cmd_rd chars some_bytes small covers granted =
      let (m', r', objects, run, fs, written, same) =
        cmd_write-ok cmd cmd' path s words w m a j r some_root leads some_node stored f inside
          unused (omega arith) granted in
      let shape = put-SameShape objects m.fs a r r' stored written.name written.children in
      let leads' : vfs_lookup m'.fs path ≡ ok a =
        ap (λ g. vfs_lookup g path) fs
        ∙ vfs_lookup-shape m.fs (put_with objects m.fs a r') shape path some_root
        ∙ leads in
      let root' : m'.fs.root ≢ 0 = rw (ap (λ (g : Fs). g.root) fs) some_root in
      let stored' : m'.fs.nodes a ≡ some r' = ap (λ (g : Fs). g.nodes a) fs ∙ rw (==_self a) refl in
      let size : r'.size ≡ length (joined (s ∷ words)) = ground (arith, written.grown) in
      let (t, read, closed) =
        cmd_rd-ok cmd cmd' path (joined (s ∷ words)) [] w m' a j r' root' leads' some_node stored'
          written.IsFile_of inside (same j ∙ unused) chars size some_bytes small
          (λ i lt. ap r'.content (at_zero i) ∙ written.inside i lt) in
      (m', t, run, read, λ i. closed i ∙ same i)
    where
      at_zero : (i : ℕ) → i ≡ 0 + i
      at_zero i = omega arith
