-- ===== src/Shell/Commands/Files.antt =====
-- The handlers of the file system. A call that may take memory from the heap takes it from the
-- machine's, in the cases in which the C function calls `kmalloc`.
use sometuffcoolpr.Prelude.{
  ℕ, suc, ◌+◌, List, [], ◌∷◌, ltb, leb, ◌==◌, not, if◌then◌else◌, length, get_or,
}
use sometuffcoolpr.Prelude.Int.{ℤ, pos, negsuc}
use sometuffcoolpr.Prelude.Text.{codes}
use sometuffcoolpr.Prelude.Memory.{Memory}
use sometuffcoolpr.Str.{CString, char_at}
use sometuffcoolpr.Vga.Output.{Item, text}
use sometuffcoolpr.Fs.{Result, ok, ◌>>=◌, deref, is_dir, vfs_file, u32}
use sometuffcoolpr.Fs.Ramfs.{create, list}
use sometuffcoolpr.Fs.Path.{path_resolve, vfs_lookup}
use sometuffcoolpr.Fs.Fd.{sys_open, sys_seek, sys_read, sys_write, sys_close, is_open, index}
use sometuffcoolpr.Machine.{Machine, World, say}
use sometuffcoolpr.Shell.Commands.{Handler, arg, text_at}
use sometuffcoolpr.Shell.Commands.Storage.{alloc_object}

-- A path from the root, or from the working directory.
unfoldable pub resolve : CString → Machine → Result ℕ
unfolding vfs_lookup path_resolve
resolve path m =
    if char_at path == b'/'
    then vfs_lookup m.fs path
    else path_resolve (suc (length path)) m.fs m.cwd path

unfoldable pub cmd_cd : Handler
unfolding resolve
cmd_cd argv w m =
    if ltb (length argv) 2
    then ok (record m { cwd = m.fs.root })
    else resolve (arg argv 1) m >>= λ target.
        if target == 0
        then say (text (codes "Path not found\n") ∷ []) m
        else deref m.fs target >>= λ n.
            if not (is_dir n.flags)
            then say (text (codes "Not a directory\n") ∷ []) m
            else ok (record m { cwd = target })

-- The one table of operations has a `list`.
unfoldable pub list_dir : ℕ → Machine → Result Machine
unfolding list
list_dir dir m =
    if dir == 0
    then say (text (codes "Path not found\n") ∷ []) m
    else deref m.fs dir >>= λ n.
        if not (is_dir n.flags)
        then say (text (codes "Not a directory\n") ∷ []) m
        else list m.fs dir >>= λ names. say (text names ∷ []) m

unfoldable pub cmd_ls : Handler
unfolding resolve list_dir
cmd_ls argv w m =
    if ltb (length argv) 2
    then list_dir m.cwd m
    else resolve (arg argv 1) m >>= λ dir. list_dir dir m

-- `sizeof(ramfs_node_t)`
abbrev pub node_size : ℕ
node_size = 228

-- `ops->create`, which takes the node from the heap unless the directory is full.
unfoldable pub create_on : (parent : ℕ) → CString → ℕ → World → Machine → Result (ℤ × Machine)
unfolding create alloc_object
create_on parent name flags w m = deref m.fs parent >>= λ p.
    (if leb 32 (length p.children) then ok (0, m) else alloc_object node_size w m)
    >>= λ (fresh, m').
        create fresh m'.fs parent name flags >>= λ (n, fs). ok (n, record m' { fs = fs })

-- `sys_write`, which takes a larger buffer from the heap when the file has to grow.
unfoldable pub write_on : ℤ → CString → World → Machine → Result Machine
unfolding sys_write alloc_object is_open
write_on fd s w m =
    let d = m.fds (index fd) in
    let go : ℕ → Machine → Result Machine = λ fresh m'.
      sys_write fresh (w.garbage fresh) m'.fs m'.fds fd (λ i. get_or s i 0) (length s)
      >>= λ (n, fs, fds). ok (record m' { fs = fs; fds = fds }) in
    if is_open m.fds fd
    then (deref m.fs d.node >>= λ r.
        let end : ℕ = u32 (d.offset + length s) in
        if is_dir r.flags
        then go 0 m
        else if ltb r.capacity end
        then (alloc_object end w m >>= λ (fresh, m'). go fresh m')
        else go 0 m)
    else go 0 m

-- The words, with a space behind each but the last.
unfoldable pub write_words : ℤ → List CString → World → Machine → Result Machine
unfolding write_on
write_words fd [] w m = ok m
write_words fd (s ∷ []) w m = write_on fd s w m
write_words fd (s ∷ s' ∷ words) w m = write_on fd s w m >>= λ m1.
    write_on fd (b' ' ∷ []) w m1 >>= λ m2. write_words fd (s' ∷ words) w m2

abbrev pub words_of : List CString → List CString
words_of [] = []
words_of (a ∷ []) = []
words_of (a ∷ b ∷ args) = args

-- What `cmd_write` does behind `sys_open`.
unfoldable pub write_through : ℤ → List CString → World → Machine → Result Machine
unfolding sys_seek sys_close write_words
write_through (negsuc n) words w m = say (text (codes "File not found\n") ∷ []) m
write_through (pos i) words w m =
    write_words (pos i) words w (record m { fds = (sys_seek m.fds (pos i) 0).1 }) >>= λ m'.
    say (text (codes "Written.\n") ∷ []) (record m' { fds = sys_close m'.fds (pos i) })

unfoldable pub cmd_write : Handler
unfolding sys_open write_through
cmd_write argv w m =
    if ltb (length argv) 3
    then say (text (codes "Usage: write <file> <text>\n") ∷ []) m
    else sys_open m.fs m.fds (arg argv 1) >>= λ (fd, fds).
        write_through fd (words_of argv) w (record m { fds = fds })

-- `if (read > 0) vga_print(buffer);` and the newline, where `buffer` has 256 bytes.
unfoldable pub contents : ℤ → Memory → List Item
unfolding text_at
contents (negsuc n) buffer = text (codes "\n") ∷ []
contents (pos n) buffer =
    if n == 0 then text (codes "\n") ∷ [] else text (text_at 256 buffer 0) ∷ text (codes "\n") ∷ []

-- What `cmd_rd` does behind `sys_open`.
unfoldable pub read_through : ℤ → Machine → Result Machine
unfolding sys_seek sys_close sys_read contents
read_through (negsuc n) m = say (text (codes "File not found\n") ∷ []) m
read_through (pos i) m =
    sys_read m.fs (sys_seek m.fds (pos i) 0).1 (pos i) (λ a. 0) 255 >>= λ (n, fds, buffer).
    say (contents n buffer) (record m { fds = sys_close fds (pos i) })

unfoldable pub cmd_rd : Handler
unfolding sys_open read_through
cmd_rd argv w m =
    if ltb (length argv) 2
    then say (text (codes "Usage: rd <file>\n") ∷ []) m
    else sys_open m.fs m.fds (arg argv 1) >>= λ (fd, fds). read_through fd (record m { fds = fds })

-- The message behind `ops->create`.
unfoldable pub made : ℤ → CString → Machine → Result Machine
made (negsuc n) done m = say (text (codes "Failed to create file\n") ∷ []) m
made (pos n) done m = say (text done ∷ []) m

-- A file of a directory, and the message.
unfoldable pub make_file : (parent : ℕ) → CString → CString → World → Machine → Result Machine
unfolding create_on made
make_file parent name done w m = create_on parent name vfs_file w m >>= λ (n, m'). made n done m'

unfoldable pub cmd_mk : Handler
unfolding make_file
cmd_mk argv w m =
    if ltb (length argv) 2
    then say (text (codes "Usage: mk <file>\n") ∷ []) m
    else if m.cwd == 0
    then say (text (codes "No working directory\n") ∷ []) m
    else make_file m.cwd (arg argv 1) (codes "File created\n") w m

unfoldable pub cmd_mkr : Handler
unfolding make_file vfs_lookup
cmd_mkr argv w m =
    if ltb (length argv) 2
    then say (text (codes "Usage: mkr <file>\n") ∷ []) m
    else vfs_lookup m.fs (codes "/tmp") >>= λ tmp.
        if tmp == 0
        then say (text (codes "/tmp not found\n") ∷ []) m
        else deref m.fs tmp >>= λ n.
            if not (is_dir n.flags)
            then say (text (codes "/tmp is not a directory\n") ∷ []) m
            else make_file tmp (arg argv 1) (codes "RAM file created\n") w m
