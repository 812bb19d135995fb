-- ===== src/Shell/Run/Handlers.antt =====
-- Each handler of src/kernel/shell/shell.c keeps the typed line and the waiting characters.
use sometuffcoolpr.Prelude.{ℕ, ◌+◌, refl, List, [], ◌∷◌, ltb, leb, ◌==◌, length, get_or}
use sometuffcoolpr.Prelude.Int.{ℤ, pos, negsuc}
use sometuffcoolpr.Str.{CString, atoi, atoi_hex}
use sometuffcoolpr.Vga.Output.{Item}
use sometuffcoolpr.Heap.{Heap, kmalloc, kfree}
use sometuffcoolpr.Fs.Fd.{sys_open, sys_seek, sys_close, sys_read, sys_write, is_open, index, Table}
use sometuffcoolpr.Fs.{Result, ok, ◌>>=◌, deref, is_dir, u32, vfs_file}
use sometuffcoolpr.Fs.Ramfs.{create}
use sometuffcoolpr.Machine.{Machine, World, say, output}
use sometuffcoolpr.Shell.Commands.{arg, not_positive, pause, finished}
use sometuffcoolpr.Shell.Commands.Screen.{
  cmd_help, cmd_panic, cmd_state, cmd_uptime, cmd_cpuid, cmd_sysfetch, cmd_shutdown, cmd_reboot,
  cmd_clear, cmd_echo, send_and_pause, cmd_calc, cmd_asciitoint, cmd_inttoascii, cmd_cur,
}
use sometuffcoolpr.Shell.Commands.Storage.{
  alloc_on, alloc_object, with_heap, meets, intact, free_and_print, cmd_meminfo, cmd_heapinfo,
  cmd_alloc, cmd_free, cmd_freelast, cmd_memdump, cmd_heapval,
}
use sometuffcoolpr.Shell.Commands.Files.{
  list_dir, create_on, write_on, write_words, make_file, made, write_through, read_through,
  words_of, cmd_mk, cmd_mkr, cmd_rd, cmd_write, cmd_ls, cmd_cd,
}
use sometuffcoolpr.Shell.Run.Touches.{touch-Keeps}
use sometuffcoolpr.Shell.Run.Keeps.{
  Keeps, Ok, same_parts, then-Keeps, say-Keeps, then-Ok, bind-Ok, bind-any, if-Ok, changed, steps,
}

pub cmd_help-Keeps :
    (argv : List CString) (w : World) (m : Machine) → Ok (Keeps m) (cmd_help argv w m)
unfolding cmd_help
cmd_help-Keeps argv w m = search steps

pub cmd_state-Keeps :
    (argv : List CString) (w : World) (m : Machine) → Ok (Keeps m) (cmd_state argv w m)
unfolding cmd_state
cmd_state-Keeps argv w m = search steps

pub cmd_uptime-Keeps :
    (argv : List CString) (w : World) (m : Machine) → Ok (Keeps m) (cmd_uptime argv w m)
unfolding cmd_uptime
cmd_uptime-Keeps argv w m = search steps

pub cmd_cpuid-Keeps :
    (argv : List CString) (w : World) (m : Machine) → Ok (Keeps m) (cmd_cpuid argv w m)
unfolding cmd_cpuid
cmd_cpuid-Keeps argv w m = search steps

pub cmd_sysfetch-Keeps :
    (argv : List CString) (w : World) (m : Machine) → Ok (Keeps m) (cmd_sysfetch argv w m)
unfolding cmd_sysfetch
cmd_sysfetch-Keeps argv w m = search steps

pub cmd_clear-Keeps :
    (argv : List CString) (w : World) (m : Machine) → Ok (Keeps m) (cmd_clear argv w m)
unfolding cmd_clear
cmd_clear-Keeps argv w m = search steps

pub cmd_asciitoint-Keeps :
    (argv : List CString) (w : World) (m : Machine) → Ok (Keeps m) (cmd_asciitoint argv w m)
unfolding cmd_asciitoint
cmd_asciitoint-Keeps argv w m = search steps

pub cmd_inttoascii-Keeps :
    (argv : List CString) (w : World) (m : Machine) → Ok (Keeps m) (cmd_inttoascii argv w m)
unfolding cmd_inttoascii
cmd_inttoascii-Keeps argv w m = search steps

pub cmd_cur-Keeps :
    (argv : List CString) (w : World) (m : Machine) → Ok (Keeps m) (cmd_cur argv w m)
unfolding cmd_cur
cmd_cur-Keeps argv w m = search steps depth 12

pub cmd_meminfo-Keeps :
    (argv : List CString) (w : World) (m : Machine) → Ok (Keeps m) (cmd_meminfo argv w m)
unfolding cmd_meminfo
cmd_meminfo-Keeps argv w m = search steps

pub cmd_memdump-Keeps :
    (argv : List CString) (w : World) (m : Machine) → Ok (Keeps m) (cmd_memdump argv w m)
unfolding cmd_memdump
cmd_memdump-Keeps argv w m = if-Ok (ltb (length argv) 3) (say-Keeps _ m) (
    if-Ok (not_positive (atoi (arg argv 2))) (say-Keeps _ m) (
      bind-Ok (touch-Keeps (atoi (arg argv 2)) (atoi_hex (arg argv 1)) m)
        λ m' k. then-Ok k (say-Keeps _ m')))

pub cmd_cd-Keeps : (argv : List CString) (w : World) (m : Machine) → Ok (Keeps m) (cmd_cd argv w m)
unfolding cmd_cd
cmd_cd-Keeps argv w m = search steps depth 12

with_heap-Keeps : (h : Heap) (m : Machine) → Ok (Keeps m) (with_heap h m)
unfolding with_heap
with_heap-Keeps h m =
    if-Ok (intact m.fs.objects m.heap.mem h.mem) (changed refl refl) (record { outcome = tt })

pub alloc_on-Keeps :
    (size : ℕ) (w : World) (m : Machine) → Ok (λ (p, m'). Keeps m m') (alloc_on size w m)
unfolding alloc_on
alloc_on-Keeps size w m =
    bind-any (finished (kmalloc w.fuel size m.heap))
      λ (p, h). bind-Ok (with_heap-Keeps h m) λ m' k. record { outcome = k }

pub alloc_object-Keeps :
    (size : ℕ) (w : World) (m : Machine) → Ok (λ (p, m'). Keeps m m') (alloc_object size w m)
unfolding alloc_object
alloc_object-Keeps size w m = bind-Ok (alloc_on-Keeps size w m) λ (p, m') k.
    if-Ok (meets p size m'.fs.objects) (record { outcome = tt })
      (record { outcome = then-Keeps k (same_parts refl refl) })

free_and_print-Keeps : (ptr : ℕ) (w : World) (m : Machine) → Ok (Keeps m) (free_and_print ptr w m)
unfolding free_and_print
free_and_print-Keeps ptr w m =
    bind-any (finished (kfree w.fuel ptr m.heap))
      λ (r, h). bind-Ok (with_heap-Keeps h m) λ m' k. then-Ok k (say-Keeps _ m')

pub pause-Keeps : (ms : ℕ) (w : World) (m : Machine) → Ok (Keeps m) (pause ms w m)
unfolding pause
pause-Keeps ms w m = search steps

send_and_pause-Keeps :
    (port value : ℕ) (w : World) (m : Machine) → Ok (Keeps m) (send_and_pause port value w m)
unfolding send_and_pause pause
send_and_pause-Keeps port value w m = search steps

-- A message, a wait, and a message.
around_pause :
    (is js : List Item) (port value : ℕ) (w : World) (m : Machine)
    → Ok (Keeps m) (send_and_pause port value w (output is m) >>= λ m'. say js m')
around_pause is js port value w m =
    then-Ok (say-Keeps is m).outcome (
      bind-Ok (send_and_pause-Keeps port value w (output is m)) λ m' k. then-Ok k (say-Keeps js m'))

pub cmd_echo-Keeps :
    (argv : List CString) (w : World) (m : Machine) → Ok (Keeps m) (cmd_echo argv w m)
unfolding cmd_echo
cmd_echo-Keeps argv w m = search steps

pub cmd_panic-Keeps :
    (argv : List CString) (w : World) (m : Machine) → Ok (Keeps m) (cmd_panic argv w m)
unfolding cmd_panic
cmd_panic-Keeps argv w m = search steps

pub cmd_shutdown-Keeps :
    (argv : List CString) (w : World) (m : Machine) → Ok (Keeps m) (cmd_shutdown argv w m)
unfolding cmd_shutdown
cmd_shutdown-Keeps argv w m = around_pause _ _ _ _ w m

pub cmd_reboot-Keeps :
    (argv : List CString) (w : World) (m : Machine) → Ok (Keeps m) (cmd_reboot argv w m)
unfolding cmd_reboot
cmd_reboot-Keeps argv w m = around_pause _ _ _ _ w m

pub cmd_calc-Keeps :
    (argv : List CString) (w : World) (m : Machine) → Ok (Keeps m) (cmd_calc argv w m)
unfolding cmd_calc
cmd_calc-Keeps argv w m = search steps

pub cmd_heapval-Keeps :
    (argv : List CString) (w : World) (m : Machine) → Ok (Keeps m) (cmd_heapval argv w m)
unfolding cmd_heapval
cmd_heapval-Keeps argv w m = search steps

pub cmd_heapinfo-Keeps :
    (argv : List CString) (w : World) (m : Machine) → Ok (Keeps m) (cmd_heapinfo argv w m)
unfolding cmd_heapinfo
cmd_heapinfo-Keeps argv w m = search steps

pub cmd_alloc-Keeps :
    (argv : List CString) (w : World) (m : Machine) → Ok (Keeps m) (cmd_alloc argv w m)
unfolding cmd_alloc
cmd_alloc-Keeps argv w m = if-Ok (ltb (length argv) 2) (say-Keeps _ m) (
    if-Ok (not_positive (atoi (arg argv 1))) (say-Keeps _ m) (
      bind-Ok (alloc_on-Keeps _ w m) λ (p, m') k. if-Ok (p == 0) (then-Ok k (say-Keeps _ m')) (
        then-Ok {m' = record m' { last_alloc = p }} (then-Keeps k (same_parts refl refl))
          (say-Keeps _ _))))

pub cmd_free-Keeps :
    (argv : List CString) (w : World) (m : Machine) → Ok (Keeps m) (cmd_free argv w m)
unfolding cmd_free
cmd_free-Keeps argv w m = search (steps, free_and_print-Keeps) depth 12

pub cmd_freelast-Keeps :
    (argv : List CString) (w : World) (m : Machine) → Ok (Keeps m) (cmd_freelast argv w m)
unfolding cmd_freelast
cmd_freelast-Keeps argv w m =
    if-Ok (m.last_alloc == 0) (say-Keeps _ m)
      (bind-Ok (free_and_print-Keeps _ w m) λ m' k. then-Ok k (changed refl refl))

list_dir-Keeps : (dir : ℕ) (m : Machine) → Ok (Keeps m) (list_dir dir m)
unfolding list_dir
list_dir-Keeps dir m = search steps depth 12

pub cmd_ls-Keeps : (argv : List CString) (w : World) (m : Machine) → Ok (Keeps m) (cmd_ls argv w m)
unfolding cmd_ls
cmd_ls-Keeps argv w m = search (steps, list_dir-Keeps) depth 12

pub create_on-Keeps :
    (parent : ℕ) (name : CString) (flags : ℕ) (w : World) (m : Machine)
    → Ok (λ (n, m'). Keeps m m') (create_on parent name flags w m)
unfolding create_on
create_on-Keeps parent name flags w m = bind-any (deref m.fs parent) λ p.
    bind-Ok {P = λ (n, m'). Keeps m m'}
      (if-Ok (leb 32 (length p.children)) (record { outcome = same_parts refl refl })
        (alloc_object-Keeps _ w m))
      λ (fresh, m') k.
        bind-any (create fresh m'.fs parent name flags)
          λ (n, fs). record { outcome = then-Keeps k (same_parts refl refl) }

made-Keeps : (n : ℤ) (done : CString) (m : Machine) → Ok (Keeps m) (made n done m)
unfolding made
made-Keeps (negsuc n) done m = say-Keeps _ m
made-Keeps (pos n) done m = say-Keeps _ m

make_file-Keeps :
    (parent : ℕ) (name done : CString) (w : World) (m : Machine)
    → Ok (Keeps m) (make_file parent name done w m)
unfolding make_file
make_file-Keeps parent name done w m =
    bind-Ok (create_on-Keeps parent name vfs_file w m) λ (n, m') k. then-Ok k (made-Keeps n done m')

pub cmd_mk-Keeps : (argv : List CString) (w : World) (m : Machine) → Ok (Keeps m) (cmd_mk argv w m)
unfolding cmd_mk
cmd_mk-Keeps argv w m = search (steps, make_file-Keeps) depth 12

pub cmd_mkr-Keeps :
    (argv : List CString) (w : World) (m : Machine) → Ok (Keeps m) (cmd_mkr argv w m)
unfolding cmd_mkr
cmd_mkr-Keeps argv w m = search (steps, make_file-Keeps) depth 12

write_on-Keeps : (fd : ℤ) (s : CString) (w : World) (m : Machine) → Ok (Keeps m) (write_on fd s w m)
unfolding write_on
write_on-Keeps fd s w m =
    let d = m.fds (index fd) in
    let go : (fresh : ℕ) (m' : Machine)
        → Keeps m m'
        → Ok (Keeps m) (
            sys_write fresh (w.garbage fresh) m'.fs m'.fds fd (λ i. get_or s i 0) (length s)
            >>= λ (n, fs, fds). ok (record m' { fs = fs; fds = fds })) =
      λ fresh m' k.
        bind-any (sys_write fresh (w.garbage fresh) m'.fs m'.fds fd (λ i. get_or s i 0) (length s))
          λ (n, fs, fds). then-Ok k (changed refl refl) in
    let no_room = go 0 m (same_parts refl refl) in
    if-Ok (is_open m.fds fd)
      (bind-any (deref m.fs d.node) λ r. if-Ok (is_dir r.flags) no_room (
        if-Ok (ltb r.capacity (u32 (d.offset + length s)))
          (bind-Ok (alloc_object-Keeps _ w m) λ (fresh, m') k. go fresh m' k) no_room))
      no_room

write_words-Keeps :
    (fd : ℤ) (words : List CString) (w : World) (m : Machine)
    → Ok (Keeps m) (write_words fd words w m)
unfolding write_words
write_words-Keeps fd [] w m = changed refl refl
write_words-Keeps fd (s ∷ []) w m = write_on-Keeps fd s w m
write_words-Keeps fd (s ∷ s' ∷ words) w m = bind-Ok (write_on-Keeps fd s w m) λ m1 k.
    bind-Ok (then-Ok k (write_on-Keeps fd (b' ' ∷ []) w m1))
      λ m2 k'. then-Ok k' (write_words-Keeps fd (s' ∷ words) w m2)

write_through-Keeps :
    (fd : ℤ) (words : List CString) (w : World) (m : Machine)
    → Ok (Keeps m) (write_through fd words w m)
unfolding write_through
write_through-Keeps (negsuc n) words w m = say-Keeps _ m
write_through-Keeps (pos i) words w m =
    then-Ok {m' = record m { fds = (sys_seek m.fds (pos i) 0).1 }} (same_parts refl refl) (
      bind-Ok (write_words-Keeps (pos i) words w _) λ m' k.
        then-Ok {m' = record m' { fds = sys_close m'.fds (pos i) }}
          (then-Keeps k (same_parts refl refl)) (say-Keeps _ _))

-- A descriptor that was opened.
with_fds :
    {m : Machine} {r : Result Machine} (fds : Table)
    → Ok (Keeps (record m { fds = fds })) r
    → Ok (Keeps m) r
with_fds fds h = then-Ok (same_parts refl refl) h

pub cmd_write-Keeps :
    (argv : List CString) (w : World) (m : Machine) → Ok (Keeps m) (cmd_write argv w m)
unfolding cmd_write
cmd_write-Keeps argv w m = if-Ok (ltb (length argv) 3) (say-Keeps _ m) (
    bind-any (sys_open m.fs m.fds (arg argv 1))
      λ (fd, fds). with_fds fds (write_through-Keeps fd (words_of argv) w (record m { fds = fds })))

read_through-Keeps : (fd : ℤ) (m : Machine) → Ok (Keeps m) (read_through fd m)
unfolding read_through
read_through-Keeps (negsuc n) m = say-Keeps _ m
read_through-Keeps (pos i) m =
    bind-any (sys_read m.fs (sys_seek m.fds (pos i) 0).1 (pos i) (λ a. 0) 255)
      λ (n, fds, buffer). with_fds (sys_close fds (pos i)) (say-Keeps _ _)

pub cmd_rd-Keeps : (argv : List CString) (w : World) (m : Machine) → Ok (Keeps m) (cmd_rd argv w m)
unfolding cmd_rd
cmd_rd-Keeps argv w m = if-Ok (ltb (length argv) 2) (say-Keeps _ m) (
    bind-any (sys_open m.fs m.fds (arg argv 1))
      λ (fd, fds). with_fds fds (read_through-Keeps fd (record m { fds = fds })))
