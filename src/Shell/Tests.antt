-- ===== src/Shell/Tests.antt =====
-- Command lines for src/kernel/shell/shell.c.
use sometuffcoolpr.Prelude.{
  ◌^◌, ℕ, Option, ◌≡◌, ◌≢◌, refl, [], ◌∷◌, inr, none, some, arith, ◌==◌, if◌then◌else◌,
}
use sometuffcoolpr.Prelude.Text.{codes}
use sometuffcoolpr.Prelude.Pieces.{pieces, skip, piece, behind}
use sometuffcoolpr.Prelude.Int.{pos}
use sometuffcoolpr.Str.{strcmp}
use sometuffcoolpr.Shell.{space, run, execute_command}
use sometuffcoolpr.Str.Number.{numeral}
use sometuffcoolpr.Vga.Output.{text}
use sometuffcoolpr.Heap.{Heap, kmalloc, allocate, first_block, search, append_block, new_block}
use sometuffcoolpr.Fs.{Node, ok, panic}
use sometuffcoolpr.Fs.Ramfs.{new_node, find_child, lookup}
use sometuffcoolpr.Fs.Path.{vfs_lookup}
use sometuffcoolpr.Fs.Path.Walk.{parts}
use sometuffcoolpr.Fs.Fd.{Table}
use sometuffcoolpr.Machine.{Machine, say}
use sometuffcoolpr.Shell.Commands.Storage.{intact, same_words, meets}
use sometuffcoolpr.Shell.Commands.Files.{node_size, cmd_mk, cmd_write, cmd_rd}
use sometuffcoolpr.Shell.Commands.Made.{Makes, cmd_mk-cmd_write-cmd_rd}
use sometuffcoolpr.Shell.Commands.Stored.{SameUse, cmd_write-cmd_rd}
use sometuffcoolpr.Shell.Commands.Stored.Words.{Grants}
use sometuffcoolpr.Machine.Sample.{idle, world}
use sometuffcoolpr.Shell.Commands.Screen.{cmd_calc, cmd_echo, cmd_panic}
use sometuffcoolpr.Shell.Commands.Calc.{cmd_calc-numeral}
use sometuffcoolpr.Shell.Commands.Joined.{cmd_echo-joined}
use sometuffcoolpr.Shell.Parse.{execute_command-runs}

words : pieces space (codes " panic  now") ≡ codes "panic" ∷ codes "now" ∷ []
unfolding pieces
words = refl

not_help : strcmp (codes "panic") (codes "help") ≢ pos 0
unfolding strcmp
not_help = λ e. absurd (ground arith)

execute_command-runs_example :
    execute_command (codes " panic  now") ≡ run 1 (codes "panic" ∷ codes "now" ∷ [])
execute_command-runs_example =
    execute_command-runs (codes " panic  now") (codes "panic") (codes "now" ∷ []) 1 (omega arith)
      words (not_help, refl)

cmd_calc-numeral_example :
    cmd_calc (codes "calc" ∷ numeral 10 300 12 ∷ codes "-" ∷ numeral 10 300 30 ∷ []) world idle
    ≡ say (text (numeral 10 (2 ^ 32) 4294967278) ∷ text (codes "\n") ∷ []) idle
cmd_calc-numeral_example =
    cmd_calc-numeral (codes "calc") (codes "-") 300 12 30 world idle (omega arith) (omega arith)
      (omega arith) (omega arith)

cmd_echo-joined_example :
    (cmd_echo (codes "echo" ∷ codes "a" ∷ codes "b" ∷ []) world idle
      ≡ say (text (codes "a b") ∷ text (codes "\n") ∷ []) idle)
    × (cmd_panic (codes "echo" ∷ codes "a" ∷ codes "b" ∷ []) world idle ≡ panic)
cmd_echo-joined_example = cmd_echo-joined (codes "echo" ∷ codes "a" ∷ codes "b" ∷ []) world idle

-- An empty file `f` in the root directory, and a heap that was never used.
abbrev empty_file : Node
empty_file = record (new_node (codes "f") 1 100) { parent = 100 }

abbrev with_file : Machine
with_file = record idle {
  fs = record {
    nodes = λ a.
        if a == 100
        then some (record (new_node (codes "/") 2 0) { children = 200 ∷ [] })
        else if a == 200
        then some empty_file
        else none;
    mounts = [];
    root = 100;
    objects = [];
  };
  heap = record { mem = λ a. 0; head = 0; start = 0x400000; end = 0x400000 };
}

leads_to_file : vfs_lookup with_file.fs (codes "/f") ≡ ok 200
unfolding vfs_lookup find_child strcmp lookup skip piece behind
leads_to_file = refl

-- The buffer for the first word, the one for the space, and that for both words.
hello-Grants :
    Grants world with_file.heap with_file.fs.objects 0 0
      (codes "hello" ∷ codes " " ∷ codes "you" ∷ [])
unfolding kmalloc allocate first_block search append_block new_block intact same_words meets
hello-Grants = inr (
  0x400014,
  _,
  omega arith,
  record { granted = refl; some_ptr = λ e. absurd (omega arith); kept = refl; apart = refl },
  inr (
    0x400030,
    _,
    omega arith,
    record { granted = refl; some_ptr = λ e. absurd (omega arith); kept = refl; apart = refl },
    inr (
      0x400050,
      _,
      omega arith,
      record { granted = refl; some_ptr = λ e. absurd (omega arith); kept = refl; apart = refl },
      tt,
    ),
  ),
)

cmd_write-cmd_rd_example :
    (m' : Machine) × (t : Table) × (cmd_write
        (codes "write" ∷ codes "/f" ∷ codes "hello" ∷ codes "you" ∷ [])
        world
        with_file
      ≡ ok m')
    × (cmd_rd (codes "rd" ∷ codes "/f" ∷ []) world m'
        ≡ say (text (codes "hello you") ∷ text (codes "\n") ∷ []) (record m' { fds = t }))
    × SameUse with_file.fds t
cmd_write-cmd_rd_example =
    cmd_write-cmd_rd (codes "write") (codes "rd") (codes "/f") (codes "hello") (codes "you" ∷ [])
      world with_file 200 0 empty_file (λ e. absurd (omega arith)) leads_to_file
      (λ e. absurd (omega arith)) refl (record { file = refl; fits = omega arith }) (omega arith)
      refl (omega arith) (omega arith) (omega arith) (omega arith) hello-Grants

-- An empty root directory, in which the shell stands, and the heap behind the node of its file.
abbrev root_only : Machine
root_only = record idle {
  fs = record {
    nodes = λ a. if a == 100 then some (new_node (codes "/") 2 0) else none;
    mounts = [];
    root = 100;
    objects = [];
  };
  heap = record { mem = λ a. 0; head = 0; start = 0x400000; end = 0x400000 };
  cwd = 100;
}

abbrev heap_of : Option (ℕ × Heap) → Heap
heap_of none = root_only.heap
heap_of (some (p, h)) = h

abbrev node_heap : Heap
node_heap = heap_of (kmalloc world.fuel node_size root_only.heap)

root_only-Makes :
    Makes world root_only (codes "f") (codes "/f") 0x400014 node_heap (new_node (codes "/") 2 0)
unfolding kmalloc allocate first_block search append_block new_block lookup find_child skip piece
    behind parts pieces intact same_words meets
root_only-Makes = record {
  some_root = λ e. absurd (omega arith);
  at_root = refl;
  stored = refl;
  others = tt;
  room = omega arith;
  short = omega arith;
  free = refl;
  one = refl;
  places = record {
    granted = refl;
    some_ptr = λ e. absurd (omega arith);
    kept = refl;
    apart = refl;
  };
  apart = λ e. absurd (omega arith);
  unmounted = tt;
}

-- The buffer for the first word, the one for the space, and that for both words.
node_heap-Grants :
    Grants world node_heap
      ((0x400014, node_size) ∷ [])
      0
      0
      (codes "hello" ∷ codes " " ∷ codes "you" ∷ [])
unfolding kmalloc allocate first_block search append_block new_block intact same_words meets
node_heap-Grants = inr (
  0x400110,
  _,
  omega arith,
  record { granted = refl; some_ptr = λ e. absurd (omega arith); kept = refl; apart = refl },
  inr (
    0x400130,
    _,
    omega arith,
    record { granted = refl; some_ptr = λ e. absurd (omega arith); kept = refl; apart = refl },
    inr (
      0x400150,
      _,
      omega arith,
      record { granted = refl; some_ptr = λ e. absurd (omega arith); kept = refl; apart = refl },
      tt,
    ),
  ),
)

cmd_mk-cmd_write-cmd_rd_example :
    (m₁ : Machine) × (m₂ : Machine) × (t : Table) × (cmd_mk
        (codes "mk" ∷ codes "f" ∷ [])
        world
        root_only
      ≡ ok m₁)
    × (cmd_write (codes "write" ∷ codes "/f" ∷ codes "hello" ∷ codes "you" ∷ []) world m₁ ≡ ok m₂)
    × (cmd_rd (codes "rd" ∷ codes "/f" ∷ []) world m₂
        ≡ say (text (codes "hello you") ∷ text (codes "\n") ∷ []) (record m₂ { fds = t }))
    × SameUse root_only.fds t
cmd_mk-cmd_write-cmd_rd_example =
    cmd_mk-cmd_write-cmd_rd world root_only (codes "f") (codes "/f") 0x400014 node_heap
      (new_node (codes "/") 2 0) root_only-Makes (codes "mk") (codes "write") (codes "rd")
      (codes "hello") (codes "you" ∷ []) 0 (omega arith) refl (omega arith) (omega arith)
      (omega arith) node_heap-Grants
