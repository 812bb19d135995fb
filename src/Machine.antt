-- ===== src/Machine.antt =====
-- The state of the running kernel: that of every part, the ports written outside of the screen, and
-- the static variables of src/kernel/shell/shell.c. What the kernel takes from outside (CPU
-- registers, port reads, raw memory, the strings of the build) is a record of its own.
pub mod Sample
use sometuffcoolpr.Prelude.{ℕ, List}
use sometuffcoolpr.Prelude.Memory.{Memory}
use sometuffcoolpr.Str.{CString}
use sometuffcoolpr.Vga.{Vga}
use sometuffcoolpr.Vga.Output.{Item, show}
use sometuffcoolpr.Heap.{Heap}
use sometuffcoolpr.Keyboard.{Keyboard}
use sometuffcoolpr.Console.{Console}
use sometuffcoolpr.Time.{Timer}
use sometuffcoolpr.Fs.{Result, ok, Fs}
use sometuffcoolpr.Fs.Fd.{Table}
use sometuffcoolpr.Pmm.{Pmm}
use sometuffcoolpr.Paging.{Paging}

pub record Machine : Type 0 where
  pub console : Console
  pub keyboard : Keyboard
  pub timer : Timer
  pub heap : Heap
  pub pmm : Pmm
  pub paging : Paging
  pub fs : Fs
  pub fds : Table
  pub last_alloc : ℕ
  pub cwd : ℕ
  pub mode : ℕ
  pub sent : List (ℕ × ℕ)

-- The registers that core/debug.c reads.
pub record Cpu : Type 0 where
  pub cs : ℕ
  pub ds : ℕ
  pub es : ℕ
  pub fs : ℕ
  pub gs : ℕ
  pub ss : ℕ
  pub tr : ℕ
  pub cr0 : ℕ
  pub cr2 : ℕ
  pub cr3 : ℕ
  pub cr4 : ℕ
  pub eflags : ℕ
  pub esp : ℕ
  pub eip : ℕ
  pub gdtr_base : ℕ
  pub idtr_base : ℕ
  pub gdtr_limit : ℕ
  pub idtr_limit : ℕ

-- `garbage` is what the memory that `kmalloc` returns holds, by its address, and `raw` what a byte
-- of any address holds. `fuel` bounds the loops over the heap and the waits.
pub record World : Type 0 where
  pub fuel : ℕ
  pub garbage : ℕ → Memory
  pub raw : Memory
  pub inb1 : ℕ
  pub inb2 : ℕ
  pub brand : CString
  pub build_date : CString
  pub cpu : Cpu

abbrev pub screen : Machine → Vga
screen m = m.console.screen

abbrev pub with_screen : Machine → Vga → Machine
with_screen m v = record m { console = record m.console { screen = v } }

-- The calls that print.
abbrev pub output : List Item → Machine → Machine
output is m = with_screen m (show is (screen m))

-- A handler that prints and returns.
abbrev pub say : List Item → Machine → Result Machine
say is m = ok (output is m)
