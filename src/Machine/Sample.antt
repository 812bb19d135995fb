-- ===== src/Machine/Sample.antt =====
-- A machine before its start, and what stands around it, for the concrete runs.
use sometuffcoolpr.Prelude.{◌||◌, false, none, [], ◌==◌}
use sometuffcoolpr.Vga.{Vga}
use sometuffcoolpr.Keyboard.{Keyboard}
use sometuffcoolpr.Pmm.{Pmm}
use sometuffcoolpr.Paging.{Paging}
use sometuffcoolpr.Machine.{Machine, World}

abbrev blank : Vga
blank = record { row = 0; column = 0; color = 7; cells = λ a. 0; ports = [] }

abbrev pub quiet : Keyboard
quiet = record { buffer = λ a. 0; head = 0; tail = 0 }

abbrev pub unmapped : Paging
unmapped = record { page_directory = λ d. 0; page_tables = λ d. 0; memory = λ t i. 0 }

-- Of 64 frames, those below 33 are in use.
abbrev pub low_used : Pmm
low_used = record { bitmap = λ i j. (i == 0) || (j == 0); total_frames = 64 }

abbrev pub idle : Machine
idle = record {
  console = record { line_buffer = λ a. 0; line_length = 0; screen = blank };
  keyboard = quiet;
  timer = record { ticks = 0; seconds = 0 };
  heap = record { mem = λ a. 0; head = 0; start = 0; end = 0 };
  pmm = low_used;
  paging = unmapped;
  fs = record { nodes = λ a. none; mounts = []; root = 0; objects = [] };
  fds = λ i. record { used = false; node = 0; offset = 0 };
  last_alloc = 0;
  cwd = 0;
  mode = 0;
  sent = [];
}

abbrev pub world : World
world = record {
  fuel = 300;
  garbage = λ a b. 0;
  raw = λ a. 0;
  inb1 = 0;
  inb2 = 0;
  brand = [];
  build_date = [];
  cpu = record {
    cs = 8;
    ds = 16;
    es = 16;
    fs = 16;
    gs = 16;
    ss = 16;
    tr = 40;
    cr0 = 1;
    cr2 = 0;
    cr3 = 0;
    cr4 = 0;
    eflags = 2;
    esp = 0x90000;
    eip = 0x100000;
    gdtr_base = 0x1000;
    idtr_base = 0x2000;
    gdtr_limit = 47;
    idtr_limit = 2047;
  };
}
