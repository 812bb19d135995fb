-- ===== src/Boot.antt =====
-- The start of the kernel: src/kernel/core/boot.c and core/status.c, the print-out of
-- core/multiboot.c, and kernel.c up to its loop. Timer interrupts come in the waits only.
pub mod Logo
pub mod Start
pub mod Root
pub mod Stages
pub mod Returns
mod Tests
use sometuffcoolpr.Prelude.{
  ℕ, zero, suc, ◌+◌, ◌-◌, ◌/◌, ◌%◌, ◌^◌, Option, none, some, List, [], ◌∷◌, ◌++◌, ltb, leb, ◌==◌,
  not, if◌then◌else◌,
}
use sometuffcoolpr.Prelude.Text.{codes}
use sometuffcoolpr.Str.{CString}
use sometuffcoolpr.Vga.{Vga, print}
use sometuffcoolpr.Vga.Output.{Item, text, hex, char, color, colored, wipe, move, cursor_on}
use sometuffcoolpr.Heap.{heap_init}
use sometuffcoolpr.Console.{init}
use sometuffcoolpr.Pmm.{Pmm, Region, Bitmap, pmm_init, alloc_frame}
use sometuffcoolpr.Paging.{paging_init}
use sometuffcoolpr.Fs.{Result, ok, fault, panic, out_of_fuel, ◌>>=◌, vfs_dir}
use sometuffcoolpr.Fs.Ramfs.{create_instance}
use sometuffcoolpr.Fs.Path.{vfs_mount}
use sometuffcoolpr.Fs.Fd.{fd_init}
use sometuffcoolpr.Arch.Gdt.{Gdt, Tss, gdt_init, tss_init}
use sometuffcoolpr.Arch.Idt.{Idt, idt_init}
use sometuffcoolpr.Arch.Ports.{pit_init, pic_remap}
use sometuffcoolpr.Machine.{Machine, World, screen, with_screen, output}
use sometuffcoolpr.Shell.Commands.{pause}
use sometuffcoolpr.Shell.Commands.Screen.{boot_logo, boot_logo_color}
use sometuffcoolpr.Shell.Commands.Storage.{alloc_object}
use sometuffcoolpr.Shell.Commands.Files.{node_size, create_on}
use sometuffcoolpr.Shell.Run.{shell_init}

abbrev pub status_column : ℕ
status_column = 60

-- `vga_print(".")`, `n` times.
unfoldable pub dots : ℕ → Vga → Vga
dots zero v = v
dots (suc n) v = dots n (print (codes ".") v)

unfoldable pub status_align : Vga → Vga
unfolding dots
status_align v = if leb status_column v.column then v else dots (status_column - v.column) v

abbrev pub status_begin : CString → Machine → Machine
status_begin message m = output (color 7 ∷ text message ∷ []) m

unfoldable pub status_end_ok : Machine → Machine
unfolding status_align
status_end_ok m =
    output (color 0x0A ∷ text (codes " [ OK ]\n") ∷ color 7 ∷ [])
      (with_screen m (status_align (screen m)))

unfoldable pub status_end_error : Machine → Machine
unfolding status_align
status_end_error m =
    output (color 0x0C ∷ text (codes " [ ERROR ]\n") ∷ color 7 ∷ [])
      (with_screen m (status_align (screen m)))

-- The loop of `status_loading_animation`.
unfoldable pub animate : (n delay : ℕ) → World → Machine → Result Machine
unfolding pause
animate zero delay w m = ok m
animate (suc n) delay w m =
    pause delay w (output (text (codes ".") ∷ []) m) >>= λ m'. animate n delay w m'

unfoldable pub status_loading_animation : (duration_ms : ℕ) → World → Machine → Result Machine
unfolding animate
status_loading_animation duration_ms w m =
    let n : ℕ = status_column - (screen m).column in
    let delay : ℕ = duration_ms / n in
    if leb status_column (screen m).column
    then ok m
    else animate n (if delay == 0 then 1 else delay) w m

-- The loop of `get_logo_width`.
unfoldable pub width_from : (max current : ℕ) → CString → ℕ
width_from max current [] = if ltb max current then current else max
width_from max current (c ∷ logo) =
    if c == b'\n'
    then width_from (if ltb max current then current else max) 0 logo
    else width_from max (current + 1) logo

unfoldable pub get_logo_width : CString → ℕ
unfolding width_from
get_logo_width logo = width_from 0 0 logo

unfoldable pub height_from : (lines : ℕ) → CString → ℕ
height_from lines [] = lines
height_from lines (c ∷ logo) = height_from (if c == b'\n' then lines + 1 else lines) logo

unfoldable pub get_logo_height : CString → ℕ
unfolding height_from
get_logo_height logo = height_from 1 logo

-- The loop of `boot_screen` over the logo: `row` and `start_col`.
unfoldable pub logo_items : (row start_col : ℕ) → CString → List Item
logo_items row start_col [] = color 7 ∷ []
logo_items row start_col (c ∷ logo) =
    if c == b'\n'
    then move (row + 1) start_col ∷ logo_items (row + 1) start_col logo
    else char c ∷ logo_items row start_col logo

-- `(a - b) / 2` of `size_t`.
abbrev pub half_between : ℕ → ℕ → ℕ
half_between a b = (a + 2 ^ 32 - b) % 2 ^ 32 / 2

unfoldable pub boot_screen : Machine → Machine
unfolding get_logo_width get_logo_height logo_items
boot_screen m =
    let start_row : ℕ = half_between 25 (get_logo_height boot_logo) in
    let start_col : ℕ = half_between 80 (get_logo_width boot_logo) in
    output
      (wipe
        ∷ color 0x1F
        ∷ color boot_logo_color
        ∷ move start_row start_col
        ∷ logo_items start_row start_col boot_logo)
      m

unfoldable pub region_items : List Region → List Item
region_items [] = []
region_items (r ∷ regions) =
    text (codes "Region: ")
    ∷ hex (r.addr % 2 ^ 32)
    ∷ text (codes " - ")
    ∷ hex ((r.addr + r.len) % 2 ^ 32)
    ∷ text (codes "\n")
    ∷ region_items regions

unfoldable pub multiboot_print_memory : (flags : ℕ) → List Region → List Item
unfolding region_items
multiboot_print_memory flags regions =
    if not (flags / 2 ^ 6 % 2 == 1)
    then text (codes "No memory map found\n") ∷ []
    else text (codes "Memory map:\n") ∷ region_items regions

-- What the boot loader, the linker and the hardware give: the flags and regions of the memory map,
-- the ends of the kernel, the memory of the bitmap, the masks of the interrupt controllers, and the
-- addresses of the interrupt stubs and of the task segment.
pub record Platform : Type 0 where
  pub flags : ℕ
  pub regions : List Region
  pub kernel_start : ℕ
  pub kernel_end : ℕ
  pub bitmap : Bitmap
  pub mask1 : ℕ
  pub mask2 : ℕ
  pub isr : ℕ → ℕ
  pub irq : ℕ → ℕ
  pub tss : ℕ

-- The tables that the processor reads, by `gdt_init`, `tss_init` and `idt_init`.
unfoldable pub boot_tables : Platform → Gdt → Idt → (Gdt × Tss) × Idt
boot_tables p gdt idt = (tss_init p.tss (gdt_init gdt), idt_init p.isr p.irq idt)

-- `status_begin`, the step, and `status_end_ok`.
unfoldable pub stage : CString → (Machine → Result Machine) → Machine → Result Machine
unfolding status_end_ok
stage message step m = step (status_begin message m) >>= λ m'. ok (status_end_ok m')

-- What `none` stands for in these steps: a division by zero.
unfoldable pub present {ℓ} : {A : Type ℓ} → Option A → Result A
present none = fault
present (some a) = ok a

-- The step that succeeds and changes nothing that `Machine` holds.
abbrev pub nothing_else : Machine → Result Machine
nothing_else m = ok m

unfoldable pub start_pmm : Platform → Machine → Result Machine
start_pmm p m =
    let (code, pmm) = pmm_init p.kernel_start p.kernel_end p.flags p.regions p.bitmap m.pmm in
    if code == 0 then ok (record m { pmm = pmm }) else panic

unfoldable pub start_pic : Platform → Machine → Result Machine
start_pic p m = ok (record m { sent = m.sent ++ pic_remap p.mask1 p.mask2 })

unfoldable pub start_heap : Machine → Result Machine
start_heap m = ok (record m { heap = heap_init m.heap })

unfoldable pub start_fds : Machine → Result Machine
start_fds m = ok (record m { fds = fd_init m.fds })

unfoldable pub start_console : Machine → Result Machine
start_console m = ok (record m { console = init m.console })

unfoldable pub start_timer : Machine → Result Machine
unfolding pit_init present
start_timer m = present (pit_init 100) >>= λ out. ok (record m { sent = m.sent ++ out })

unfoldable pub start_paging : Machine → Result Machine
unfolding paging_init
start_paging m =
    let (fresh, pmm) = alloc_frame m.pmm in
    ok (record m { pmm = pmm; paging = paging_init fresh m.paging })

-- `ramfs_create_instance`, with a node from the heap.
unfoldable pub instance_on : World → Machine → Result (ℕ × Machine)
unfolding alloc_object create_instance
instance_on w m = alloc_object node_size w m >>= λ (fresh, m').
    create_instance fresh m'.fs >>= λ (root, fs). ok (root, record m' { fs = fs })

unfoldable pub start_root : World → Machine → Result Machine
unfolding instance_on
start_root w m =
    instance_on w m >>= λ (root, m'). ok (record m' { fs = record m'.fs { root = root } })

unfoldable pub mount_tmp : World → Machine → Result Machine
unfolding instance_on create_on vfs_mount
mount_tmp w m = create_on m.fs.root (codes "tmp") vfs_dir w m >>= λ (n, m1).
    instance_on w m1 >>= λ (tmp, m2).
    vfs_mount m2.fs (codes "/tmp") tmp >>= λ fs. ok (record m2 { fs = fs })

-- `kernel_boot` up to the file systems.
unfoldable pub boot_devices : Platform → Machine → Result Machine
unfolding stage
boot_devices p m =
    stage (codes "Initializing PMM") (start_pmm p)
      (output (wipe ∷ multiboot_print_memory p.flags p.regions) m)
    >>= stage (codes "Initializing GDT") nothing_else
    >>= stage (codes "Initializing TSS") nothing_else
    >>= stage (codes "Initializing IDT") nothing_else
    >>= stage (codes "Remapping PIC") (start_pic p)
    >>= stage (codes "Setting hardware time frequency to 100Hz") start_timer
    >>= stage (codes "Enabling Interrupts") nothing_else
    >>= stage (codes "Initializing Paging") start_paging
    >>= stage (codes "Initializing Heap") start_heap

unfoldable pub boot_files : World → Machine → Result Machine
unfolding stage
boot_files w m =
    stage (codes "Initializing VFS") nothing_else m
    >>= stage (codes "Initializing FD") start_fds
    >>= stage (codes "Initializing Root Filesystem") (start_root w)
    >>= stage (codes "Mounting /tmp as RAMFS") (mount_tmp w)

unfoldable pub boot_input : World → Machine → Result Machine
unfolding stage
boot_input w m =
    stage (codes "Initializing Console") start_console m
    >>= stage (codes "Initializing Keyboard") nothing_else
    >>= stage (codes "Booting system") (status_loading_animation 823 w)

-- The end of `kernel_boot`.
unfoldable pub boot_welcome : World → Machine → Result Machine
unfolding boot_screen pause
boot_welcome w m = pause 1700 w m >>= λ m1.
    pause 2200 w (boot_screen (output (wipe ∷ []) m1)) >>= λ m2.
    ok (output (wipe ∷ cursor_on w.inb1 w.inb2 14 15 ∷ colored boot_logo boot_logo_color ∷ []) m2)

unfoldable pub kernel_boot : Platform → World → Machine → Result Machine
unfolding boot_devices boot_files boot_input boot_welcome
kernel_boot p w m = boot_devices p m >>= boot_files w >>= boot_input w >>= boot_welcome w

-- `kernel_main` up to its loop.
unfoldable pub kernel_main : Platform → World → Machine → Result Machine
unfolding kernel_boot shell_init
kernel_main p w m = kernel_boot p w m >>= λ m'. ok (shell_init m')
