-- ===== src/Boot/Start.antt =====
-- The state in which src/kernel/core/boot.c and kernel.c leave the kernel.
use sometuffcoolpr.Prelude.{ℕ, zero, suc, ◌≡◌, ◌≢◌, refl, sym, subst, List, [], ◌∷◌}
use sometuffcoolpr.Prelude.Text.{codes}
use sometuffcoolpr.Str.{CString}
use sometuffcoolpr.Vga.Cursor.{IsValid}
use sometuffcoolpr.Vga.Output.{wipe, text, show-Safe, then-Safe}
use sometuffcoolpr.Str.Number.{All}
use sometuffcoolpr.Keyboard.Queue.{contents}
use sometuffcoolpr.Keyboard.Queue
use sometuffcoolpr.Console.Line.{IsLine, clear-IsLine}
use sometuffcoolpr.Console.{Console, init}
use sometuffcoolpr.Fs.{Result, ok, fault, panic, out_of_fuel, ◌>>=◌, vfs_dir}
use sometuffcoolpr.Fs.Ramfs.{create_instance}
use sometuffcoolpr.Fs.Path.{vfs_mount}
use sometuffcoolpr.Machine.{Machine, World, screen}
use sometuffcoolpr.Shell.Run.{shell_init, prompt}
use sometuffcoolpr.Shell.Run.Keeps.{
  Keeps, Ok, same_parts, then-Keeps, say-Keeps, then-Ok, bind-Ok, bind-any, changed, steps,
}
use sometuffcoolpr.Shell.Run.Handlers.{pause-Keeps, alloc_object-Keeps, create_on-Keeps}
use sometuffcoolpr.Shell.Run.Invariant.{Sound}
use sometuffcoolpr.Boot.{
  Platform, status_align, status_begin, status_end_ok, status_loading_animation, animate,
  boot_screen, stage, nothing_else, start_pmm, start_pic, start_heap, start_fds, start_console,
  multiboot_print_memory, start_timer, start_paging, instance_on, start_root, mount_tmp,
  boot_devices, boot_files, boot_input, boot_welcome, kernel_boot, kernel_main,
}
use sometuffcoolpr.Boot.Logo.{status_align-Safe}

end_ok-Keeps : (m : Machine) → Keeps m (status_end_ok m)
unfolding status_end_ok
end_ok-Keeps m = record {
  line = refl;
  typed = refl;
  safe = λ h.
      let aligned = status_align-Safe (screen m) h in
      then-Safe (screen m) (status_align (screen m)) _ aligned
        (show-Safe _ (status_align (screen m)) aligned.0);
}

stage-Keeps :
    {step : Machine → Result Machine} (message : CString)
    → ((m : Machine) → Ok (Keeps m) (step m))
    → (m : Machine) → Ok (Keeps m) (stage message step m)
unfolding stage
stage-Keeps message step-Keeps m =
    bind-Ok (then-Ok (say-Keeps _ m).outcome (step-Keeps (status_begin message m)))
      λ m' k. record { outcome = then-Keeps k (end_ok-Keeps m') }

chain-Keeps :
    {m : Machine} {r : Result Machine} {f : Machine → Result Machine}
    → Ok (Keeps m) r
    → ((m' : Machine) → Ok (Keeps m') (f m'))
    → Ok (Keeps m) (r >>= f)
chain-Keeps h g = bind-Ok h λ m' k. then-Ok k (g m')

nothing_else-Keeps : (m : Machine) → Ok (Keeps m) (nothing_else m)
nothing_else-Keeps m = changed refl refl

start_pmm-Keeps : (p : Platform) (m : Machine) → Ok (Keeps m) (start_pmm p m)
unfolding start_pmm
start_pmm-Keeps p m = search steps

start_pic-Keeps : (p : Platform) (m : Machine) → Ok (Keeps m) (start_pic p m)
unfolding start_pic
start_pic-Keeps p m = changed refl refl

start_timer-Keeps : (m : Machine) → Ok (Keeps m) (start_timer m)
unfolding start_timer
start_timer-Keeps m = search steps

start_paging-Keeps : (m : Machine) → Ok (Keeps m) (start_paging m)
unfolding start_paging
start_paging-Keeps m = search steps

start_heap-Keeps : (m : Machine) → Ok (Keeps m) (start_heap m)
unfolding start_heap
start_heap-Keeps m = changed refl refl

start_fds-Keeps : (m : Machine) → Ok (Keeps m) (start_fds m)
unfolding start_fds
start_fds-Keeps m = changed refl refl

boot_devices-Keeps : (p : Platform) (m : Machine) → Ok (Keeps m) (boot_devices p m)
unfolding boot_devices
boot_devices-Keeps p m =
    let s1 =
      then-Ok (say-Keeps (wipe ∷ multiboot_print_memory p.flags p.regions) m).outcome
        (stage-Keeps (codes "Initializing PMM") (start_pmm-Keeps p) _) in
    let s2 = chain-Keeps s1 (stage-Keeps (codes "Initializing GDT") nothing_else-Keeps) in
    let s3 = chain-Keeps s2 (stage-Keeps (codes "Initializing TSS") nothing_else-Keeps) in
    let s4 = chain-Keeps s3 (stage-Keeps (codes "Initializing IDT") nothing_else-Keeps) in
    let s5 = chain-Keeps s4 (stage-Keeps (codes "Remapping PIC") (start_pic-Keeps p)) in
    let s6 =
      chain-Keeps s5
        (stage-Keeps (codes "Setting hardware time frequency to 100Hz") start_timer-Keeps) in
    let s7 = chain-Keeps s6 (stage-Keeps (codes "Enabling Interrupts") nothing_else-Keeps) in
    let s8 = chain-Keeps s7 (stage-Keeps (codes "Initializing Paging") start_paging-Keeps) in
    chain-Keeps s8 (stage-Keeps (codes "Initializing Heap") start_heap-Keeps)

instance_on-Keeps : (w : World) (m : Machine) → Ok (λ (root, m'). Keeps m m') (instance_on w m)
unfolding instance_on
instance_on-Keeps w m = bind-Ok (alloc_object-Keeps _ w m) λ (fresh, m') k.
    bind-any (create_instance fresh m'.fs)
      λ (root, fs). record { outcome = then-Keeps k (same_parts refl refl) }

start_root-Keeps : (w : World) (m : Machine) → Ok (Keeps m) (start_root w m)
unfolding start_root
start_root-Keeps w m = bind-Ok (instance_on-Keeps w m) λ (root, m') k. then-Ok k (changed refl refl)

mount_tmp-Keeps : (w : World) (m : Machine) → Ok (Keeps m) (mount_tmp w m)
unfolding mount_tmp
mount_tmp-Keeps w m = bind-Ok (create_on-Keeps m.fs.root (codes "tmp") vfs_dir w m) λ (n, m1) k.
    bind-Ok (instance_on-Keeps w m1) λ (tmp, m2) k'.
      bind-any (vfs_mount m2.fs (codes "/tmp") tmp)
        λ fs. then-Ok (then-Keeps k k') (changed refl refl)

boot_files-Keeps : (w : World) (m : Machine) → Ok (Keeps m) (boot_files w m)
unfolding boot_files
boot_files-Keeps w m =
    let s1 = stage-Keeps (codes "Initializing VFS") nothing_else-Keeps m in
    let s2 = chain-Keeps s1 (stage-Keeps (codes "Initializing FD") start_fds-Keeps) in
    let s3 =
      chain-Keeps s2 (stage-Keeps (codes "Initializing Root Filesystem") (start_root-Keeps w)) in
    chain-Keeps s3 (stage-Keeps (codes "Mounting /tmp as RAMFS") (mount_tmp-Keeps w))

animate-Keeps : (n delay : ℕ) (w : World) (m : Machine) → Ok (Keeps m) (animate n delay w m)
unfolding animate
animate-Keeps zero delay w m = changed refl refl
animate-Keeps (suc n) delay w m =
    then-Ok (say-Keeps (text (codes ".") ∷ []) m).outcome
      (chain-Keeps (pause-Keeps delay w _) (animate-Keeps n delay w))

loading-Keeps : (ms : ℕ) (w : World) (m : Machine) → Ok (Keeps m) (status_loading_animation ms w m)
unfolding status_loading_animation
loading-Keeps ms w m = search (steps, animate-Keeps)

-- What `Keeps` says, on the invariant.
Keeps-Sound :
    (m m' : Machine) (line waiting : List ℕ)
    → Sound m line waiting
    → Keeps m m'
    → Sound m' line waiting
Keeps-Sound m m' line waiting s k = record {
  screen_in = (k.safe s.screen_in).0;
  line_is =
      subst (λ (c : Console). IsLine c line) (sym k.line)
        (record {
          size = s.line_is.size;
          fits = s.line_is.fits;
          text = s.line_is.text;
          holds = s.line_is.holds;
        });
  queue_in = rw k.typed s.queue_in;
  queue_is = rw k.typed s.queue_is;
  nonzero = s.nonzero;
}

chain-Sound :
    {r : Result Machine} {f : Machine → Result Machine} {line waiting : List ℕ}
    → Ok (λ m. Sound m line waiting) r
    → ((m : Machine) → Ok (Keeps m) (f m))
    → Ok (λ m. Sound m line waiting) (r >>= f)
chain-Sound h g = bind-Ok h λ m s. bind_last m s (g m)
  where
    bind_last :
        {r : Result Machine} {line waiting : List ℕ} (m : Machine)
        → Sound m line waiting
        → Ok (Keeps m) r
        → Ok (λ m'. Sound m' line waiting) r
    bind_last {r = ok m'} {line = line} {waiting = waiting} m s k = record {
      outcome = Keeps-Sound m m' line waiting s k.outcome;
    }
    bind_last {r = fault} m s k = record { outcome = tt }
    bind_last {r = panic} m s k = record { outcome = tt }
    bind_last {r = out_of_fuel} m s k = record { outcome = tt }

-- The console's stage empties the line.
console-Sound :
    (message : CString) (m : Machine) (waiting : List ℕ)
    → IsValid (screen m)
    → Queue.IsValid m.keyboard
    → contents m.keyboard ≡ waiting
    → All (λ c. c ≢ 0) waiting
    → Ok (λ m'. Sound m' [] waiting) (stage message start_console m)
unfolding stage start_console init
console-Sound message m waiting valid queue rest nz =
    let m1 : Machine = status_begin message m in
    let m2 : Machine = record m1 { console = init m1.console } in
    let s : Sound m2 [] waiting = record {
      screen_in = ((say-Keeps _ m).outcome.safe valid).0;
      line_is = (clear-IsLine m1.console).0;
      queue_in = queue;
      queue_is = rest;
      nonzero = nz;
    } in
    record { outcome = Keeps-Sound m2 (status_end_ok m2) [] waiting s (end_ok-Keeps m2) }

boot_input-Sound :
    (w : World) (m : Machine) (waiting : List ℕ)
    → IsValid (screen m)
    → Queue.IsValid m.keyboard
    → contents m.keyboard ≡ waiting
    → All (λ c. c ≢ 0) waiting
    → Ok (λ m'. Sound m' [] waiting) (boot_input w m)
unfolding boot_input
boot_input-Sound w m waiting valid queue rest nz =
    let s1 = console-Sound (codes "Initializing Console") m waiting valid queue rest nz in
    let s2 = chain-Sound s1 (stage-Keeps (codes "Initializing Keyboard") nothing_else-Keeps) in
    chain-Sound s2 (stage-Keeps (codes "Booting system") (loading-Keeps 823 w))

boot_screen-Keeps : (m : Machine) → Keeps m (boot_screen m)
unfolding boot_screen
boot_screen-Keeps m = (say-Keeps _ m).outcome

boot_welcome-Keeps : (w : World) (m : Machine) → Ok (Keeps m) (boot_welcome w m)
unfolding boot_welcome
boot_welcome-Keeps w m = bind-Ok (pause-Keeps 1700 w m) λ m1 k.
    bind-Ok
      (then-Ok (then-Keeps (then-Keeps k (say-Keeps (wipe ∷ []) m1).outcome) (boot_screen-Keeps _))
        (pause-Keeps 2200 w _))
      λ m2 k'. then-Ok k' (say-Keeps _ m2)

-- `kernel_main`, started with the cursor on the screen and an intact queue of the keyboard, reaches
-- its loop, if it does, with an empty line and the same characters waiting.
pub kernel_main-Sound :
    (p : Platform) (w : World) (m : Machine) (waiting : List ℕ)
    → IsValid (screen m)
    → Queue.IsValid m.keyboard
    → contents m.keyboard ≡ waiting
    → All (λ c. c ≢ 0) waiting
    → Ok (λ m'. Sound m' [] waiting) (kernel_main p w m)
unfolding kernel_main kernel_boot shell_init
kernel_main-Sound p w m waiting valid queue rest nz =
    let devices = boot_devices-Keeps p m in
    let files = chain-Keeps devices (boot_files-Keeps w) in
    let input : Ok (λ m'. Sound m' [] waiting)
        (boot_devices p m >>= boot_files w >>= boot_input w) =
      bind-Ok files λ m' k.
        boot_input-Sound w m' waiting (k.safe valid).0 (rw k.typed queue) (rw k.typed rest) nz in
    let welcome = chain-Sound input (boot_welcome-Keeps w) in
    chain-Sound welcome λ m'.
      then-Ok {m' = record m' { cwd = m'.fs.root }} (same_parts refl refl)
        (say-Keeps (prompt m'.mode) _)
