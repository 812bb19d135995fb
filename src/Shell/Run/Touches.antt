-- ===== src/Shell/Run/Touches.antt =====
-- Reads of memory that a page fault of src/kernel/core/idt.c may interrupt.
use sometuffcoolpr.Prelude.{ℕ, zero, suc, ◌+◌, ◌^◌, ◌%◌, ◌==◌, refl, Option, none, some}
use sometuffcoolpr.Pmm.{alloc_frame}
use sometuffcoolpr.Paging.{Paging, translate, map_page}
use sometuffcoolpr.Fs.{Result, ok, fault, ◌>>=◌}
use sometuffcoolpr.Arch.Idt.{page_of, table_frame, map_frame, is_heap_fault, page_fault_handler}
use sometuffcoolpr.Machine.{Machine}
use sometuffcoolpr.Shell.Commands.Storage.{touch}
use sometuffcoolpr.Shell.Run.Keeps.{
  Keeps, Ok, same_parts, then-Ok, bind-Ok, if-Ok, changed, panic-Keeps,
}

map_frame-Keeps : (page frame : ℕ) (m : Machine) → Ok (Keeps m) (map_frame page frame m)
unfolding map_frame
map_frame-Keeps page frame m =
    let t = table_frame page m.paging m.pmm in
    elim (map_page t.0 page frame m.paging)
      as (λ (x : Option Paging). Ok (Keeps m) (elim x as (λ y. Result Machine) [
        | none ↦ fault
        | some p ↦ ok (record m { paging = p; pmm = t.1 })
      ])) [ none ↦ record { outcome = tt } | some p ↦ changed refl refl ]

page_fault_handler-Keeps :
    (addr err_code : ℕ) (m : Machine) → Ok (Keeps m) (page_fault_handler addr err_code m)
unfolding page_fault_handler
page_fault_handler-Keeps addr err_code m =
    let a = alloc_frame m.pmm in
    if-Ok (is_heap_fault addr err_code)
      (if-Ok (a.0 == 0) panic-Keeps (
        then-Ok {m' = record m { pmm = a.1 }} (same_parts refl refl)
          (map_frame-Keeps (page_of addr) a.0 _)))
      panic-Keeps

pub touch-Keeps : (n addr : ℕ) (m : Machine) → Ok (Keeps m) (touch n addr m)
unfolding touch
touch-Keeps zero addr m = changed refl refl
touch-Keeps (suc n) addr m =
    elim (translate m.paging (addr % 2 ^ 32))
      as (λ (x : Option ℕ). Ok (Keeps m) (elim x as (λ y. Result Machine) [
        | none ↦ page_fault_handler (addr % 2 ^ 32) 0 m >>= λ m'. touch n (addr + 1) m'
        | some p ↦ touch n (addr + 1) m
      ])) [
        | none ↦
            bind-Ok (page_fault_handler-Keeps (addr % 2 ^ 32) 0 m)
              λ m' k. then-Ok k (touch-Keeps n (addr + 1) m')
        | some p ↦ touch-Keeps n (addr + 1) m
      ]
