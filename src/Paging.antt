-- ===== src/Paging.antt =====
-- src/kernel/mm/paging.c. A page table is given by its physical address and holds 1024 entries; `fresh`
-- is what `pmm_alloc_frame` returns, frame 0 and NULL alike. `paging_init` runs before paging is on
-- and writes to physical addresses; `map_page` runs behind it, so that what it writes goes through
-- the translation, and `none` is a page fault of its own. What the code sends to the processor (cr3,
-- cr0, invlpg) is left out.
pub mod Translate
pub mod Init
mod Tests
use sometuffcoolpr.Prelude.{
  ℕ, zero, suc, ◌+◌, ◌*◌, ◌/◌, ◌%◌, ◌^◌, ◌&&◌, Option, none, some, ◌==◌, if◌then◌else◌,
}

abbrev pub page_entries : ℕ
page_entries = 1024

-- `page_directory`, `page_tables`, and the words of the tables in memory.
pub record Paging : Type 0 where
  pub page_directory : ℕ → ℕ
  pub page_tables : ℕ → ℕ
  pub memory : ℕ → ℕ → ℕ

-- `x | PRESENT | WRITABLE`: the low two bits are set.
abbrev pub present_writable : ℕ → ℕ
present_writable x = x / 4 * 4 + 3

abbrev pub put_entry : (ℕ → ℕ → ℕ) → ℕ → ℕ → ℕ → ℕ → ℕ → ℕ
put_entry m table i v table' i' = if (table' == table) && (i' == i) then v else m table' i'

-- `table[i] = 0` for the `n` entries from `i`.
unfoldable pub clear_table : (n i : ℕ) → ℕ → (ℕ → ℕ → ℕ) → ℕ → ℕ → ℕ
clear_table zero i table m = m
clear_table (suc n) i table m = clear_table n (i + 1) table (put_entry m table i 0)

-- The identity mapping of the `n` pages from `i`.
unfoldable pub identity_map : (n i : ℕ) → ℕ → (ℕ → ℕ → ℕ) → ℕ → ℕ → ℕ
identity_map zero i table m = m
identity_map (suc n) i table m =
    identity_map n (i + 1) table (put_entry m table i (present_writable (i * 4096)))

-- The frame is not tested for NULL: the table is put at address 0 then.
unfoldable pub paging_init : (fresh : ℕ) → Paging → Paging
paging_init fresh p = record {
  page_directory = λ d. if d == 0 then present_writable fresh else 0;
  page_tables = λ d. if d == 0 then fresh else 0;
  memory = identity_map 1023 1 fresh (clear_table page_entries 0 fresh p.memory);
}

-- What the processor makes of an address: an entry leads on when its lowest bit is set; its upper
-- twenty bits are an address.
unfoldable pub translate : Paging → ℕ → Option ℕ
translate p v =
    let pde : ℕ = p.page_directory (v / 2 ^ 22) in
    let pte : ℕ = p.memory (pde / 4096 * 4096) (v / 2 ^ 12 % 1024) in
    if pde % 2 == 0
    then none
    else if pte % 2 == 0
    then none
    else some (pte / 4096 * 4096 + v % 4096)

-- The new table of a directory entry, that is cleared at the physical address `at`.
abbrev pub new_table : (fresh dir_index at : ℕ) → Paging → Paging
new_table fresh dir_index at p = record {
  page_directory = λ d. if d == dir_index then present_writable fresh else p.page_directory d;
  page_tables = λ d. if d == dir_index then fresh else p.page_tables d;
  memory = clear_table page_entries 0 at p.memory;
}

-- The table of a directory entry, allocated if there is none.
unfoldable pub add_table : (fresh dir_index : ℕ) → Paging → Option Paging
unfolding translate
add_table fresh dir_index p =
    if p.page_tables dir_index == 0
    then (elim (translate p fresh) [
      | none ↦ none
      | some at ↦ some (new_table fresh dir_index at p)
    ])
    else some p

-- The entry of the table at the physical address `at`.
abbrev pub set_entry : (at table_index physical_addr : ℕ) → Paging → Paging
set_entry at table_index physical_addr p = record p {
  memory = put_entry p.memory at table_index (present_writable (physical_addr / 4096 * 4096));
}

unfoldable pub map_page : (fresh : ℕ) → (virtual_addr physical_addr : ℕ) → Paging → Option Paging
unfolding add_table translate
map_page fresh virtual_addr physical_addr p =
    let dir_index : ℕ = virtual_addr / 2 ^ 22 in
    elim (add_table fresh dir_index p) [
      | none ↦ none
      | some p' ↦ elim (translate p' (p'.page_tables dir_index)) [
        | none ↦ none
        | some at ↦ some (set_entry at (virtual_addr / 2 ^ 12 % 1024) physical_addr p')
      ]
    ]
