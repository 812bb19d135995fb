-- ===== src/Arch/Gdt.antt =====
-- src/kernel/arch/x86/gdt.c and the entry that arch/x86/tss.c adds.
use sometuffcoolpr.Prelude.{
  ℕ, ◌+◌, ◌*◌, ◌/◌, ◌%◌, ◌^◌, ◌<◌, ◌≡◌, ◌≢◌, refl, ◌==◌, if◌then◌else◌, arith, ==_self, ==_ne,
}

-- `struct gdt_entry`
pub record Entry : Type 0 where
  pub limit_low : ℕ
  pub base_low : ℕ
  pub base_middle : ℕ
  pub access : ℕ
  pub granularity : ℕ
  pub base_high : ℕ

abbrev pub Gdt : Type 0
Gdt = ℕ → Entry

abbrev pub entry : (base limit access gran : ℕ) → Entry
entry base limit access gran = record {
  base_low = base % 2 ^ 16;
  base_middle = base / 2 ^ 16 % 256;
  base_high = base / 2 ^ 24 % 256;
  limit_low = limit % 2 ^ 16;
  granularity = limit / 2 ^ 16 % 16 + gran / 16 % 16 * 16;
  access = access;
}

-- The low nibble of `granularity` is the limit's, the high one that of `gran`.
unfoldable pub gdt_set_entry : (num base limit access gran : ℕ) → Gdt → Gdt
gdt_set_entry num base limit access gran gdt i =
    if i == num then entry base limit access gran else gdt i

unfoldable pub gdt_init : Gdt → Gdt
unfolding gdt_set_entry
gdt_init gdt = gdt_set_entry 4 0 0xFFFFFFFF 0xF2 0xCF (
    gdt_set_entry 3 0 0xFFFFFFFF 0xFA 0xCF (
      gdt_set_entry 2 0 0xFFFFFFFF 0x92 0xCF
        (gdt_set_entry 1 0 0xFFFFFFFF 0x9A 0xCF (gdt_set_entry 0 0 0 0 0 gdt))))

-- The fields of `struct tss_entry` that are set.
pub record Tss : Type 0 where
  pub ss0 : ℕ
  pub esp0 : ℕ
  pub iomap_base : ℕ

-- `tss` is the address of the segment, which has 104 bytes.
unfoldable pub tss_init : (tss : ℕ) → Gdt → Gdt × Tss
unfolding gdt_set_entry
tss_init tss gdt =
    (gdt_set_entry 5 tss 104 0x89 0x40 gdt, record { ss0 = 0x10; esp0 = 0; iomap_base = 104 })

-- What the processor reads of an entry.
abbrev pub base_of : Entry → ℕ
base_of e = e.base_low + e.base_middle * 2 ^ 16 + e.base_high * 2 ^ 24

abbrev pub limit_of : Entry → ℕ
limit_of e = e.limit_low + e.granularity % 16 * 2 ^ 16

abbrev pub flags_of : Entry → ℕ
flags_of e = e.granularity / 16

-- For a base of 32 bits and flags of a byte, the processor reads from the entry the base, the low
-- twenty bits of the limit, the access byte and the flags that were set, and the other entries are
-- as they were.
pub gdt_set_entry-read :
    (num base limit access gran : ℕ) (gdt : Gdt)
    → base < 2 ^ 32
    → gran < 256
    → let g = gdt_set_entry num base limit access gran gdt in
      (base_of (g num) ≡ base)
      × (limit_of (g num) ≡ limit % 2 ^ 20)
      × ((g num).access ≡ access)
      × (flags_of (g num) ≡ gran / 16)
      × ((i : ℕ) → i ≢ num → g i ≡ gdt i)
unfolding gdt_set_entry
gdt_set_entry-read num base limit access gran gdt small byte =
    rw (==_self num) (omega arith, omega arith, refl, omega arith, λ i ne. rw (==_ne i num ne) refl)
