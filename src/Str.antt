-- ===== src/Str.antt =====
-- src/kernel/lib/string.c. A `const char*` that is only read is the list of the bytes from it up
-- to the terminating NUL, so `*p` is the head (NUL at the end) and `p++` the tail. The functions
-- that write take the byte memory and addresses; a scan for a NUL in memory runs on fuel, and
-- `none` means that it ran out.
pub mod Compare
pub mod Number
pub mod Copy
mod Tests
use sometuffcoolpr.Prelude.{
  ℕ, zero, suc, ◌+◌, ◌-◌, ◌*◌, ◌/◌, ◌%◌, ◌^◌, ◌≡◌, ◌≢◌, Bool, true, false, ◌&&◌, ◌||◌, Option, none,
  some, List, [], ◌∷◌, ltb, leb, ◌==◌, if◌then◌else◌,
}
use sometuffcoolpr.Prelude.Int.{ℤ, pos, negsuc, ◌-ℤ◌}
use sometuffcoolpr.Prelude.Memory.{Memory, write}

abbrev pub CString : Type 0
CString = List ℕ

-- `char` is signed: the byte `c` as an `int`.
abbrev pub char_value : ℕ → ℤ
char_value c = if ltb c 128 then pos c else negsuc (255 - c)

-- `*p`
abbrev pub char_at : CString → ℕ
char_at [] = 0
char_at (c ∷ _) = c

strlen_from : CString → ℕ → ℕ
strlen_from [] len = len
strlen_from (_ ∷ s) len = strlen_from s (len + 1)

unfoldable pub strlen : CString → ℕ
unfolding strlen_from
strlen s = strlen_from s 0

unfoldable pub strcmp : CString → CString → ℤ
strcmp (x ∷ a) (y ∷ b) = if x == y then strcmp a b else char_value x -ℤ char_value y
strcmp a b = char_value (char_at a) -ℤ char_value (char_at b)

pub strncmp : CString → CString → ℕ → ℤ
strncmp a b zero = pos 0
strncmp (x ∷ a) (y ∷ b) (suc n) = if x == y then strncmp a b n else char_value x -ℤ char_value y
strncmp a b (suc n) = char_value (char_at a) -ℤ char_value (char_at b)

-- The value that is copied is the one tested.
strcpy_loop : ℕ → Memory → ℕ → ℕ → Option Memory
strcpy_loop zero m dest src = none
strcpy_loop (suc k) m dest src =
    let rest = strcpy_loop k (write m dest (m src)) (dest + 1) (src + 1) in
    if m src == 0 then some (write m dest (m src)) else rest

pub strcpy : ℕ → Memory → ℕ → ℕ → Option Memory
unfolding strcpy_loop
strcpy fuel m dest src = strcpy_loop fuel m dest src

-- The second loop of `strncpy`.
strncpy_fill : ℕ → Memory → ℕ → Memory
strncpy_fill zero m dest = m
strncpy_fill (suc n) m dest = strncpy_fill n (write m dest 0) (dest + 1)

pub strncpy : Memory → ℕ → ℕ → ℕ → Memory
unfolding strncpy_fill
strncpy m dest src zero = m
strncpy m dest src (suc n) =
    let rest = strncpy (write m dest (m src)) (dest + 1) (src + 1) n in
    if m src == 0 then strncpy_fill (suc n) m dest else rest

pub memcpy : Memory → ℕ → ℕ → ℕ → Memory
memcpy m dest src zero = m
memcpy m dest src (suc n) = memcpy (write m dest (m src)) (dest + 1) (src + 1) n

pub memset : Memory → ℕ → ℕ → ℕ → Memory
memset m dest value zero = m
memset m dest value (suc n) = memset (write m dest (value % 256)) (dest + 1) value n

-- `while (*dest != '\0') dest++;`
strcat_end : ℕ → Memory → ℕ → Option ℕ
strcat_end zero m dest = none
strcat_end (suc k) m dest =
    let rest = strcat_end k m (dest + 1) in if m dest == 0 then some dest else rest

pub strcat : ℕ → Memory → ℕ → ℕ → Option Memory
unfolding strcat_end strcpy_loop
strcat fuel m dest src = elim (strcat_end fuel m dest) [
  | none ↦ none
  | some end ↦ strcpy_loop fuel m end src
]

-- `int` arithmetic is done on the 32-bit pattern.
abbrev pub u32 : ℕ → ℕ
u32 n = n % 2 ^ 32

atoi_loop : CString → ℕ → ℕ
atoi_loop [] result = result
atoi_loop (c ∷ s) result =
    let rest = atoi_loop s (u32 (result * 10 + (c - b'0'))) in
    if ltb c b'0' || ltb b'9' c then result else rest

unfoldable pub atoi : CString → ℕ
unfolding atoi_loop
atoi s = atoi_loop s 0

unfoldable pub hex_digit : ℕ → Option ℕ
hex_digit c =
    if leb b'0' c && leb c b'9'
    then some (c - b'0')
    else if leb b'a' c && leb c b'f'
    then some (c - b'a' + 10)
    else if leb b'A' c && leb c b'F'
    then some (c - b'A' + 10)
    else none

unfoldable pub skip_0x : CString → CString
skip_0x (z ∷ x ∷ s) = if z == b'0' && (x == b'x' || x == b'X') then s else z ∷ x ∷ s
skip_0x s = s

unfoldable pub atoi_hex_loop : CString → ℕ → ℕ
unfolding hex_digit
atoi_hex_loop [] result = result
atoi_hex_loop (c ∷ s) result = elim (hex_digit c) [
  | none ↦ result
  | some value ↦ atoi_hex_loop s (u32 (result * 16 + value))
]

unfoldable pub atoi_hex : CString → ℕ
unfolding atoi_hex_loop skip_0x
atoi_hex s = atoi_hex_loop (skip_0x s) 0

-- The byte of a digit, which is stored in a `char`.
utoa_digit : ℕ → ℕ
utoa_digit d = (if ltb d 10 then b'0' + d else b'A' + (d - 10)) % 256

-- `while (value != 0)`: the digits, last one first; the end of the output is returned.
utoa_emit : ℕ → Memory → ℕ → ℕ → ℕ → Option (Memory × ℕ)
utoa_emit zero m ptr value base = none
utoa_emit (suc k) m ptr value base =
    let rest =
      utoa_emit k (write m ptr (utoa_digit (value % base))) (ptr + 1) (value / base) base in
    if value == 0 then some (m, ptr) else rest

-- `while (ptr1 < ptr)`: swap the two bytes and move both inwards.
utoa_reverse : ℕ → Memory → ℕ → ℕ → Option Memory
utoa_reverse zero m ptr1 ptr = none
utoa_reverse (suc k) m ptr1 ptr =
    let rest = utoa_reverse k (write (write m ptr (m ptr1)) ptr1 (m ptr)) (ptr1 + 1) (ptr - 1) in
    if ltb ptr1 ptr then rest else some m

-- `*ptr-- = '\0'` comes after at least one digit, so `ptr - 1` does not stop at 0.
unfoldable pub utoa : ℕ → Memory → ℕ → ℕ → ℕ → Option Memory
unfolding utoa_digit utoa_emit utoa_reverse
utoa fuel m value buffer base =
    if value == 0
    then some (write (write m buffer b'0') (buffer + 1) 0)
    else elim (utoa_emit fuel m buffer value base) [
      | none ↦ none
      | some (m', ptr) ↦ utoa_reverse fuel (write m' ptr 0) buffer (ptr - 1)
    ]
