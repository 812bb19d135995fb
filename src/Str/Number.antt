-- ===== src/Str/Number.antt =====
-- `utoa`, `atoi` and `atoi_hex` of src/kernel/lib/string.c and the numerals they print and read.
mod Digits
mod Print
mod Read
unfoldable pub use Digits.{digits, numeral}
pub use Digits.{All, All-append, get_or-append, Holds-of_bytes, length-numeral}
pub use Print.{utoa-Holds}
pub use Read.*
