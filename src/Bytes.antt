-- ===== src/Bytes.antt =====
-- Rust's `str`, `String`, `Vec<u8>` and `&[u8]` are byte strings: lists of numbers, each a byte
-- where that matters. A `str` is compared byte by byte, so its order is the one of its bytes. What
-- `char` and UTF-8 decoding do is not used but through parameters of the functions that need it.
pub mod Compare
pub mod Sorting
pub mod Ordered
pub mod Separator
pub mod Words
pub mod Text
use rewind_git_for_ai_agent.Prelude.{ℕ, ◌<◌, List, ◌≡◌, Ordering, Bool, true, false}
unfoldable pub use Compare.{cmp, bytes_eq, bytes_lt}
pub use Compare.{Lt}

abbrev pub Bytes : Type 0
Bytes = List ℕ

abbrev pub IsByte : ℕ → Type 0
IsByte b = b < 256
