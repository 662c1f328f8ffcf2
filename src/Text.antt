-- ===== src/Text.antt =====
-- The functions of Go's packages `strings` and `path/filepath` (on Unix) that the program calls.
-- A Go string is modelled as the text that it encodes, so indices count code points, and texts
-- that are no UTF-8 are left out. All the separators are ASCII.
mod Splitting
mod Replacing
pub mod Paths
pub mod Decimal
unfoldable pub use Splitting.*
pub use Replacing.*
