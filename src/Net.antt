-- ===== src/Net.antt =====
-- Network addresses: their types with their equality tests, and the parser of a socket address.
mod Defs
mod Address
pub mod Numbers
pub mod RoundTrip
unfoldable pub use Defs.*
unfoldable pub use Address.*
