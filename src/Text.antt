-- ===== src/Text.antt =====
-- Go's strings, and the functions of the packages strings and strconv that the program calls.
mod Codes
mod Integers
mod Search
mod Pieces
mod Parts
mod Decimal
mod Printed
unfoldable pub use Codes.*
unfoldable pub use Integers.*
unfoldable pub use Search.*
unfoldable pub use Pieces.*
unfoldable pub use Parts.*
unfoldable pub use Decimal.*
unfoldable pub use Printed.*
