-- ===== src/Common.antt =====
-- The names that the other modules share: the libraries', passed on, and those of the children.
pub mod Tests
pub mod Classes
pub mod Lists
pub mod Texts
pub mod Integers
pub use Tests.*
pub use Classes.*
pub use Lists.*
pub use Texts.*
pub use Integers.*
unfoldable pub use Texts.{
  is_word, is_space, is_digit, digit_value, fold, lower, show, number, sorted, strip, join,
}
unfoldable pub use Classes.{elem, difference, distinct}
unfoldable pub use Lists.{lookup, insert}
unfoldable pub use Integers.{show_int, parse_int}
