-- ===== src/Common/Bits.antt =====
-- The binary digits of a word. `bit n i` is `(n >> i) & 1`; every law of the words' operations is
-- stated by it, and words with the same digits are equal.
mod Step
mod Laws
mod Ext
mod Top
pub use Step.*
pub use Laws.*
pub use Ext.*
pub use Top.*
