-- ===== src/Bitmap.antt =====
-- `Bitmap<N>` of tcmalloc/internal/range_tracker.h, word by word.
pub mod Word
pub mod Defs
pub mod Bits
pub mod Masks
pub mod Fill
pub mod Ranges
pub mod Search
pub mod Find
pub mod Backwards
pub mod FreeRange
pub mod Operators
