-- ===== src/Merge.antt =====
-- src/resultset_merge.c: the rows of several servers made into one result.
pub mod Digits
pub mod Compare
pub mod Aggregate
pub mod Record
pub mod Having
pub mod Columns
pub mod Order
pub mod Heap
pub mod Cache
pub mod Sort
pub mod Value
pub mod Addition
pub mod Subtraction
pub mod Numeral
pub mod Comparison
pub mod Absolute
pub mod Difference
pub mod Signed
pub mod Sum
pub mod Padding
pub mod Decimal
pub mod Prior
pub mod Prefix
mod Tests
