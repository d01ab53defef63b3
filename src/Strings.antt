-- ===== src/Strings.antt =====
-- What the program uses of Go's packages `strings`, `strconv` and `unicode`. A string is a list of
-- numbers: its code points where the program trims, folds or ranges over it, and its bytes where it
-- slices it by position. Positions found by searching for an ASCII byte mean the same on both.
pub mod Decimal
pub mod Space
pub mod Fields
pub mod Cut
pub mod Fold
pub mod Kept
