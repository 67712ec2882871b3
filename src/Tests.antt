-- ===== src/Tests.antt =====
-- Doubles and strings that are plain numbers, and the tests on them.
pub mod Instructions
pub mod Scanning
pub mod Arrays
pub mod Jumps
pub mod Tables
pub mod Collections
pub mod Stacks
pub mod Naming
pub mod Running
pub mod Texts
pub mod Expressions
use xan.Base.{ℕ, ◌%◌, ◌^◌, ◌==◌, true, false, arith}
use xan.Value.{Number, Strings}

abbrev pub whole_numbers : Number
whole_numbers = record {
  Double = ℕ;
  equal = λ a b. a == b;
  to_int64 = λ d. d % 2 ^ 64;
  of_int64 = λ n. n;
  bits = λ d. d % 2 ^ 64;
  equal_symm = λ a b. ground arith;
  equal_trans = λ a b c p q. ground arith;
  to_int64-equal = λ a b p. ground arith;
  bits-equal = λ a b p q. ground arith;
  whole = λ n h. omega arith;
}

abbrev pub plain_strings : Strings
plain_strings = record { is_string = λ p. true; hash_of = λ p. p % 2 ^ 32 }
