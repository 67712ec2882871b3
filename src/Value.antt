-- ===== src/Value.antt =====
-- src/type.h and src/object.h: the values of the language and their equality, and `hash` of
-- src/table.c. A `double` is a parameter: the type, its `==`, its conversions from and to
-- `int64_t` and its bit pattern, with what IEEE arithmetic promises of them. An object is its
-- address; what a table reads of a string object, its hash, is a parameter too.
use xan.Base.{
  ℕ, ◌/◌, ◌%◌, ◌^◌, ◌<◌, bit_and, bit_xor, Bool, true, false, ◌≡◌, refl, arith, ◌==◌, ==_iff,
  if◌then◌else◌, Bool-cases, inl, inr, ap, ◌∙◌,
}

-- The `double` of the C implementation. An `int64_t` is its 64-bit pattern.
pub record Number : Type 1 where
  pub Double : Type 0
  pub equal : Double → Double → Bool
  pub to_int64 : Double → ℕ
  pub of_int64 : ℕ → Double
  pub bits : Double → ℕ
  pub equal_symm : (a b : Double) → equal a b ≡ equal b a
  pub equal_trans : (a b c : Double) → equal a b ≡ true → equal b c ≡ true → equal a c ≡ true
  pub to_int64-equal : (a b : Double) → equal a b ≡ true → to_int64 a ≡ to_int64 b
  pub bits-equal :
      (a b : Double) → equal a b ≡ true → equal (of_int64 (to_int64 a)) a ≡ false → bits a ≡ bits b
  pub whole : (n : ℕ) → n < 2 ^ 53 → to_int64 (of_int64 n) ≡ n

-- `IS_NIL`, `IS_BOOL`, `IS_NUMBER` and `IS_OBJ` tell the constructors apart.
pub data Value (D : Type 0) : Type 0 where
  nil : Value D
  bool : Bool → Value D
  number : D → Value D
  obj : ℕ → Value D

abbrev pub is_nil : {D : Type 0} → Value D → Bool
is_nil nil = true
is_nil (bool b) = false
is_nil (number d) = false
is_nil (obj p) = false

abbrev same_bool : Bool → Bool → Bool
same_bool true b = b
same_bool false true = false
same_bool false false = true

-- What the code reads of the objects that are strings.
pub record Strings : Type 0 where
  pub is_string : ℕ → Bool
  pub hash_of : ℕ → ℕ

abbrev pub Val : Number → Type 0
Val N = Value N.Double

module _ (N : Number) where
  open N use {
    Double, equal, to_int64, of_int64, bits, equal_symm, equal_trans, to_int64-equal, bits-equal,
  }

  -- `valuesEqual`: numbers by `==`, all else by the bit pattern.
  unfoldable pub values_equal : Value Double → Value Double → Bool
  values_equal (number a) (number b) = equal a b
  values_equal nil nil = true
  values_equal (bool a) (bool b) = same_bool a b
  values_equal (obj p) (obj q) = p == q
  values_equal _ _ = false

  unfoldable pub hash_number : Double → ℕ
  hash_number d =
      if equal (of_int64 (to_int64 d)) d
      then to_int64 d % 2 ^ 32
      else bit_xor (bit_and (bits d) 0xffffffff) (bits d / 2 ^ 32) % 2 ^ 32

  module _ (S : Strings) where
    -- The assertion of `hash`: a key is a string or a number. For what it excludes the model says 0.
    unfoldable pub hash : Value Double → ℕ
    unfolding hash_number
    hash (obj p) = S.hash_of p
    hash (number d) = hash_number d
    hash nil = 0
    hash (bool b) = 0

    abbrev pub is_key : Value Double → Bool
    is_key (obj p) = S.is_string p
    is_key (number d) = true
    is_key nil = false
    is_key (bool b) = false

    pub is_key-ne-nil : (v : Value Double) → is_key v ≡ true → is_nil v ≡ false
    is_key-ne-nil nil h = cc
    is_key-ne-nil (bool b) h = refl
    is_key-ne-nil (number d) h = refl
    is_key-ne-nil (obj p) h = refl

    pub is_key-equal :
        (a b : Value Double) → is_key a ≡ true → values_equal a b ≡ true → is_key b ≡ true
    unfolding values_equal
    is_key-equal (number a) (number b) h e = refl
    is_key-equal (obj p) (obj q) h e = ap S.is_string ((==_iff q p).0 (ground (arith, e))) ∙ h
    is_key-equal _ _ h e = ground arith

    hash_number-equal : (a b : Double) → equal a b ≡ true → hash_number a ≡ hash_number b
    unfolding hash_number
    hash_number-equal a b h = elim (Bool-cases (equal (of_int64 (to_int64 a)) a)) [
      | inl whole ↦
          ground
            (arith, to_int64-equal a b h, whole, equal_trans (of_int64 (to_int64 a)) a b whole h)
      | inr part ↦ ground (
        arith,
        to_int64-equal a b h,
        part,
        bits-equal a b h,
        equal_symm a b,
        equal_trans (of_int64 (to_int64 b)) b a,
      )
    ]

    -- Values that compare equal have the same hash.
    pub hash-values_equal : (a b : Value Double) → values_equal a b ≡ true → hash a ≡ hash b
    unfolding hash values_equal
    hash-values_equal (number a) (number b) h = hash_number-equal a b h
    hash-values_equal (obj p) (obj q) h = ap S.hash_of ((==_iff p q).0 h)
    hash-values_equal _ _ h = ground arith

  pub values_equal_symm : (a b : Value Double) → values_equal a b ≡ values_equal b a
  unfolding values_equal
  values_equal_symm (number a) (number b) = equal_symm a b
  values_equal_symm _ _ = ground arith

  pub values_equal_trans :
      (a b c : Value Double)
      → values_equal a b ≡ true
      → values_equal b c ≡ true
      → values_equal a c ≡ true
  unfolding values_equal
  values_equal_trans (number a) (number b) (number c) p q = equal_trans a b c p q
  values_equal_trans _ _ _ p q = ground arith
