-- ===== src/Interning.antt =====
-- src/xanString.c, `tableFindString` of src/table.c and `concatenate` of src/vm.c: strings and the table
-- that keeps one object for each text. A string object is found by its address; the address of a new
-- object is an argument, and a collection when it is allocated is a step of its own.
pub mod Search
pub mod Plain
pub mod Texts
pub mod Lookup
pub mod Copies
pub mod Equality
pub mod Kept
use xan.Base.{
  ℕ, zero, suc, ◌+◌, ◌-◌, ◌*◌, ◌%◌, ◌^◌, bit_and, bit_xor, Bool, true, false, ◌&&◌, List, [], ◌∷◌,
  ◌++◌, Option, none, some, ◌>>=◌, if◌then◌else◌, ltb, ◌==◌, length,
}
use xan.Base.Bytes.{same_bytes}
use xan.Value.{Val, Value, nil, bool, number, obj, is_nil, Number, Strings}
use xan.Table.{Table, key, value, table_set}

-- `ObjString`. Its class is the same for every string.
pub record ObjString : Type 0 where
  pub chars : List ℕ
  pub length : ℕ
  pub hash : ℕ

-- `char` is signed: a byte from 128 on is a negative number, which `^=` takes modulo 2 ^ 32.
abbrev pub sign_extended : ℕ → ℕ
sign_extended c = if ltb c 128 then c else c + (2 ^ 32 - 256)

-- The loop of `hashString` over the rest of the key.
unfoldable pub hash_from : ℕ → List ℕ → ℕ
hash_from h [] = h
hash_from h (c ∷ cs) = hash_from (bit_xor h (sign_extended c) * 16777619 % 2 ^ 32) cs

unfoldable pub hash_string : List ℕ → ℕ
unfolding hash_from
hash_string chars = hash_from 2166136261 chars

-- What the table reads of the objects that are strings.
abbrev pub strings_of : (ℕ → Option ObjString) → Strings
strings_of heap = record {
  is_string = λ p. elim (heap p) [ none ↦ false | some s ↦ true ];
  hash_of = λ p. elim (heap p) [ none ↦ 0 | some s ↦ s.hash ];
}

-- The condition of `tableFindString` on a string that it meets.
abbrev pub is_text : ObjString → List ℕ → ℕ → ℕ → Bool
is_text s chars len hash = (s.length == len) && (s.hash == hash) && same_bytes s.chars chars

-- The objects that are strings, and `vm->strings`.
pub record Interner (D : Type 0) : Type 0 where
  pub heap : ℕ → Option ObjString
  pub strings : Table D

abbrev pub put : (ℕ → Option ObjString) → ℕ → ObjString → ℕ → Option ObjString
put heap p s q = if q == p then some s else heap q

module _ (N : Number) where
  -- The loop of `tableFindString`; `none` inside is `NULL`. `none` outside is a failed assertion, or a
  -- search that goes on for ever.
  unfoldable pub find_from :
      (ℕ → Option ObjString) → ℕ → List (Val N) → ℕ → List ℕ → ℕ → ℕ → ℕ → Option (Option ℕ)
  find_from heap zero es mask chars len hash index = none
  find_from heap (suc fuel) es mask chars len hash index =
      let next = bit_and ((index + 2) % 2 ^ 32) mask in
      let walk = find_from heap fuel es mask chars len hash next in
      elim (key es index) [
        | nil ↦ if is_nil (value es index) then some none else walk
        | bool b ↦ none
        | number d ↦ none
        | obj p ↦ elim (heap p) [
          | none ↦ none
          | some s ↦ if is_text s chars len hash then some (some p) else walk
        ]
      ]

  unfoldable pub table_find_string :
      (ℕ → Option ObjString) → Table N.Double → List ℕ → ℕ → ℕ → Option (Option ℕ)
  unfolding find_from
  table_find_string heap t chars len hash =
      find_from heap (t.capacity_mask + 1) t.entries t.capacity_mask chars len hash
        (bit_and hash (t.capacity_mask - 1) % 2 ^ 32)

  -- The new object stands at `p`.
  unfoldable pub allocate_string :
      Interner N.Double → ℕ → List ℕ → ℕ → ℕ → Option (ℕ × Interner N.Double)
  allocate_string st p chars len hash =
      let heap = put st.heap p (record { chars = chars; length = len; hash = hash }) in
      do
        r ← table_set N (strings_of heap) st.strings (obj p) nil
        some (p, record { heap = heap; strings = r.1 })

  -- `copyString`; `takeString` differs in whose bytes the new object keeps.
  unfoldable pub copy_string : Interner N.Double → ℕ → List ℕ → Option (ℕ × Interner N.Double)
  unfolding hash_string table_find_string allocate_string
  copy_string st p chars = do
    interned ← table_find_string st.heap st.strings chars (length chars) (hash_string chars)
    elim interned [
      | none ↦ allocate_string st p chars (length chars) (hash_string chars)
      | some q ↦ some (q, st)
    ]

  abbrev pub take_string : Interner N.Double → ℕ → List ℕ → Option (ℕ × Interner N.Double)
  take_string st p chars = copy_string st p chars

  -- `none` also where an operand is no string, which the run loop checks before.
  unfoldable pub concatenate : Interner N.Double → ℕ → ℕ → ℕ → Option (ℕ × Interner N.Double)
  unfolding copy_string
  concatenate st p b c = do sb ← st.heap b; sc ← st.heap c; take_string st p (sb.chars ++ sc.chars)
