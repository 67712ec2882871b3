-- ===== src/Tests/Arrays.antt =====
-- src/array.c and src/chunk.c on concrete arrays and chunks.
use mathlib.Core.Path.{subst}
use xan.Base.{
  some-injective, ℕ, ◌≡◌, refl, sym, ◌∙◌, arith, true, [], ◌∷◌, ◌++◌, none, some, ◌>>=◌, ltb, ◌==◌,
  if◌then◌else◌, length, get_or, replicate, pos,
}
use xan.Memory.{round_up_pow_2, smear}
use xan.Value.{Value, nil, bool, number}
use xan.Array.{
  ObjArray, array_init, new_array, set_array, get_array, write_value_array, duplicate_array,
}
use xan.Array.Contents.{put, Holds}
use xan.Array.Methods.{
  set_array-Holds, write_value_array-Holds, get_array-set_array, array_init-Holds,
  duplicate_array-Holds,
}
use xan.Chunk.{Chunk, init_chunk, add_constant}
use xan.Chunk.Code.{HoldsCode}
use xan.Chunk.Pool.{Pools, Added, init_chunk-Pools, add_constant-Added}
use xan.Table.{new_table, adjust_capacity, reinsert}
use xan.Tests.{whole_numbers, plain_strings}

abbrev three : ObjArray ℕ
three = array_init 3 (number 7)

three-Holds : Holds three (number 7 ∷ number 7 ∷ number 7 ∷ [])
three-Holds = array_init-Holds 3 (number 7) (omega arith)

array_init-Holds_example : Holds {D = ℕ} (array_init 5 (bool true)) (replicate 5 (bool true))
array_init-Holds_example = array_init-Holds {D = ℕ} 5 (bool true) (omega arith)

set_array-Holds_example :
    (a : ObjArray ℕ) × (set_array three (pos 6) nil ≡ some a)
    × Holds a (put (number 7 ∷ number 7 ∷ number 7 ∷ []) 6 nil)
set_array-Holds_example =
    set_array-Holds three (number 7 ∷ number 7 ∷ number 7 ∷ []) 6 nil three-Holds (omega arith)

write_value_array-Holds_example :
    Holds (write_value_array three nil) ((number 7 ∷ number 7 ∷ number 7 ∷ []) ++ nil ∷ [])
write_value_array-Holds_example =
    write_value_array-Holds three (number 7 ∷ number 7 ∷ number 7 ∷ []) nil three-Holds

get_array-set_array_example : (set_array three (pos 6) (bool true) >>= λ a. get_array a (pos 4)) ≡ (
    if 4 == 6
    then some (some (bool true))
    else if ltb 4 (length {A = Value ℕ} (number 7 ∷ number 7 ∷ number 7 ∷ []))
    then some (some (get_or (number 7 ∷ number 7 ∷ number 7 ∷ []) 4 nil))
    else if ltb 4 6
    then some (some nil)
    else none)
get_array-set_array_example =
    get_array-set_array three (number 7 ∷ number 7 ∷ number 7 ∷ []) 6 4 (bool true) three-Holds
      (omega arith)

duplicate_array-Holds_example : Holds (duplicate_array three) (number 7 ∷ number 7 ∷ number 7 ∷ [])
duplicate_array-Holds_example =
    duplicate_array-Holds three (number 7 ∷ number 7 ∷ number 7 ∷ []) three-Holds
      (unfold array_init new_array in omega arith)

init_chunk-Pools_example :
    (c : Chunk ℕ) × (init_chunk whole_numbers plain_strings ≡ some c)
    × Pools whole_numbers plain_strings c [] (λ _. none)
    × (c.count ≡ 0)
init_chunk-Pools_example = init_chunk-Pools whole_numbers plain_strings

abbrev first_chunk : Chunk ℕ
first_chunk = record {
  count = 0;
  capacity = 0;
  code = [];
  lines = [];
  constants = new_array 0;
  constant_indices = record { count = 0; capacity_mask = 1; entries = nil ∷ nil ∷ [] };
}

first_chunk-Pools : Pools whole_numbers plain_strings first_chunk [] (λ _. none)
first_chunk-Pools =
    let (c, run, p, _) = init_chunk-Pools whole_numbers plain_strings in
    let e : c ≡ first_chunk = some-injective (
      sym run
      ∙ unfold init_chunk new_table adjust_capacity reinsert round_up_pow_2 smear in refl) in
    subst (λ c. Pools whole_numbers plain_strings c [] (λ _. none)) e p

add_constant-Added_example :
    (i : ℕ) × ((c : Chunk ℕ) × (add_constant whole_numbers plain_strings first_chunk (number 3)
        ≡ some (i, c))
      × Added whole_numbers plain_strings first_chunk [] (number 3) i c)
add_constant-Added_example =
    add_constant-Added whole_numbers plain_strings first_chunk [] (λ _. none) (number 3)
      first_chunk-Pools (omega arith) (omega arith)

first_chunk-HoldsCode : HoldsCode first_chunk [] []
first_chunk-HoldsCode = record {
  code_is = record {
    counted = refl;
    wide = refl;
    fits = omega arith;
    reads = λ i lt. absurd (omega arith);
  };
  lines_is = record {
    counted = refl;
    wide = refl;
    fits = omega arith;
    reads = λ i lt. absurd (omega arith);
  };
}
