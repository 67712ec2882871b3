-- ===== src/Tests/Texts.antt =====
-- src/xanString.c on concrete texts: an empty table of strings, and one with a string.
use xan.Base.{
  some-injective, ap, ℕ, ◌++◌, ◌==◌, ◌≡◌, ◌↔◌, refl, arith, true, false, List, [], ◌∷◌, replicate,
  none, some, get_or-replicate, sym, ◌∙◌,
}
use mathlib.Core.Path.{subst}
use xan.Memory.{round_up_pow_2, smear}
use xan.Value.{Value, nil, obj, values_equal, hash}
use xan.Table.{
  Table, new_table, table_set, table_remove_white, adjust_capacity, reinsert, grow, find_entry,
  probe, store,
}
use xan.Table.Model.{Models, new_table-Models}
use xan.Interning.{
  Interner, hash_from, hash_string, strings_of, put, find_from, table_find_string, allocate_string,
  copy_string, concatenate,
}
use xan.Interning.Texts.{text, IsInterned}
use xan.Interning.Copies.{Copied, copy_string-Copied}
use xan.Interning.Equality.{concatenate-Copied, copy_string-values_equal}
use xan.Interning.Kept.{without, table_remove_white-IsInterned}
use xan.Tests.{whole_numbers}

abbrev no_strings : Interner ℕ
no_strings = record {
  heap = λ p. none;
  strings = record { count = 0; capacity_mask = 7; entries = replicate 8 nil };
}

abbrev ab : List ℕ
ab = 97 ∷ 98 ∷ []

hash_ab : hash_string ab ≡ 1294271946
unfolding hash_string hash_from
hash_ab = refl

no_strings-Models : Models whole_numbers (strings_of no_strings.heap) no_strings.strings (λ k. none)
no_strings-Models =
    let (t, run, _, _, m) =
      new_table-Models whole_numbers (strings_of no_strings.heap) 4 (omega arith) in
    let e : t ≡ no_strings.strings =
      some-injective
        (sym run ∙ unfold new_table adjust_capacity reinsert round_up_pow_2 smear in refl) in
    subst (λ t. Models whole_numbers (strings_of no_strings.heap) t (λ k. none)) e m

no_strings-IsInterned : IsInterned whole_numbers no_strings
unfolding values_equal
no_strings-IsInterned = record {
  holds = λ k. none;
  models = no_strings-Models;
  plain = λ i. rw (get_or-replicate {A = Value ℕ} 8 i nil) refl;
  texts = λ v held. absurd (differ held);
  alone = λ p q chars hp hq tp tq. absurd (differ hp);
}
  where
    differ : true ≡ false → ⊥
    differ p = cc

abbrev one_string : Interner ℕ
one_string = record {
  heap = put no_strings.heap 10 (text ab);
  strings = record { count = 1; capacity_mask = 7; entries = nil ∷ nil ∷ obj 10 ∷ replicate 5 nil };
}

one_string_run : copy_string whole_numbers no_strings 10 ab ≡ some (10, one_string)
unfolding copy_string table_find_string find_from allocate_string table_set grow find_entry probe
    store hash values_equal hash_string hash_from
one_string_run = refl

one_string-IsInterned : IsInterned whole_numbers one_string
one_string-IsInterned =
    let (p, (st, run, copied)) =
      copy_string-Copied whole_numbers no_strings no_strings-IsInterned ab 10 refl (omega arith) in
    let e : st ≡ one_string =
      ap (λ (r : ℕ × Interner ℕ). r.1) (some-injective (sym run ∙ one_string_run)) in
    subst (λ (st : Interner ℕ). IsInterned whole_numbers st) e copied.interned

-- The second copy of the text is the first object.
same_again : copy_string whole_numbers one_string 11 ab ≡ some (10, one_string)
unfolding copy_string table_find_string find_from hash_string hash_from
same_again = refl

copy_string-Copied_example :
    (p : ℕ) × ((st : Interner ℕ) × (copy_string whole_numbers one_string 11 (99 ∷ [])
        ≡ some (p, st))
      × Copied whole_numbers one_string one_string-IsInterned (99 ∷ []) p st)
copy_string-Copied_example =
    copy_string-Copied whole_numbers one_string one_string-IsInterned (99 ∷ []) 11 refl
      (omega arith)

concatenate-Copied_example :
    (p : ℕ) × ((st : Interner ℕ) × (concatenate whole_numbers one_string 11 10 10 ≡ some (p, st))
      × Copied whole_numbers one_string one_string-IsInterned (ab ++ ab) p st)
concatenate-Copied_example =
    concatenate-Copied whole_numbers one_string one_string-IsInterned 11 10 10 ab ab refl
      (omega arith) refl refl

copy_string-values_equal_example : (values_equal whole_numbers (obj 10) (obj 10) ≡ true) ↔ (ab ≡ ab)
copy_string-values_equal_example =
    copy_string-values_equal whole_numbers no_strings no_strings-IsInterned 10 11 10 10 ab ab
      one_string one_string refl refl (omega arith) (omega arith) one_string_run same_again

table_remove_white-IsInterned_example :
    (t : Table ℕ) × (table_remove_white whole_numbers
        (strings_of one_string.heap)
        (λ p. p == 10)
        one_string.strings
      ≡ some t)
    × ((m : IsInterned whole_numbers
          (record { heap = without (λ p. p == 10) one_string.heap; strings = t }))
        × ((p : ℕ) → (p == 10) ≡ false → m.holds (obj p) ≡ one_string-IsInterned.holds (obj p))
        × ((p : ℕ) → (p == 10) ≡ true → m.holds (obj p) ≡ none))
table_remove_white-IsInterned_example =
    table_remove_white-IsInterned whole_numbers one_string one_string-IsInterned (λ p. p == 10)
