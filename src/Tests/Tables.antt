-- ===== src/Tests/Tables.antt =====
-- src/table.c and the values on concrete tables: a new one, and one with a key.
use xan.Base.{
  some-injective, ℕ, Bool, ◌-◌, ◌^◌, ◌≤◌, ◌≡◌, refl, sym, ◌∙◌, arith, true, not, ◌∷◌, replicate,
  Option, none, some,
}
use mathlib.Core.Path.{subst}
use xan.Memory.{round_up_pow_2, smear}
use xan.Value.{Value, nil, bool, number, values_equal, hash, hash-values_equal}
use xan.Table.{
  Table, new_table, table_get, table_set, table_delete, adjust_capacity, reinsert, grow, find_entry,
  probe, store,
}
use xan.Table.Writes.{update}
use xan.Table.Model.{Models, new_table-Models, adjust_capacity-Models}
use xan.Table.Entries.{is_none}
use xan.Table.Methods.{table_get-Models, table_set-Models, table_delete-Models}
use xan.Tests.{whole_numbers, plain_strings}

abbrev pub empty_table : Table ℕ
empty_table = record { count = 0; capacity_mask = 7; entries = replicate 8 nil }

abbrev pub nothing : Value ℕ → Option (Value ℕ)
nothing k = none

pub empty_table-Models : Models whole_numbers plain_strings empty_table nothing
empty_table-Models =
    let (t, run, _, _, m) = new_table-Models whole_numbers plain_strings 4 (omega arith) in
    let e : t ≡ empty_table =
      some-injective
        (sym run ∙ unfold new_table adjust_capacity reinsert round_up_pow_2 smear in refl) in
    subst (λ t. Models whole_numbers plain_strings t nothing) e m

abbrev one_key : Table ℕ
one_key = record {
  count = 1;
  capacity_mask = 7;
  entries = nil ∷ nil ∷ number 3 ∷ bool true ∷ replicate 4 nil;
}

one_key_run :
    table_set whole_numbers plain_strings empty_table (number 3) (bool true) ≡ some (true, one_key)
unfolding table_set grow find_entry probe store hash values_equal
one_key_run = refl

abbrev one : Value ℕ → Option (Value ℕ)
one = update whole_numbers plain_strings nothing (number 3) (some (bool true))

one_key-Models : Models whole_numbers plain_strings one_key one
one_key-Models =
    let (t, run, m) =
      table_set-Models whole_numbers plain_strings empty_table nothing empty_table-Models (number 3)
        (bool true) refl (omega arith) in
    let e : t ≡ one_key = pair_inj (sym run ∙ one_key_run) in
    subst (λ t. Models whole_numbers plain_strings t one) e m
  where
    pair_inj : {a b : Bool × Table ℕ} → some a ≡ some b → a.1 ≡ b.1
    pair_inj h = cc

table_get-Models_example :
    table_get whole_numbers plain_strings one_key (number 3) ≡ some (one (number 3))
table_get-Models_example =
    table_get-Models whole_numbers plain_strings one_key one one_key-Models (number 3)

table_set-Models_example :
    (t : Table ℕ) × (table_set whole_numbers plain_strings one_key (number 11) nil
      ≡ some (is_none (one (number 11)), t))
    × Models whole_numbers plain_strings t
        (update whole_numbers plain_strings one (number 11) (some nil))
table_set-Models_example =
    table_set-Models whole_numbers plain_strings one_key one one_key-Models (number 11) nil refl
      (omega arith)

table_delete-Models_example :
    (t : Table ℕ) × (table_delete whole_numbers plain_strings one_key (number 3)
      ≡ some (not (is_none (one (number 3))), t))
    × Models whole_numbers plain_strings t (update whole_numbers plain_strings one (number 3) none)
table_delete-Models_example =
    table_delete-Models whole_numbers plain_strings one_key one one_key-Models (number 3)

adjust_capacity-Models_example :
    (t : Table ℕ) × (adjust_capacity whole_numbers plain_strings one_key (2 ^ 4 - 1) ≡ some t)
    × (t.capacity_mask ≡ 2 ^ 4 - 1)
    × (t.count ≤ 1)
    × Models whole_numbers plain_strings t one
adjust_capacity-Models_example =
    adjust_capacity-Models whole_numbers plain_strings one_key one 3 (omega arith) (omega arith)
      one_key-Models

hash-values_equal_example :
    hash whole_numbers plain_strings (number 5) ≡ hash whole_numbers plain_strings (number 5)
hash-values_equal_example =
    hash-values_equal whole_numbers plain_strings (number 5) (number 5)
      (unfold values_equal in refl)
