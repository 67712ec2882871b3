-- ===== src/Tests/Collections.antt =====
-- The collector of src/memory.c on a heap of four objects: the table of strings, a thread, a string
-- on its stack, and a string that nothing uses.
use xan.Base.{
  some-injective, ◌≤◌, length, ℕ, zero, suc, Bool, ◌<◌, ◌≡◌, ◌⊎◌, inl, inr, refl, sym, ◌∙◌, arith,
  true, false, List, [], ◌∷◌, Option, none, some, IsIn,
}
use mathlib.Core.Path.{subst}
use xan.Value.{Value, nil, bool, obj, values_equal, hash}
use xan.Table.{Table, table_set, grow, find_entry, probe, store, is_white, table_remove_white}
use xan.Table.Writes.{update}
use xan.Table.Model.{Models}
use xan.Table.Methods.{table_set-Models}
use xan.Table.RemoveWhite.{table_remove_white-Models}
use xan.Collector.Roots.{Slot, value, shift}
use xan.Collector.Walk.{IsLinked, bottom, c_frame}
use xan.Collector.References.{IsSound}
use xan.Collector.{
  Body, Thread, array_body, table_body, thread_body, string_body, Object, Heap, Machine,
  body_targets, sweep, write_barrier,
}
use xan.Collector.Marking.{black, body_at}
use xan.Collector.Sweeping.{Sweeps, sweep-Sweeps}
use xan.Collector.Collect.{IsQuiet}
use xan.Collector.Barrier.{grey, with_body, IsGuarded, write_barrier-IsGuarded}
use xan.Tests.Tables.{empty_table, nothing, empty_table-Models}
use xan.Tests.{whole_numbers, plain_strings}

abbrev first_string : Table ℕ
first_string = record {
  count = 1;
  capacity_mask = 7;
  entries = nil ∷ nil ∷ obj 2 ∷ bool true ∷ nil ∷ nil ∷ nil ∷ nil ∷ [];
}

abbrev two_strings : Table ℕ
two_strings = record {
  count = 2;
  capacity_mask = 7;
  entries = nil ∷ nil ∷ obj 2 ∷ bool true ∷ obj 3 ∷ bool true ∷ nil ∷ nil ∷ [];
}

first_string_run :
    table_set whole_numbers plain_strings empty_table (obj 2) (bool true)
    ≡ some (true, first_string)
unfolding table_set grow find_entry probe store hash values_equal
first_string_run = refl

two_strings_run :
    table_set whole_numbers plain_strings first_string (obj 3) (bool true)
    ≡ some (true, two_strings)
unfolding table_set grow find_entry probe store hash values_equal
two_strings_run = refl

abbrev interned_one : Value ℕ → Option (Value ℕ)
interned_one = update whole_numbers plain_strings nothing (obj 2) (some (bool true))

abbrev interned : Value ℕ → Option (Value ℕ)
interned = update whole_numbers plain_strings interned_one (obj 3) (some (bool true))

pair_inj : {a b : Bool × Table ℕ} → some a ≡ some b → a.1 ≡ b.1
pair_inj h = cc

two_strings-Models : Models whole_numbers plain_strings two_strings interned
two_strings-Models =
    let (t, run, m) =
      table_set-Models whole_numbers plain_strings empty_table nothing empty_table-Models (obj 2)
        (bool true) refl (omega arith) in
    let m1 : Models whole_numbers plain_strings first_string interned_one =
      subst (λ t. Models whole_numbers plain_strings t interned_one)
        (pair_inj (sym run ∙ first_string_run)) m in
    let (t', run', m') =
      table_set-Models whole_numbers plain_strings first_string interned_one m1 (obj 3) (bool true)
        refl (omega arith) in
    subst (λ t. Models whole_numbers plain_strings t interned)
      (pair_inj (sym run' ∙ two_strings_run)) m'

abbrev third_is_white : ℕ → Bool
third_is_white p = elim p [
  | zero ↦ false
  | suc a ↦ elim a [ zero ↦ false | suc b ↦ elim b [ zero ↦ false | suc c ↦ true ] ]
]

table_remove_white-Models_example :
    (t' : Table ℕ) × (table_remove_white whole_numbers plain_strings third_is_white two_strings
      ≡ some t')
    × ((g : Value ℕ → Option (Value ℕ)) × Models whole_numbers plain_strings t' g
        × ((q : Value ℕ) → is_white third_is_white q ≡ false → g q ≡ interned q)
        × ((q : Value ℕ) → is_white third_is_white q ≡ true → g q ≡ none))
table_remove_white-Models_example =
    table_remove_white-Models whole_numbers plain_strings third_is_white interned two_strings
      two_strings-Models

abbrev plain : Bool → Bool → Body ℕ → Object ℕ
plain black grey b = record { is_black = black; is_grey = grey; body = b }

abbrev one_frame : List (Slot ℕ)
one_frame = value nil ∷ value nil ∷ shift 4 ∷ value nil ∷ value (obj 2) ∷ []

one_frame-IsLinked : IsLinked one_frame 4
one_frame-IsLinked = c_frame 0 4 (omega arith) refl refl (bottom refl)

abbrev small_heap : Heap ℕ
small_heap = record {
  cells =
      plain false true (table_body two_strings)
      ∷ plain false false (
          thread_body (record {
            stack = one_frame;
            base = 4;
            exception = nil;
            open_upvalues = [];
            compilers = [];
            class_compilers = [];
          }))
      ∷ plain false false (string_body none none)
      ∷ plain false true (string_body none none)
      ∷ [];
  objects = 3 ∷ 2 ∷ 1 ∷ 0 ∷ [];
  gray_stack = [];
}

abbrev small_machine : Machine
small_machine = record {
  init_string = none;
  new_string = none;
  globals = none;
  builtin_mods = none;
  strings = some 0;
  base_thread = some 1;
}

four : (P : ℕ → Type 0) → P 0 → P 1 → P 2 → P 3 → (a : ℕ) → a < 4 → P a
four P p0 p1 p2 p3 zero h = p0
four P p0 p1 p2 p3 (suc zero) h = p1
four P p0 p1 p2 p3 (suc (suc zero)) h = p2
four P p0 p1 p2 p3 (suc (suc (suc zero))) h = p3
four P p0 p1 p2 p3 (suc (suc (suc (suc a)))) h = absurd (omega arith)

small_heap-IsSound : (a : ℕ) → IsSound (body_at small_heap a)
small_heap-IsSound zero t e = cc
small_heap-IsSound (suc zero) t e =
    subst (λ (u : Thread ℕ). IsLinked u.stack u.base × (u.base ≤ length u.stack)) (thread_inj e)
      (one_frame-IsLinked, omega arith)
  where
    thread_inj : {u v : Thread ℕ} → thread_body u ≡ thread_body v → u ≡ v
    thread_inj e = cc
small_heap-IsSound (suc (suc zero)) t e = cc
small_heap-IsSound (suc (suc (suc zero))) t e = cc
small_heap-IsSound (suc (suc (suc (suc a)))) t e = cc

small_heap-IsQuiet : IsQuiet small_heap small_machine
small_heap-IsQuiet = record {
  all_white = four (λ a. black small_heap a ≡ false) refl refl refl refl;
  no_gray = refl;
  distinct = (
    (omega arith, (omega arith, (omega arith, tt))),
    ((omega arith, (omega arith, tt)), ((omega arith, tt), (tt, tt))),
  );
  inside = λ a i. ground (arith, i);
  listed = λ a inside live.
      four (λ a. IsIn a small_heap.objects) (inr (inr (inr (inl refl)))) (inr (inr (inl refl)))
        (inr (inl refl)) (inl refl) a inside;
  sound = small_heap-IsSound;
  strings_listed = λ a w. inr (inr (inr (inl (some-injective w))));
}

sweep-Sweeps_example :
    Sweeps false small_heap.objects small_heap (sweep false small_heap).0 (sweep false small_heap).1
sweep-Sweeps_example = sweep-Sweeps false small_heap small_heap-IsQuiet.distinct

-- An old array at 1 that is about to hold the new string at 2.
abbrev old_heap : Heap ℕ
old_heap = record {
  cells =
      plain true true (table_body two_strings)
      ∷ plain true false (array_body none none [])
      ∷ plain false true (string_body none none)
      ∷ plain true false (string_body none none)
      ∷ [];
  objects = 3 ∷ 2 ∷ 1 ∷ 0 ∷ [];
  gray_stack = [];
}

no_pointers : (b : ℕ) → IsIn (some b) (none ∷ none ∷ []) → ⊥
no_pointers b (inl e) = cc
no_pointers b (inr (inl e)) = cc
no_pointers b (inr (inr n)) = elim n [ ]

old_closed :
    (a : ℕ)
    → black old_heap a ≡ true
    → (some a ≡ some 0)
      ⊎ (IsIn a old_heap.gray_stack
          ⊎ ((b : ℕ) → IsIn (some b) (body_targets (body_at old_heap a)) → black old_heap b ≡ true))
unfolding body_targets
old_closed zero is = inl refl
old_closed (suc zero) is = inr (inr (λ b i. absurd (no_pointers b i)))
old_closed (suc (suc zero)) is = cc
old_closed (suc (suc (suc zero))) is = inr (inr (λ b i. absurd (no_pointers b i)))
old_closed (suc (suc (suc (suc a)))) is = inr (inr (λ b i. elim i [ ]))

old_flagged :
    (a : ℕ)
    → a < 4
    → black old_heap a ≡ true
    → grey old_heap a ≡ true
    → (some a ≡ some 0) ⊎ IsIn a old_heap.gray_stack
old_flagged zero inside is at = inl refl
old_flagged (suc zero) inside is at = cc
old_flagged (suc (suc zero)) inside is at = cc
old_flagged (suc (suc (suc zero))) inside is at = cc
old_flagged (suc (suc (suc (suc a)))) inside is at = absurd (omega arith)

old_grey : (a : ℕ) → some a ≡ some 0 → grey old_heap a ≡ true
old_grey zero e = refl
old_grey (suc a) e = cc

old_heap-IsGuarded : IsGuarded old_heap (some 0)
old_heap-IsGuarded = record {
  closed = old_closed;
  flagged = old_flagged;
  gray_strong = λ a i. elim i [ ];
  weak_grey = old_grey;
}

write_barrier-IsGuarded_example :
    IsGuarded (write_barrier (with_body old_heap 1 (array_body none none (obj 2 ∷ []))) 1) (some 0)
write_barrier-IsGuarded_example =
    write_barrier-IsGuarded old_heap (some 0) 1 (array_body none none (obj 2 ∷ []))
      old_heap-IsGuarded (omega arith)

abbrev two_frames : List (Slot ℕ)
two_frames =
    value nil
    ∷ shift 3
    ∷ value nil
    ∷ value (obj 2)
    ∷ value nil
    ∷ shift 4
    ∷ value nil
    ∷ value (obj 3)
    ∷ []
