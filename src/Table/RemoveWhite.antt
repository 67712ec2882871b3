-- ===== src/Table/RemoveWhite.antt =====
-- `tableRemoveWhite` on a table that represents a function.
use native.Mathlib.Nat.{pow-suc, one-le-pow}
use native.Mathlib.Decide.{ℕ_discrete}
use xan.Base.{
  clash, some-injective, ℕ, zero, suc, ◌+◌, ◌*◌, ◌/◌, ◌^◌, ◌<◌, ◌≡◌, refl, ap, ◌∙◌, ◌⊎◌, inl, inr,
  arith, Bool, true, false, Option, none, some, Bool-cases, ==_iff, ◌==◌, length,
}
use xan.Value.{Val, nil, bool, number, obj, Number, Strings, is_nil, values_equal}
use xan.Table.{Table, key, table_delete, bury, is_white, remove_white_from, table_remove_white}
use xan.Table.Slots.{Says, Finds, present, absent}
use xan.Table.Counting.{key-write}
use xan.Table.Writes.{update}
use xan.Table.Model.{Models, search-Finds}
use xan.Table.Methods.{table_delete-Models}

module _ (N : Number) (S : Strings) where
  -- Entries only lose their keys.
  record Shrinks (t t' : Table N.Double) : Type 0 where
    mask_same : t'.capacity_mask ≡ t.capacity_mask
    keys :
        (s : ℕ) → (key t'.entries (2 * s) ≡ key t.entries (2 * s)) ⊎ (key t'.entries (2 * s) ≡ nil)

  Shrinks-refl : (t : Table N.Double) → Shrinks t t
  Shrinks-refl t = record { mask_same = refl; keys = λ s. inl refl }

  bury-Shrinks :
      (t : Table N.Double) (s : ℕ) → 2 * s + 1 < length t.entries → Shrinks t (bury N S t (2 * s)).1
  unfolding bury
  bury-Shrinks t s fits = elim (Bool-cases (is_nil (key t.entries (2 * s)))) [
    | inl dead ↦ rw dead (Shrinks-refl t)
    | inr live ↦ rw live (record {
      mask_same = refl;
      keys = λ r. ground (arith, key-write t.entries s nil (bool true) fits r);
    })
  ]

  table_delete-Shrinks :
      (t : Table N.Double) (f : Val N → Option (Val N)) (x : Val N) (b : Bool) (t' : Table N.Double)
      → Models N S t f
      → table_delete N S t x ≡ some (b, t')
      → Shrinks t t'
  unfolding table_delete
  table_delete-Shrinks t f x b t' m run = elim (Bool-cases (t.count == 0)) [
    | inl vacant ↦
        let e : t ≡ t' =
          ap (λ (r : Bool × Table N.Double). r.1) (some-injective (rw vacant at run)) in
        rw (← e) (Shrinks-refl t)
    | inr filled ↦
        let (i, found, finds) = search-Finds N S t f x m in
        let (s, ls, at) = slot i finds in
        let e : (bury N S t i).1 ≡ t' =
          ap (λ (r : Bool × Table N.Double). r.1) (some-injective (rw (filled, found) at run)) in
        rw (← e, at) (bury-Shrinks t s (omega (arith, m.placed.width, pow-suc 2 m.exponent)))
  ]
    where
      slot :
          (i : ℕ)
          → Finds N S m.exponent t.entries x i
          → (s : ℕ) × (s < 2 ^ m.exponent) × (i ≡ 2 * s)
      slot i (present s ls at here same) = (s, ls, at)
      slot i (absent s ls at dead r says) = (s, ls, at)

  -- A white key is an object, which is equal to itself only.
  white_self : (white : ℕ → Bool) (x : Val N) → is_white white x ≡ true → values_equal N x x ≡ true
  unfolding values_equal
  white_self white nil h = cc
  white_self white (bool b) h = cc
  white_self white (number d) h = cc
  white_self white (obj p) h = ground arith

  white_live : (white : ℕ → Bool) (x : Val N) → is_white white x ≡ true → is_nil x ≡ false
  white_live white nil h = cc
  white_live white (bool b) h = refl
  white_live white (number d) h = refl
  white_live white (obj p) h = refl

  white_equal :
      (white : ℕ → Bool) (q x : Val N)
      → is_white white x ≡ true
      → values_equal N q x ≡ true
      → is_white white q ≡ true
  unfolding values_equal
  white_equal white q nil h same = cc
  white_equal white q (bool b) h same = cc
  white_equal white q (number d) h same = cc
  white_equal white nil (obj p) h same = cc
  white_equal white (bool b) (obj p) h same = cc
  white_equal white (number d) (obj p) h same = cc
  white_equal white (obj q) (obj p) h same = rw ((==_iff q p).0 same) h

  equal_white :
      (white : ℕ → Bool) (q x : Val N)
      → is_white white q ≡ true
      → values_equal N q x ≡ true
      → is_white white x ≡ true
  unfolding values_equal
  equal_white white nil x h same = cc
  equal_white white (bool b) x h same = cc
  equal_white white (number d) x h same = cc
  equal_white white (obj q) nil h same = cc
  equal_white white (obj q) (bool b) h same = cc
  equal_white white (obj q) (number d) h same = cc
  equal_white white (obj q) (obj p) h same = rw (← (==_iff q p).0 same) h

  module _ (white : ℕ → Bool) (f : Val N → Option (Val N)) where
    -- The table between two rounds: the entries before `j` have no white key.
    record IsSwept (j : ℕ) (t : Table N.Double) : Type 0 where
      holds : Val N → Option (Val N)
      models : Models N S t holds
      spared : (q : Val N) → is_white white q ≡ false → holds q ≡ f q
      swept : (s : ℕ) → s < j → is_white white (key t.entries (2 * s)) ≡ false

    passed :
        (j : ℕ) (t : Table N.Double)
        → IsSwept j t
        → is_white white (key t.entries (2 * j)) ≡ false
        → IsSwept (suc j) t
    passed j t w here = record {
      holds = w.holds;
      models = w.models;
      spared = w.spared;
      swept = λ s lt. elim (ℕ_discrete s j) [ yes e ↦ rw e here | no ne ↦ w.swept s (omega arith) ];
    }

    -- A key is gone behind its deletion.
    still_there :
        (g : Val N → Option (Val N)) (j : ℕ) (t : Table N.Double) (x : Val N)
        → Models N S t (update N S g x none)
        → 2 * j < t.capacity_mask + 1
        → is_white white x ≡ true
        → key t.entries (2 * j) ≡ x
        → ⊥
    still_there g j t x m inside pale same =
        let self = white_self white x pale in
        let says : Says N S m.exponent t.entries x none = rw self at (m.means x) in
        let ls : j < 2 ^ m.exponent =
          omega (arith, m.mask, pow-suc 2 m.exponent, one-le-pow m.exponent 2) in
        clash self (rw same at (says j ls (rw same (white_live white x pale))))

    -- The loop in one round.
    skip_step :
        (rounds i i' : ℕ) (t : Table N.Double)
        → i + 2 ≡ i'
        → is_white white (key t.entries i) ≡ false
        → remove_white_from N S (suc rounds) i white t ≡ remove_white_from N S rounds i' white t
    unfolding remove_white_from
    skip_step rounds i i' t on dark = rw (dark, on) refl

    take_step :
        (rounds i i' : ℕ) (t t' : Table N.Double) (b : Bool)
        → i + 2 ≡ i'
        → is_white white (key t.entries i) ≡ true
        → table_delete N S t (key t.entries i) ≡ some (b, t')
        → remove_white_from N S (suc rounds) i white t ≡ remove_white_from N S rounds i' white t'
    unfolding remove_white_from
    take_step rounds i i' t t' b on here delete = rw (here, delete, on) refl

    -- A swept table says nothing of a white key.
    gone :
        (n : ℕ) (t : Table N.Double) (w : IsSwept n t)
        → 2 * n ≡ t.capacity_mask + 1
        → (q : Val N) → is_white white q ≡ true
        → w.holds q ≡ none
    gone n t w all q pale = go (w.holds q) (w.models.means q)
      where
        go : (r : Option (Val N)) → Says N S w.models.exponent t.entries q r → r ≡ none
        go none says = refl
        go (some v) (s, ls, live, same, holds) = absurd (
            clash (equal_white white q (key t.entries (2 * s)) pale same) (
              w.swept s (
                omega (
                  arith,
                  w.models.mask,
                  pow-suc 2 w.models.exponent,
                  one-le-pow w.models.exponent 2,
                ))))

    removed :
        (j : ℕ) (t : Table N.Double)
        → 2 * j < t.capacity_mask + 1
        → IsSwept j t
        → is_white white (key t.entries (2 * j)) ≡ true
        → (b : Bool) × ((t' : Table N.Double) × (table_delete N S t (key t.entries (2 * j))
              ≡ some (b, t'))
            × (t'.capacity_mask ≡ t.capacity_mask)
            × IsSwept (suc j) t')
    removed j t inside w here =
        let x = key t.entries (2 * j) in
        let (t', run, m') = table_delete-Models N S t w.holds w.models x in
        let sh = table_delete-Shrinks t w.holds x _ t' w.models run in
        (
          _,
          (
            t',
            run,
            sh.mask_same,
            record {
              holds = update N S w.holds x none;
              models = m';
              spared = λ q dark. elim (Bool-cases (values_equal N q x)) [
                | inl same ↦ absurd (clash (white_equal white q x here same) dark)
                | inr other ↦ rw other (w.spared q dark)
              ];
              swept = λ s lt. elim (sh.keys s) [
                | inr gone ↦ rw gone refl
                | inl same ↦ elim (ℕ_discrete s j) [
                  | no ne ↦ rw same (w.swept s (omega arith))
                  | yes e ↦
                      absurd
                        (still_there w.holds j t' x m' (rw sh.mask_same inside) here (rw e at same))
                ]
              ];
            },
          ),
        )

    remove_white_from-IsSwept :
        (rounds j : ℕ) (t : Table N.Double)
        → 2 * (j + rounds) ≡ t.capacity_mask + 1
        → IsSwept j t
        → (t' : Table N.Double) × (remove_white_from N S rounds (2 * j) white t ≡ some t')
          × (t'.capacity_mask ≡ t.capacity_mask)
          × IsSwept (j + rounds) t'
    remove_white_from-IsSwept zero j t all w =
        (t, unfold remove_white_from in refl, refl, rw (let e : j + 0 ≡ j = omega arith in e) w)
    remove_white_from-IsSwept (suc rounds) j t all w =
        let on : 2 * j + 2 ≡ 2 * suc j = omega arith in
        let count : j + suc rounds ≡ suc j + rounds = omega arith in
        elim (Bool-cases (is_white white (key t.entries (2 * j)))) [
          | inr dark ↦
              let (t', run, mask, done) =
                remove_white_from-IsSwept rounds (suc j) t (omega arith) (passed j t w dark) in
              (t', skip_step rounds (2 * j) (2 * suc j) t on dark ∙ run, mask, rw count done)
          | inl here ↦
              let (b, (t1, delete, mask1, w1)) = removed j t (omega arith) w here in
              let (t', run, mask, done) =
                remove_white_from-IsSwept rounds (suc j) t1 (omega (arith, mask1)) w1 in
              (
                t',
                take_step rounds (2 * j) (2 * suc j) t t1 b on here delete ∙ run,
                mask ∙ mask1,
                rw count done,
              )
        ]

    whole_run :
        (rounds : ℕ) (t t' : Table N.Double)
        → (t.capacity_mask + 1) / 2 ≡ rounds
        → remove_white_from N S rounds (2 * 0) white t ≡ some t'
        → table_remove_white N S white t ≡ some t'
    unfolding table_remove_white
    whole_run rounds t t' e run = rw e run

    -- `tableRemoveWhite` on a table that represents a function ends. The table then represents the function
    -- without the keys that are white objects.
    pub table_remove_white-Models :
        (t : Table N.Double)
        → Models N S t f
        → (t' : Table N.Double) × (table_remove_white N S white t ≡ some t')
          × ((g : Val N → Option (Val N)) × Models N S t' g
              × ((q : Val N) → is_white white q ≡ false → g q ≡ f q)
              × ((q : Val N) → is_white white q ≡ true → g q ≡ none))
    table_remove_white-Models t m =
        let n = 2 ^ m.exponent in
        let rounds : (t.capacity_mask + 1) / 2 ≡ n =
          omega (arith, m.mask, pow-suc 2 m.exponent, one-le-pow m.exponent 2) in
        let whole : 2 * (0 + n) ≡ t.capacity_mask + 1 =
          omega (arith, m.mask, pow-suc 2 m.exponent, one-le-pow m.exponent 2) in
        let (t', run, mask, w) = remove_white_from-IsSwept n 0 t whole (record {
          holds = f;
          models = m;
          spared = λ q dark. refl;
          swept = λ s lt. absurd (omega arith);
        }) in
        (
          t',
          whole_run n t t' rounds run,
          (
            w.holds,
            w.models,
            w.spared,
            λ q pale. gone (0 + n) t' w (omega (arith, mask, whole)) q pale,
          ),
        )
