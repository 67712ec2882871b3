-- ===== src/Table/Writes.antt =====
-- What a write to one entry of the array does to where the keys stand and to what the array means.
use native.Mathlib.Nat.{pow-suc}
use xan.Base.{
  clash, ℕ, ◌+◌, ◌*◌, ◌^◌, ◌<◌, ◌≡◌, refl, sym, inl, inr, arith, ◌≢◌, true, false, ◌&&◌, List,
  Option, none, some, length, Bool-cases, ◌∙◌, if◌then◌else◌,
}
use xan.Value.{
  Val, nil, bool, Number, Strings, is_nil, values_equal, values_equal_symm, values_equal_trans,
}
use xan.Table.{key, value, write}
use xan.Table.Slots.{IsReached, IsReached-congr, IsPlaced, Says, Finds, present, absent}
use xan.Table.Counting.{key-write, value-write, write-cases, length-write, is_empty-write}

module _ (N : Number) (S : Strings) where
  -- The array as a function from keys to values.
  abbrev pub Means : ℕ → List (Val N) → (Val N → Option (Val N)) → Type 0
  Means k es f = (q : Val N) → Says N S k es q (f q)

  abbrev pub update : (Val N → Option (Val N)) → Val N → Option (Val N) → Val N → Option (Val N)
  update f x v q = if values_equal N q x then v else f q

  pub equal_via :
      (a b c : Val N)
      → values_equal N a b ≡ true
      → values_equal N a c ≡ true
      → values_equal N b c ≡ true
  equal_via a b c p q = values_equal_trans N b a c (values_equal_symm N b a ∙ p) q

  module _ (k : ℕ) (es : List (Val N)) (placed : IsPlaced N S k es) (s : ℕ) (ls : s < 2 ^ k) where
    fits : 2 * s + 1 < length es
    fits = omega (arith, placed.width, pow-suc 2 k)

    module _ (x v : Val N) (taken : (is_nil x && is_nil v) ≡ false) where
      IsReached-write :
          (y : Val N) (t : ℕ) → IsReached N S k es y t → IsReached N S k (write es (2 * s) x v) y t
      IsReached-write y t r = record {
        distance = r.distance;
        near = r.near;
        arrives = r.arrives;
        used = λ p lp. rw (is_empty-write es s x v fits) (ground (arith, r.used p lp));
      }

    module _ (x v : Val N) (live : is_nil x ≡ false) (found : Finds N S k es x (2 * s)) where
      in_use : (is_nil x && is_nil v) ≡ false
      in_use = rw live

      slot_of_x : IsReached N S k es x s
      slot_of_x = elim found [
        | present s' ls' at alive same ↦
            IsReached-congr N S k es x (key es (2 * s)) s same (placed.reached s ls alive)
        | absent s' ls' at dead r says ↦ let e : s ≡ s' = omega arith in rw e r
      ]

      -- A live entry other than `s` does not hold `x`.
      only_here :
          (t : ℕ)
          → t < 2 ^ k
          → t ≢ s
          → is_nil (key es (2 * t)) ≡ false
          → values_equal N x (key es (2 * t)) ≡ false
      only_here t lt ne alive = elim found [
        | present s' ls' at here same ↦ elim (Bool-cases (values_equal N x (key es (2 * t)))) [
          | inl both ↦ absurd (
              ne (
                placed.distinct t s lt ls alive here
                  (equal_via x (key es (2 * t)) (key es (2 * s)) both same)))
          | inr other ↦ other
        ]
        | absent s' ls' at dead r says ↦ says t lt alive
      ]

      pub store-IsPlaced : IsPlaced N S k (write es (2 * s) x v)
      store-IsPlaced = record {
        width = length-write es s x v fits ∙ placed.width;
        reached = λ t lt alive. elim (write-cases es s x v fits t) [
          | inl (e, new, _) ↦ rw (new, e) (IsReached-write x v in_use x s slot_of_x)
          | inr (ne, old, _) ↦
              rw old (IsReached-write x v in_use _ t (placed.reached t lt (rw old at alive)))
        ];
        distinct = λ t u lt lu alive alive' same. elim (write-cases es s x v fits t) [
          | inl (e, new, _) ↦ elim (write-cases es s x v fits u) [
            | inl (e', new', _) ↦ e ∙ sym e'
            | inr (ne', old', _) ↦
                let apart = only_here u lu ne' (rw old' at alive') in
                let both = rw (new, old') at same in absurd (clash both apart)
          ]
          | inr (ne, old, _) ↦ elim (write-cases es s x v fits u) [
            | inl (e', new', _) ↦
                let apart = only_here t lt ne (rw old at alive) in
                let both = rw (old, new') at same in
                absurd (clash (values_equal_symm N x (key es (2 * t)) ∙ both) apart)
            | inr (ne', old', _) ↦
                placed.distinct t u lt lu (rw old at alive) (rw old' at alive')
                  (rw (old, old') at same)
          ]
        ];
      }

      -- If the entry is live already, it holds an equal key.
      same_here :
          (t : ℕ)
          → t ≡ s
          → is_nil (key es (2 * t)) ≡ false
          → values_equal N x (key es (2 * t)) ≡ true
      same_here t e alive = elim found [
        | present s' ls' at here same ↦ rw e same
        | absent s' ls' at dead r says ↦ absurd (clash dead (rw e at alive))
      ]

      -- What the array says of a key other than `x` stays.
      elsewhere :
          (q : Val N)
          → values_equal N q x ≡ false
          → (r : Option (Val N)) → Says N S k es q r
          → Says N S k (write es (2 * s) x v) q r
      elsewhere q other none says = λ t lt alive. elim (write-cases es s x v fits t) [
        | inl (e, new, _) ↦ rw new other
        | inr (ne, old, _) ↦ rw old (says t lt (rw old at alive))
      ]
      elsewhere q other (some w) (t, lt, alive, same, holds) = elim (write-cases es s x v fits t) [
        | inl (e, _, _) ↦ absurd (
            clash
              (values_equal_trans N q (key es (2 * t)) x same
                (values_equal_symm N (key es (2 * t)) x ∙ same_here t e alive))
              other)
        | inr (ne, old, old_value) ↦ (t, lt, rw old alive, rw old same, rw old_value holds)
      ]

      pub store-Means :
          (f : Val N → Option (Val N))
          → Means k es f
          → Means k (write es (2 * s) x v) (update f x (some v))
      store-Means f means q = elim (Bool-cases (values_equal N q x)) [
        | inl same ↦ rw same (s, ls, rw new.0 live, rw new.0 same, new.1)
        | inr other ↦ rw other (elsewhere q other (f q) (means q))
      ]
        where
          new :
              (key (write es (2 * s) x v) (2 * s) ≡ x) × (value (write es (2 * s) x v) (2 * s) ≡ v)
          new = (
            ground (arith, key-write es s x v fits s),
            ground (arith, value-write es s x v fits s),
          )

    module _ (x : Val N) (here : is_nil (key es (2 * s)) ≡ false)
        (same : values_equal N x (key es (2 * s)) ≡ true) where
      abbrev pub bury : List (Val N)
      bury = write es (2 * s) nil (bool true)

      -- Every live entry of the new array stood elsewhere before.
      survivor :
          (t : ℕ)
          → is_nil (key bury (2 * t)) ≡ false
          → (t ≢ s)
            × (key bury (2 * t) ≡ key es (2 * t))
            × (value bury (2 * t) ≡ value es (2 * t))
            × (is_nil (key es (2 * t)) ≡ false)
      survivor t alive = elim (write-cases es s nil (bool true) fits t) [
        | inl (e, new, _) ↦ absurd (clash refl (rw new at alive))
        | inr (ne, old, old_value) ↦ (ne, old, old_value, rw old at alive)
      ]

      pub bury-IsPlaced : IsPlaced N S k bury
      bury-IsPlaced = record {
        width = length-write es s nil (bool true) fits ∙ placed.width;
        reached = λ t lt alive.
            let (ne, old, _, was) = survivor t alive in
            rw old (IsReached-write nil (bool true) refl _ t (placed.reached t lt was));
        distinct = λ t u lt lu alive alive' both.
            let (_, old, _, was) = survivor t alive in
            let (_, old', _, was') = survivor u alive' in
            placed.distinct t u lt lu was was' (rw (old, old') at both);
      }

      forgotten : (q : Val N) → values_equal N q x ≡ true → Says N S k bury q none
      forgotten q e t lt alive =
          let (ne, old, _, was) = survivor t alive in
          rw old (elim (Bool-cases (values_equal N q (key es (2 * t)))) [
            | inl both ↦ absurd (
                ne (
                  placed.distinct t s lt ls was here (
                    equal_via q (key es (2 * t)) (key es (2 * s)) both
                      (values_equal_trans N q x (key es (2 * s)) e same))))
            | inr other ↦ other
          ])

      kept :
          (q : Val N)
          → values_equal N q x ≡ false
          → (r : Option (Val N)) → Says N S k es q r
          → Says N S k bury q r
      kept q other none says =
          λ t lt alive. let (ne, old, _, was) = survivor t alive in rw old (says t lt was)
      kept q other (some w) (t, lt, alive, found, holds) =
          elim (write-cases es s nil (bool true) fits t) [
            | inl (e, _, _) ↦ absurd (
                clash
                  (values_equal_trans N q (key es (2 * s)) x (rw e at found)
                    (values_equal_symm N (key es (2 * s)) x ∙ same))
                  other)
            | inr (ne, old, old_value) ↦ (t, lt, rw old alive, rw old found, rw old_value holds)
          ]

      pub bury-Means : (f : Val N → Option (Val N)) → Means k es f → Means k bury (update f x none)
      bury-Means f means q = elim (Bool-cases (values_equal N q x)) [
        | inl e ↦ rw e (forgotten q e)
        | inr other ↦ rw other (kept q other (f q) (means q))
      ]
