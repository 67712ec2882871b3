-- ===== src/Chunk/Pool.antt =====
-- `addConstant` against the list of constants.
use native.Mathlib.Decide.{dec_lt}
use xan.Base.{
  some-injective, clash, false, ℕ, ◌-◌, ◌^◌, ◌<◌, ◌≡◌, refl, sym, ◌⊎◌, inl, inr, arith, true, List,
  [], ◌∷◌, ◌++◌, Option, none, some, length, get_or, length-append, get_or-append, Bool-cases,
}
use xan.Value.{Val, nil, number, Number, Strings, is_key, is_key-ne-nil, is_key-equal, values_equal}
use xan.Array.{new_array, write_value_array}
use xan.Array.Contents.{Holds}
use xan.Array.Methods.{write_value_array-Holds}
use xan.Table.{Table}
use xan.Table.Writes.{update}
use xan.Table.Model.{Models, new_table-Models}
use xan.Table.Methods.{table_get-Models, table_set-Models}
use xan.Chunk.{Chunk, init_chunk, push_constant, after_search, add_constant}

get_or-last : {A : Type 0} (xs : List A) (x d : A) → get_or (xs ++ x ∷ []) (length xs) d ≡ x
get_or-last [] x d = refl
get_or-last (y ∷ xs) x d = get_or-last xs x d

module _ (N : Number) (S : Strings) where
  -- Every constant that is equal to a key has an entry.
  abbrev Complete : List (Val N) → (Val N → Option (Val N)) → Type 0
  Complete xs f =
      (k : Val N) (j : ℕ)
      → j < length xs
      → is_key N S k ≡ true
      → values_equal N k (get_or xs j nil) ≡ true
      → (w : Val N) × (f k ≡ some w)

  -- The table sends a key to the index of a constant that is equal to it, if there is one.
  pub record Pools (c : Chunk N.Double) (xs : List (Val N)) (f : Val N → Option (Val N))
      : Type 0 where
    pub holds : Holds c.constants xs
    pub models : Models N S c.constant_indices f
    pub indexed :
        (k w : Val N)
        → f k ≡ some w
        → (i : ℕ) × (w ≡ number (N.of_int64 i))
          × (i < length xs)
          × (values_equal N k (get_or xs i nil) ≡ true)
    pub complete : Complete xs f

  -- `c'` is the chunk `c` with the value at index `i` of its constants: an old one that is equal, or a new one
  -- behind the old ones, which for a string or number happens only if no old one is equal.
  pub record Added (c : Chunk N.Double) (xs : List (Val N)) (v : Val N) (i : ℕ)
      (c' : Chunk N.Double) : Type 0 where
    pub after : List (Val N)
    pub indices : Val N → Option (Val N)
    pub pools : Pools c' after indices
    pub extends : (after ≡ xs) ⊎ (after ≡ xs ++ v ∷ [])
    pub once :
        is_key N S v ≡ true
        → (j : ℕ) → j < length xs
        → values_equal N v (get_or xs j nil) ≡ true
        → after ≡ xs
    pub in_range : i < length after
    pub found : (get_or after i nil ≡ v) ⊎ (values_equal N v (get_or after i nil) ≡ true)

  push_constant-Added :
      (c : Chunk N.Double) (xs : List (Val N)) (v : Val N) (t : Table N.Double)
      (f : Val N → Option (Val N))
      → Holds c.constants xs
      → Models N S t f
      → ((k w : Val N)
          → f k ≡ some w
          → (i : ℕ) × (w ≡ number (N.of_int64 i))
            × (i < length (xs ++ v ∷ []))
            × (values_equal N k (get_or (xs ++ v ∷ []) i nil) ≡ true))
      → Complete (xs ++ v ∷ []) f
      → (is_key N S v ≡ true
          → (j : ℕ) → j < length xs
          → values_equal N v (get_or xs j nil) ≡ true
          → ⊥)
      → Added c xs v (push_constant N S c v t).0 (push_constant N S c v t).1
  unfolding push_constant
  push_constant-Added c xs v t f h m indexed complete novel =
      let h' = write_value_array-Holds c.constants xs v h in
      let at : (write_value_array c.constants v).count - 1 ≡ length xs =
        omega (arith, h'.counted, length-append xs (v ∷ [])) in
      record {
        after = xs ++ v ∷ [];
        indices = f;
        pools = record { holds = h'; models = m; indexed = indexed; complete = complete };
        extends = inr refl;
        once = λ key j lt same. absurd (novel key j lt same);
        in_range = rw at (omega (arith, length-append xs (v ∷ [])));
        found = inl (rw at (get_or-last xs v nil));
      }

  -- An index in the old constants is one in the new ones.
  indexed_more :
      (xs : List (Val N)) (v k w : Val N)
      → (i : ℕ) × (w ≡ number (N.of_int64 i))
        × (i < length xs)
        × (values_equal N k (get_or xs i nil) ≡ true)
      → (i : ℕ) × (w ≡ number (N.of_int64 i))
        × (i < length (xs ++ v ∷ []))
        × (values_equal N k (get_or (xs ++ v ∷ []) i nil) ≡ true)
  indexed_more xs v k w (i, e, lt, same) =
      (i, e, omega (arith, length-append xs (v ∷ [])), rw (get_or-append xs (v ∷ []) i nil lt) same)

  -- The new index is that of the new constant.
  indexed_new :
      (c : Chunk N.Double) (xs : List (Val N)) (f : Val N → Option (Val N)) (v k w : Val N)
      → Pools c xs f
      → update N S f v (some (number (N.of_int64 c.constants.count))) k ≡ some w
      → (i : ℕ) × (w ≡ number (N.of_int64 i))
        × (i < length (xs ++ v ∷ []))
        × (values_equal N k (get_or (xs ++ v ∷ []) i nil) ≡ true)
  indexed_new c xs f v k w p at = elim (Bool-cases (values_equal N k v)) [
    | inl same ↦ (
      length xs,
      rw (← p.holds.counted) (sym (some-injective (rw same at at))),
      omega (arith, length-append xs (v ∷ [])),
      rw (get_or-last xs v nil) same,
    )
    | inr other ↦ indexed_more xs v k w (p.indexed k w (rw other at at))
  ]

  -- The constants with a new one behind them.
  new_or_old :
      (xs : List (Val N)) (v k : Val N) (j : ℕ)
      → j < length (xs ++ v ∷ [])
      → values_equal N k (get_or (xs ++ v ∷ []) j nil) ≡ true
      → ((j < length xs) × (values_equal N k (get_or xs j nil) ≡ true))
        ⊎ (values_equal N k v ≡ true)
  new_or_old xs v k j lt same = elim (dec_lt j (length xs)) [
    | yes old ↦ inl (old, rw (get_or-append xs (v ∷ []) j nil old) at same)
    | no new ↦
        let last : j ≡ length xs = omega (arith, length-append xs (v ∷ [])) in
        inr (rw (last, get_or-last xs v nil) at same)
  ]

  Complete-update :
      (xs : List (Val N)) (f : Val N → Option (Val N)) (v w : Val N)
      → Complete xs f
      → Complete (xs ++ v ∷ []) (update N S f v (some w))
  Complete-update xs f v w complete k j lt key same = elim (Bool-cases (values_equal N k v)) [
    | inl equal ↦ (w, rw equal refl)
    | inr other ↦ elim (new_or_old xs v k j lt same) [
      | inl (old, same') ↦ let (w', e) = complete k j old key same' in (w', rw other e)
      | inr equal ↦ absurd (clash equal other)
    ]
  ]

  Complete-more :
      (xs : List (Val N)) (f : Val N → Option (Val N)) (v : Val N)
      → is_key N S v ≡ false
      → Complete xs f
      → Complete (xs ++ v ∷ []) f
  Complete-more xs f v not_key complete k j lt key same = elim (new_or_old xs v k j lt same) [
    | inl (old, same') ↦ complete k j old key same'
    | inr equal ↦ absurd (clash (is_key-equal N S k v key equal) not_key)
  ]

  after_search-Added :
      (c : Chunk N.Double) (xs : List (Val N)) (f : Val N → Option (Val N)) (v : Val N)
      (r : Option (Val N))
      → Pools c xs f
      → is_key N S v ≡ true
      → length xs < 2 ^ 53
      → c.constant_indices.capacity_mask < 2 ^ 31
      → f v ≡ r
      → (i : ℕ) × ((c' : Chunk N.Double) × (after_search N S c v r ≡ some (i, c'))
          × Added c xs v i c')
  unfolding after_search
  after_search-Added c xs f v (some w) p key short small at =
      let (i, e, lt, same) = p.indexed v w at in
      let exact : N.to_int64 (N.of_int64 i) ≡ i = N.whole i (omega arith) in
      (
        i,
        (
          c,
          rw (e, exact) refl,
          record {
            after = xs;
            indices = f;
            pools = p;
            extends = inl refl;
            once = λ key j lt same. refl;
            in_range = lt;
            found = inr same;
          },
        ),
      )
  after_search-Added c xs f v none p key short small at =
      let place = number (N.of_int64 c.constants.count) in
      let (t, run, m) =
        table_set-Models N S c.constant_indices f p.models v place (is_key-ne-nil N S v key)
          small in
      let pushed =
        push_constant-Added c xs v t (update N S f v (some place)) p.holds m
          (λ k w e. indexed_new c xs f v k w p e) (Complete-update xs f v place p.complete)
          (λ key j lt same. none_left at (p.complete v j lt key same)) in
      (_, (_, rw run refl, pushed))
    where
      none_left : {r : Option (Val N)} → r ≡ none → (w : Val N) × (r ≡ some w) → ⊥
      none_left e (w, e') = cc

  -- `addConstant` ends on a chunk whose table of indices agrees with its constants, for fewer than
  -- 2 ^ 53 constants and a table of at most 2 ^ 31 cells. The value stands at the returned index of
  -- the constants: it is an old constant that is equal to the value, or the value itself behind the
  -- old constants, and a string or number is put there only if no old constant is equal to it. The old
  -- constants keep their indices, and the table agrees with the constants: it has an entry for just the strings and
  -- numbers that are equal to a constant.
  pub add_constant-Added :
      (c : Chunk N.Double) (xs : List (Val N)) (f : Val N → Option (Val N)) (v : Val N)
      → Pools c xs f
      → length xs < 2 ^ 53
      → c.constant_indices.capacity_mask < 2 ^ 31
      → (i : ℕ) × ((c' : Chunk N.Double) × (add_constant N S c v ≡ some (i, c'))
          × Added c xs v i c')
  unfolding add_constant
  add_constant-Added c xs f v p short small = elim (Bool-cases (is_key N S v)) [
    | inl key ↦
        rw (key, table_get-Models N S c.constant_indices f p.models v)
          (after_search-Added c xs f v (f v) p key short small refl)
    | inr other ↦ rw other (
      _,
      (
        _,
        refl,
        push_constant-Added c xs v c.constant_indices f p.holds p.models
            (λ k w at. indexed_more xs v k w (p.indexed k w at))
            (Complete-more xs f v other p.complete) (λ key j lt same. clash key other),
      ),
    )
  ]

  -- A new chunk has no instructions and no constants, and its table of indices is empty.
  pub init_chunk-Pools :
      (c : Chunk N.Double) × (init_chunk N S ≡ some c) × Pools c [] (λ _. none) × (c.count ≡ 0)
  unfolding init_chunk new_array
  init_chunk-Pools =
      let (t, run, _, _, m) = new_table-Models N S 0 (omega arith) in
      (
        record {
          count = 0;
          capacity = 0;
          code = [];
          lines = [];
          constants = new_array 0;
          constant_indices = t;
        },
        rw run refl,
        record {
          holds = record {
            counted = refl;
            wide = refl;
            fits = omega arith;
            cells = λ i lt. absurd (omega arith);
          };
          models = m;
          indexed = λ k w at. absurd (none_some at);
          complete = λ k j lt. absurd (omega arith);
        },
        refl,
      )
    where
      none_some : {A : Type 0} {a : A} → none ≡ some a → ⊥
      none_some h = cc
