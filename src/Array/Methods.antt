-- ===== src/Array/Methods.antt =====
-- The array operations against the list of values that an array holds.
use xan.Base.{
  ℕ, zero, suc, ◌+◌, ◌-◌, ◌^◌, ◌<◌, ◌≤◌, ◌≡◌, refl, sym, ap, ◌∙◌, arith, Bool, true, false, ◌&&◌,
  List, [], ◌∷◌, ◌++◌, Option, none, some, ◌>>=◌, ltb, leb, ◌==◌, if◌then◌else◌, length, get_or,
  set, replicate, length-set, length-replicate, get_or-set, get_or-beyond, ℤ, pos, negsuc,
}
use xan.Memory.{grow_capacity, round_up_pow_2, smear}
use xan.Memory.RoundUp.{round_up_pow_2-least, grow_capacity_grows}
use xan.Value.{Value, nil}
use xan.Array.{
  ObjArray, grow_array, new_array, fill, array_init, write_value_array, set_array, get_array,
  copy_cells, duplicate_array,
}
use xan.Array.Contents.{
  put, Holds, length-put, get_or-put, put-length, length-fill, get_or-fill, length-grow_array,
  get_or-grow_array,
}

-- The capacity that `setArray` asks for has room for the index.
room_for : (idx : ℕ) → idx < 2 ^ 31 → idx < grow_capacity (round_up_pow_2 idx)
room_for zero small = unfold round_up_pow_2 smear grow_capacity in omega arith
room_for (suc n) small =
    let (k, _, e, above, _) = round_up_pow_2-least (suc n) (omega arith) (omega arith) in
    rw e (omega (arith, (grow_capacity_grows (2 ^ k)).1))

-- What reading at an `int` gives.
unfoldable pub lookup : {D : Type 0} → List (Value D) → ℤ → Option (Option (Value D))
lookup xs (negsuc n) = none
lookup xs (pos i) = if ltb i (length xs) then some (some (get_or xs i nil)) else none

get_or-replicate-below :
    {D : Type 0} (n i : ℕ) (v : Value D) → i < n → get_or (replicate n v) i nil ≡ v
get_or-replicate-below zero i v h = absurd (omega arith)
get_or-replicate-below (suc n) zero v h = refl
get_or-replicate-below (suc n) (suc i) v h = get_or-replicate-below n i v (omega arith)

-- A fresh array of `count` cells has room for them.
new_array-wide :
    (D : Type 0) (n : ℕ)
    → n ≤ 2 ^ 63
    → (length (new_array {D = D} n).values ≡ (new_array {D = D} n).capacity)
      × (n ≤ (new_array {D = D} n).capacity)
      × ((new_array {D = D} n).count ≡ n)
unfolding new_array
new_array-wide D zero small = (refl, omega arith, refl)
new_array-wide D (suc n) small =
    let (k, _, e, above, _) = round_up_pow_2-least (suc n) (omega arith) small in
    (length-grow_array [] (round_up_pow_2 (suc n)) (omega arith), rw e above, refl)

module _ {D : Type 0} where
  -- The cells that `setArray` and `writeValueArray` go on with hold the same values, and there is
  -- room for one cell more than the index.
  record Roomy (a : ObjArray D) (xs : List (Value D)) (idx capacity : ℕ)
      (cells : List (Option (Value D))) : Type 0 where
    wide : length cells ≡ capacity
    room : idx < capacity
    fits : a.count ≤ capacity
    same : (i : ℕ) → i < a.count → get_or cells i none ≡ some (get_or xs i nil)

  grow_array-Roomy :
      (a : ObjArray D) (xs : List (Value D)) (idx bigger : ℕ) (small : Bool)
      → Holds a xs
      → (small ≡ false → idx < a.capacity)
      → (small ≡ true → (idx < bigger) × (a.capacity ≤ bigger))
      → Roomy a xs idx
          (if small then bigger else a.capacity)
          (if small then grow_array a.values bigger else a.values)
  grow_array-Roomy a xs idx bigger false h fits more = record {
    wide = h.wide;
    room = fits refl;
    fits = h.fits;
    same = h.cells;
  }
  grow_array-Roomy a xs idx bigger true h fits more =
      let le : length a.values ≤ bigger = omega (arith, h.wide, (more refl).1) in
      record {
        wide = length-grow_array a.values bigger le;
        room = (more refl).0;
        fits = omega (arith, h.fits, (more refl).1);
        same = λ i lt.
            get_or-grow_array a.values bigger le i (omega (arith, h.wide, h.fits)) ∙ h.cells i lt;
      }

  -- Nils up to the index, and the value at the index.
  put-Holds :
      (a : ObjArray D) (xs : List (Value D)) (idx capacity : ℕ) (cells : List (Option (Value D)))
      (v : Value D)
      → a.count ≡ length xs
      → Roomy a xs idx capacity cells
      → Holds
          (record {
            count = if leb a.count idx then idx + 1 else a.count;
            capacity = capacity;
            values = set (fill (idx - a.count) a.count nil cells) idx (some v);
          })
          (put xs idx v)
  put-Holds a xs idx capacity cells v counted r =
      let padded = fill (idx - a.count) a.count nil cells in
      let long : length padded ≡ capacity =
        length-fill (idx - a.count) a.count nil cells ∙ r.wide in
      record {
        counted = ground (arith, length-put xs idx v);
        wide = length-set padded idx (some v) ∙ long;
        fits = ground (arith, r.room, r.fits);
        cells = λ i lt. ground (
          arith,
          get_or-set padded idx i (some v) none (omega (arith, r.room)),
          get_or-fill (idx - a.count) a.count nil cells i (omega (arith, r.wide, r.room, r.fits)),
          get_or-put xs idx v i,
          get_or-beyond xs i nil,
          r.same i,
        );
      }

  -- `setArray` at an index below 2 ^ 31 succeeds on a well-formed array. The array then holds the
  -- value at the index, nils between the old end and the index, and else what it held.
  pub set_array-Holds :
      (a : ObjArray D) (xs : List (Value D)) (idx : ℕ) (v : Value D)
      → Holds a xs
      → idx < 2 ^ 31
      → (a' : ObjArray D) × (set_array a (pos idx) v ≡ some a') × Holds a' (put xs idx v)
  unfolding set_array
  set_array-Holds a xs idx v h small =
      let bigger = grow_capacity (round_up_pow_2 idx) in
      let roomy =
        grow_array-Roomy a xs idx bigger (leb a.capacity idx) h (λ e. ground arith)
          (λ e. (room_for idx small, ground (arith, room_for idx small))) in
      (_, refl, put-Holds a xs idx _ _ v h.counted roomy)

  -- `writeValueArray` on a well-formed array appends the value to what the array holds.
  pub write_value_array-Holds :
      (a : ObjArray D) (xs : List (Value D)) (v : Value D)
      → Holds a xs
      → Holds (write_value_array a v) (xs ++ v ∷ [])
  unfolding write_value_array
  write_value_array-Holds a xs v h =
      let roomy =
        grow_array-Roomy a xs a.count (grow_capacity a.capacity) (ltb a.capacity (a.count + 1)) h
          (λ e. ground arith)
          (λ e. (
            ground (arith, h.fits, grow_capacity_grows a.capacity),
            omega (arith, (grow_capacity_grows a.capacity).1),
          )) in
      let appended = put-Holds a xs a.count _ _ v h.counted roomy in
      let minus : a.count - a.count ≡ 0 = omega arith in
      let here : leb a.count a.count ≡ true = ground arith in
      let e : put xs a.count v ≡ xs ++ v ∷ [] = ap (λ n. put xs n v) h.counted ∙ put-length xs v in
      rw (← e) (unfold fill in rw (minus, here) at appended)

  -- `getArray` on a well-formed array reads the value at the index, and fails at a negative index
  -- and behind the last value.
  pub get_array_lem :
      (a : ObjArray D) (xs : List (Value D)) (idx : ℤ)
      → Holds a xs
      → get_array a idx ≡ lookup xs idx
  unfolding get_array lookup
  get_array_lem a xs (negsuc n) h = refl
  get_array_lem a xs (pos i) h = ground (arith, h.counted, h.cells i)

  -- After `setArray` at an index below 2 ^ 31, `getArray` reads the written value at that index, the
  -- old values at the other old indices, nil between the old end and that index, and fails behind.
  pub get_array-set_array :
      (a : ObjArray D) (xs : List (Value D)) (idx j : ℕ) (v : Value D)
      → Holds a xs
      → idx < 2 ^ 31
      → (set_array a (pos idx) v >>= λ a'. get_array a' (pos j)) ≡ (
          if j == idx
          then some (some v)
          else if ltb j (length xs)
          then some (some (get_or xs j nil))
          else if ltb j idx
          then some (some nil)
          else none)
  get_array-set_array a xs idx j v h small =
      let (a', run, h') = set_array-Holds a xs idx v h small in
      rw (run, get_array_lem a' (put xs idx v) (pos j) h')
        (unfold lookup in
          ground (arith, length-put xs idx v, get_or-put xs idx v j, get_or-beyond xs j nil))

  -- `ArrayInit` for at most 2 ^ 63 values returns a well-formed array of that many copies of the value.
  pub array_init-Holds :
      (count : ℕ) (v : Value D) → count ≤ 2 ^ 63 → Holds (array_init count v) (replicate count v)
  unfolding array_init
  array_init-Holds count v small =
      let fresh = new_array {D = D} count in
      let (wide, room, counted) = new_array-wide D count small in
      record {
        counted = counted ∙ sym (length-replicate count v);
        wide = length-fill fresh.count 0 v fresh.values ∙ wide;
        fits = rw counted room;
        cells = λ i lt. ground (
          arith,
          wide,
          room,
          counted,
          get_or-fill fresh.count 0 v fresh.values i,
          get_or-replicate-below count i v,
        );
      }

  length-copy_cells :
      (rounds i : ℕ) (source dest : List (Option (Value D)))
      → length (copy_cells rounds i source dest) ≡ length dest
  unfolding copy_cells
  length-copy_cells zero i source dest = refl
  length-copy_cells (suc rounds) i source dest =
      length-copy_cells rounds (i + 1) source (set dest i (get_or source i none))
      ∙ length-set dest i (get_or source i none)

  get_or-copy_cells :
      (rounds i : ℕ) (source dest : List (Option (Value D))) (j : ℕ)
      → i + rounds ≤ length dest
      → get_or (copy_cells rounds i source dest) j none
        ≡ (if leb i j && ltb j (i + rounds) then get_or source j none else get_or dest j none)
  unfolding copy_cells
  get_or-copy_cells zero i source dest j h = ground arith
  get_or-copy_cells (suc rounds) i source dest j h = ground (
    arith,
    get_or-copy_cells rounds (i + 1) source (set dest i (get_or source i none)) j
        (omega (arith, length-set dest i (get_or source i none))),
    get_or-set dest i j (get_or source i none) none (omega arith),
  )

  -- `duplicateArray` of a well-formed array of at most 2 ^ 63 values is a well-formed array of the
  -- same values.
  pub duplicate_array-Holds :
      (a : ObjArray D) (xs : List (Value D))
      → Holds a xs
      → a.count ≤ 2 ^ 63
      → Holds (duplicate_array a) xs
  unfolding duplicate_array
  duplicate_array-Holds a xs h small =
      let fresh = new_array {D = D} a.count in
      let (wide, room, counted) = new_array-wide D a.count small in
      record {
        counted = counted ∙ h.counted;
        wide = length-copy_cells a.count 0 a.values fresh.values ∙ wide;
        fits = rw counted room;
        cells = λ i lt. ground (
          arith,
          wide,
          room,
          counted,
          get_or-copy_cells a.count 0 a.values fresh.values i,
          h.cells i,
        );
      }
