-- ===== src/Array/Contents.antt =====
-- What an array holds: the list of its first `count` cells.
use xan.Base.{
  ℕ, zero, suc, ◌+◌, ◌-◌, ◌<◌, ◌≤◌, ◌≡◌, refl, ap, ◌∙◌, arith, List, [], ◌∷◌, ◌++◌, Option, none,
  some, ltb, leb, ◌==◌, if◌then◌else◌, length, get_or, set, replicate, max, length-append, ◌&&◌,
  take_all, get_or-append, length-set, length-replicate, get_or-set,
}
use xan.Value.{Value, nil}
use xan.Array.{ObjArray, grow_array, fill}

-- A list with the value at an index, nils up to it where the list is shorter.
unfoldable pub put : {D : Type 0} → List (Value D) → ℕ → Value D → List (Value D)
put [] zero v = v ∷ []
put [] (suc i) v = nil ∷ put [] i v
put (x ∷ xs) zero v = v ∷ xs
put (x ∷ xs) (suc i) v = x ∷ put xs i v

module _ {D : Type 0} where
  -- The array is well formed and its first `count` cells are the list.
  pub record Holds (a : ObjArray D) (xs : List (Value D)) : Type 0 where
    pub counted : a.count ≡ length xs
    pub wide : length a.values ≡ a.capacity
    pub fits : a.count ≤ a.capacity
    pub cells : (i : ℕ) → i < a.count → get_or a.values i none ≡ some (get_or xs i nil)

  pub length-put :
      (xs : List (Value D)) (i : ℕ) (v : Value D) → length (put xs i v) ≡ max (length xs) (i + 1)
  unfolding put
  length-put [] zero v = omega arith
  length-put [] (suc i) v = omega (arith, length-put [] i v)
  length-put (x ∷ xs) zero v = omega arith
  length-put (x ∷ xs) (suc i) v = omega (arith, length-put xs i v)

  pub get_or-put :
      (xs : List (Value D)) (i : ℕ) (v : Value D) (j : ℕ)
      → get_or (put xs i v) j nil ≡ (if j == i then v else get_or xs j nil)
  unfolding put
  get_or-put [] zero v zero = refl
  get_or-put [] zero v (suc j) = ground arith
  get_or-put [] (suc i) v zero = ground arith
  get_or-put [] (suc i) v (suc j) = ground (arith, get_or-put [] i v j)
  get_or-put (x ∷ xs) zero v zero = refl
  get_or-put (x ∷ xs) zero v (suc j) = ground arith
  get_or-put (x ∷ xs) (suc i) v zero = ground arith
  get_or-put (x ∷ xs) (suc i) v (suc j) = ground (arith, get_or-put xs i v j)

  -- To put a value behind the last one is to append it.
  pub put-length : (xs : List (Value D)) (v : Value D) → put xs (length xs) v ≡ xs ++ v ∷ []
  unfolding put
  put-length [] v = refl
  put-length (x ∷ xs) v = ap (λ l. x ∷ l) (put-length xs v)

  -- `fill` writes the given value to its cells and leaves the others.
  pub length-fill :
      (rounds i : ℕ) (v : Value D) (cells : List (Option (Value D)))
      → length (fill rounds i v cells) ≡ length cells
  unfolding fill
  length-fill zero i v cells = refl
  length-fill (suc rounds) i v cells =
      length-fill rounds (i + 1) v (set cells i (some v)) ∙ length-set cells i (some v)

  pub get_or-fill :
      (rounds i : ℕ) (v : Value D) (cells : List (Option (Value D))) (j : ℕ)
      → i + rounds ≤ length cells
      → get_or (fill rounds i v cells) j none
        ≡ (if leb i j && ltb j (i + rounds) then some v else get_or cells j none)
  unfolding fill
  get_or-fill zero i v cells j h = ground arith
  get_or-fill (suc rounds) i v cells j h = ground (
    arith,
    get_or-fill rounds (i + 1) v (set cells i (some v)) j
        (omega (arith, length-set cells i (some v))),
    get_or-set cells i j (some v) none (omega arith),
  )

-- The cells after growing: as many as asked for, the old ones first.
module _ {A : Type 0} (cells : List (Option A)) (n : ℕ) (more : length cells ≤ n) where
  pub length-grow_array : length (grow_array cells n) ≡ n
  length-grow_array =
      let fresh : List (Option A) = replicate (n - length cells) none in
      let size : length fresh ≡ n - length cells =
        length-replicate {A = Option A} (n - length cells) none in
      rw (take_all cells n more) (omega (arith, length-append cells fresh, size))

  pub get_or-grow_array :
      (i : ℕ) → i < length cells → get_or (grow_array cells n) i none ≡ get_or cells i none
  get_or-grow_array i h =
      rw (take_all cells n more) (get_or-append cells (replicate (n - length cells) none) i none h)
