-- ===== src/Chunk/Code.antt =====
-- `writeChunk` against the lists of instructions and lines.
use xan.Base.{
  ℕ, ◌+◌, ◌<◌, ◌≤◌, ◌≡◌, refl, ◌∙◌, arith, Bool, true, false, List, [], ◌∷◌, ◌++◌, Option, none,
  some, ltb, if◌then◌else◌, length, get_or, set, length-append, length-set, get_or-append,
  get_or-set,
}
use xan.Memory.{grow_capacity}
use xan.Memory.RoundUp.{grow_capacity_grows}
use xan.Array.{grow_array}
use xan.Array.Contents.{length-grow_array, get_or-grow_array}
use xan.Chunk.{Chunk, write_chunk}

-- The first `n` cells are the list, and there are `capacity` cells.
pub record Filled (n capacity : ℕ) (cells : List (Option ℕ)) (xs : List ℕ) : Type 0 where
  pub counted : n ≡ length xs
  pub wide : length cells ≡ capacity
  pub fits : n ≤ capacity
  pub reads : (i : ℕ) → i < n → get_or cells i none ≡ some (get_or xs i 0)

get_or-last : (xs : List ℕ) (x : ℕ) → get_or (xs ++ x ∷ []) (length xs) 0 ≡ x
get_or-last [] x = refl
get_or-last (y ∷ xs) x = get_or-last xs x

push_read :
    (n : ℕ) (cells : List (Option ℕ)) (xs : List ℕ) (x i : ℕ)
    → n ≡ length xs
    → i < n + 1
    → n < length cells
    → ((j : ℕ) → j < n → get_or cells j none ≡ some (get_or xs j 0))
    → get_or (set cells n (some x)) i none ≡ some (get_or (xs ++ x ∷ []) i 0)
push_read n cells xs x i counted lt room reads = ground (
  arith,
  get_or-set cells n i (some x) none room,
  get_or-last xs x,
  get_or-append xs (x ∷ []) i 0,
  reads i,
)

-- One more value, in an array that is grown first if it is full.
push-Filled :
    (n capacity : ℕ) (cells : List (Option ℕ)) (xs : List ℕ) (x : ℕ) (small : Bool)
    → ltb capacity (n + 1) ≡ small
    → Filled n capacity cells xs
    → Filled
        (n + 1)
        (if small then grow_capacity capacity else capacity)
        (set (if small then grow_array cells (grow_capacity capacity) else cells) n (some x))
        (xs ++ x ∷ [])
push-Filled n capacity cells xs x false e f = record {
  counted = omega (arith, f.counted, length-append xs (x ∷ []));
  wide = length-set cells n (some x) ∙ f.wide;
  fits = ground arith;
  reads = λ i lt. push_read n cells xs x i f.counted lt (ground (arith, f.wide)) f.reads;
}
push-Filled n capacity cells xs x true e f =
    let bigger = grow_capacity capacity in
    let le : length cells ≤ bigger = omega (arith, f.wide, (grow_capacity_grows capacity).1) in
    let size = length-grow_array cells bigger le in
    record {
      counted = omega (arith, f.counted, length-append xs (x ∷ []));
      wide = length-set (grow_array cells bigger) n (some x) ∙ size;
      fits = omega (arith, f.fits, (grow_capacity_grows capacity).1);
      reads = λ i lt.
          push_read n (grow_array cells bigger) xs x i f.counted lt
            (omega (arith, size, f.fits, (grow_capacity_grows capacity).1))
            (λ j less.
              get_or-grow_array cells bigger le j (omega (arith, f.wide, f.fits)) ∙ f.reads j less);
    }

module _ {D : Type 0} where
  -- The code and the lines of a chunk hold the two lists.
  pub record HoldsCode (c : Chunk D) (instructions lines : List ℕ) : Type 0 where
    pub code_is : Filled c.count c.capacity c.code instructions
    pub lines_is : Filled c.count c.capacity c.lines lines

  -- `writeChunk` on a well-formed chunk appends the instruction and its line, and returns the index
  -- of the instruction.
  pub write_chunk-HoldsCode :
      (c : Chunk D) (instructions lines : List ℕ) (opcode line : ℕ)
      → HoldsCode c instructions lines
      → ((write_chunk c opcode line).0 ≡ length instructions)
        × HoldsCode (write_chunk c opcode line).1 (instructions ++ opcode ∷ []) (lines ++ line ∷ [])
  unfolding write_chunk
  write_chunk-HoldsCode c instructions lines opcode line h = (
    h.code_is.counted,
    record {
      code_is = push-Filled c.count c.capacity c.code instructions opcode _ refl h.code_is;
      lines_is = push-Filled c.count c.capacity c.lines lines line _ refl h.lines_is;
    },
  )
