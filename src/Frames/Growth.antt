-- ===== src/Frames/Growth.antt =====
-- src/vm.c, `growStack`: a stack that moves keeps its cells, its registers and its open upvalues.
use native.Mathlib.Decide.{dec_lt}
use xan.Base.{
  ℕ, zero, suc, ◌+◌, ◌-◌, ◌*◌, ◌<◌, ◌≤◌, ◌≡◌, refl, sym, ap, ◌∙◌, ◌⊎◌, inl, inr, arith, true, false,
  List, [], ◌∷◌, some, ltb, length, IsIn,
}
use xan.Memory.{grow_capacity}
use xan.Value.{nil}
use xan.Collector.Roots.{value}
use xan.Frames.{OpenUpvalue, CallStack, Realloc, grow_to, relocate, slot_at, grow_stack}

grow_capacity-le : (n : ℕ) → (n + 1 ≤ grow_capacity n) × (grow_capacity n ≤ 2 * n + 8)
unfolding grow_capacity
grow_capacity-le n = (ground arith, ground arith)

-- The loop ends, and passes what is needed by no more than a factor of two.
grow_to_lem :
    (fuel size needed : ℕ)
    → needed ≤ size + fuel
    → (n : ℕ) × (grow_to fuel size needed ≡ some n)
      × (needed ≤ n)
      × (size ≤ n)
      × ((n ≡ size) ⊎ (n ≤ 2 * needed + 8))
unfolding grow_to
grow_to_lem zero size needed enough =
    let test : ltb size needed ≡ false = ground arith in
    (size, rw test refl, omega arith, omega arith, inl refl)
grow_to_lem (suc fuel) size needed enough = elim (dec_lt size needed) [
  | no ge ↦
      let test : ltb size needed ≡ false = ground arith in
      (size, rw test refl, omega arith, omega arith, inl refl)
  | yes lt ↦
      let test : ltb size needed ≡ true = ground arith in
      let (more, less) = grow_capacity-le size in
      let (n, run, room, above, bound) =
        grow_to_lem fuel (grow_capacity size) needed (omega arith) in
      (n, rw test run, room, omega arith, inr (elim bound [ inl e ↦ omega arith | inr le ↦ le ]))
]

-- A stack as `thread` keeps it: its addresses in order, `stackLast` the last cell, and the open upvalues in it.
pub record IsStack {D : Type 0} (t : CallStack D) : Type 0 where
  pub base_on : t.address ≤ t.base
  pub base_below : t.base ≤ t.stack_top
  pub top_below : t.stack_top ≤ t.stack_last
  pub size : t.stack_last + 1 ≡ t.address + length t.cells
  pub upvalues_in :
      (u : OpenUpvalue)
      → IsIn u t.open_upvalues
      → (t.address ≤ u.location) × (u.location ≤ t.stack_last)

-- A stack at another address, with what it had at the same places.
pub record IsMoved {D : Type 0} (t t' : CallStack D) : Type 0 where
  pub base_same : t'.base + t.address ≡ t.base + t'.address
  pub cells_same : (i : ℕ) → i < length t.cells → slot_at t' i ≡ slot_at t i
  pub more_cells : length t.cells ≤ length t'.cells
  pub upvalues_same : t'.open_upvalues ≡ relocate t.address t'.address t.open_upvalues
  pub closed_same : t'.closed ≡ t.closed

relocate-IsIn :
    (old new last last' : ℕ) (us : List OpenUpvalue) (u : OpenUpvalue)
    → ((v : OpenUpvalue) → IsIn v us → (old ≤ v.location) × (v.location ≤ last))
    → last + new ≤ last' + old
    → IsIn u (relocate old new us)
    → (new ≤ u.location) × (u.location ≤ last')
relocate-IsIn old new last last' [] u inside le i = elim i [ ]
relocate-IsIn old new last last' (v ∷ us) u inside le (inl e) =
    let (low, high) = inside v (inl refl) in
    let at = ap (λ (w : OpenUpvalue). w.location) e in (omega arith, omega arith)
relocate-IsIn old new last last' (v ∷ us) u inside le (inr i) =
    relocate-IsIn old new last last' us u (λ w j. inside w (inr j)) le i

relocate_same : (old : ℕ) (us : List OpenUpvalue) → relocate old old us ≡ us
relocate_same old [] = refl
relocate_same old (u ∷ us) =
    let at : u.location + old - old ≡ u.location = omega arith in rw (relocate_same old us, at) refl

pub stays-IsMoved : {D : Type 0} (t : CallStack D) → IsMoved t t
stays-IsMoved t = record {
  base_same = refl;
  cells_same = λ i lt. refl;
  more_cells = omega arith;
  upvalues_same = sym (relocate_same t.address t.open_upvalues);
  closed_same = refl;
}

module _ {D : Type 0} (R : Realloc D) where
  -- `growStack` on a well-formed stack ends with one of at least the size that is asked for. It has as many cells
  -- as before, or at most twice the size that is asked for and eight. It is the old one at another address: each cell, the base, the top and each open upvalue are at
  -- the same distance from its start.
  pub grow_stack-IsMoved :
      (t : CallStack D) (needed : ℕ)
      → IsStack t
      → (t' : CallStack D) × (grow_stack R t needed ≡ some t')
        × IsStack t'
        × IsMoved t t'
        × (t'.stack_top + t.address ≡ t.stack_top + t'.address)
        × (needed ≤ length t'.cells)
        × ((length t'.cells ≡ length t.cells) ⊎ (length t'.cells ≤ 2 * needed + 8))
  unfolding grow_stack
  grow_stack-IsMoved t needed s =
      let count : t.stack_last + 1 - t.address ≡ length t.cells = omega (arith, s.size) in
      let (n, run, room, above, bound) =
        grow_to_lem needed (t.stack_last + 1 - t.address) needed (omega arith) in
      let new = R.new_address t.cells n in
      let total = R.new_cells_length t.cells n in
      (
        record {
          address = new;
          cells = R.new_cells t.cells n;
          stack_top = new + (t.stack_top - t.address);
          stack_last = new + n - 1;
          base = t.base + new - t.address;
          open_upvalues = relocate t.address new t.open_upvalues;
          closed = t.closed;
        },
        rw run refl,
        record {
          base_on = omega (arith, s.base_on);
          base_below = omega (arith, s.base_on, s.base_below);
          top_below = omega (arith, s.base_on, s.base_below, s.top_below);
          size = omega (arith, total, s.base_on, s.base_below, s.top_below);
          upvalues_in = λ u i.
              relocate-IsIn t.address new t.stack_last (new + n - 1) t.open_upvalues u s.upvalues_in
                (omega (arith, s.base_on, s.base_below, s.top_below)) i;
        },
        record {
          base_same = omega (arith, s.base_on);
          cells_same = λ i lt. R.new_cells_kept t.cells n i (value nil) lt (omega arith);
          more_cells = omega arith;
          upvalues_same = refl;
          closed_same = refl;
        },
        omega (arith, s.base_on, s.base_below),
        omega arith,
        elim bound [ inl e ↦ inl (total ∙ e ∙ count) | inr le ↦ inr (rw total le) ],
      )
