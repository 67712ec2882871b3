-- ===== src/Table/Model.antt =====
-- A table as a function from keys to values.
use native.Mathlib.Decide.{dec_lt}
use native.Mathlib.Nat.{pow-suc, one-le-pow, pow-le-pow_right}
use xan.Base.{
  ℕ, zero, suc, ◌+◌, ◌-◌, ◌*◌, ◌/◌, ◌%◌, ◌^◌, ◌≤◌, ◌<◌, ◌≡◌, refl, arith, List, [], Option, none,
  some, if◌then◌else◌, ◌==◌, replicate,
}
use xan.Memory.{round_up_pow_2}
use xan.Memory.RoundUp.{round_up_pow_2-least}
use xan.Value.{Val, nil, Number, Strings}
use xan.Table.{find_entry, reinsert, Table, adjust_capacity, new_table}
use xan.Table.Slots.{IsPlaced, Finds, find_entry-Finds}
use xan.Table.Counting.{used_below, empty_left}
use xan.Table.Writes.{Means}
use xan.Table.Resize.{scan, scan-Means, reinsert-Rebuilt, fresh-Rebuilt}

pub exponent-lt : (j b : ℕ) → 2 ^ j < 2 ^ b → j < b
exponent-lt j b h = elim (dec_lt j b) [
  | yes lt ↦ lt
  | no ge ↦
      let back : 2 ^ b ≤ 2 ^ j = pow-le-pow_right (omega arith) {i = b} {j = j} (omega arith) in
      absurd (omega arith)
]

-- The size of a new table for `n` entries.
size_for :
    (n : ℕ)
    → 1 ≤ n
    → n ≤ 2 ^ 31
    → (k : ℕ) × (k < 32) × (round_up_pow_2 (2 * n % 2 ^ 64) ≡ 2 ^ suc k) × (2 * n ≤ 2 ^ suc k)
size_for n lo hi =
    let whole : 2 * n % 2 ^ 64 ≡ 2 * n = omega arith in
    let (j, _, e, above, under) = round_up_pow_2-least (2 * n) (omega arith) (omega arith) in
    let less : 2 ^ j < 2 ^ 33 = omega arith in rw whole (go j e above (exponent-lt j 33 less))
  where
    go :
        (j : ℕ)
        → round_up_pow_2 (2 * n) ≡ 2 ^ j
        → 2 * n ≤ 2 ^ j
        → j < 33
        → (k : ℕ) × (k < 32) × (round_up_pow_2 (2 * n) ≡ 2 ^ suc k) × (2 * n ≤ 2 ^ suc k)
    go zero e above lt = absurd (omega arith)
    go (suc k) e above lt = (k, omega arith, e, above)

module _ (N : Number) (S : Strings) where
  -- The table `t` is well formed and holds what the function `f` says.
  pub record Models (t : Table N.Double) (f : Val N → Option (Val N)) : Type 0 where
    pub exponent : ℕ
    pub small : exponent < 32
    pub mask : t.capacity_mask ≡ 2 ^ suc exponent - 1
    pub placed : IsPlaced N S exponent t.entries
    pub counted : used_below t.entries (2 ^ exponent) ≡ t.count
    pub room : t.count < 2 ^ exponent
    pub means : Means N S exponent t.entries f

  -- Every search in a well-formed table ends.
  pub search-Finds :
      (t : Table N.Double) (f : Val N → Option (Val N)) (x : Val N) (m : Models t f)
      → (i : ℕ) × (find_entry N S t.entries t.capacity_mask x ≡ some i)
        × Finds N S m.exponent t.entries x i
  search-Finds t f x m =
      let (e, le, free, free_value) = empty_left t.entries (2 ^ m.exponent) (rw m.counted m.room) in
      rw m.mask
        (find_entry-Finds N S m.exponent t.entries x m.placed e m.small le (free, free_value))

  adjust_capacity-run :
      (t : Table N.Double) (rounds mask len : ℕ) (r : List (Val N) × ℕ)
      → (t.capacity_mask + 1) / 2 ≡ rounds
      → mask + 1 ≡ len
      → reinsert N S rounds 0 t.entries (replicate len nil) mask 0 ≡ some r
      → adjust_capacity N S t mask
        ≡ some (record { count = r.1; capacity_mask = mask; entries = r.0 })
  unfolding adjust_capacity
  adjust_capacity-run t rounds mask len r e w run = rw (e, w, run)

  -- `adjustCapacity` to a power of two, up to 2 ^ 32 cells, ends if the new table has more entries than
  -- the old one counts. It keeps the function that the table represents, and counts no more entries
  -- than before.
  pub adjust_capacity-Models :
      (t : Table N.Double) (f : Val N → Option (Val N)) (k : ℕ)
      → k < 32
      → t.count < 2 ^ k
      → Models t f
      → (t' : Table N.Double) × (adjust_capacity N S t (2 ^ suc k - 1) ≡ some t')
        × (t'.capacity_mask ≡ 2 ^ suc k - 1)
        × (t'.count ≤ t.count)
        × Models t' f
  adjust_capacity-Models t f k small fits m =
      let n = 2 ^ m.exponent in
      let rounds : (t.capacity_mask + 1) / 2 ≡ n =
        omega (arith, m.mask, pow-suc 2 m.exponent, one-le-pow m.exponent 2) in
      let width : 2 ^ suc k - 1 + 1 ≡ 2 ^ suc k = omega (arith, one-le-pow (suc k) 2) in
      let room : used_below t.entries n < 2 ^ k = rw m.counted fits in
      let (r, run, b) =
        reinsert-Rebuilt N S t.entries n k small m.placed.distinct room n 0
          (replicate (2 ^ suc k) nil) 0 (omega arith)
          (fresh-Rebuilt N S t.entries n k small m.placed.distinct room) in
      (
        record { count = r.1; capacity_mask = 2 ^ suc k - 1; entries = r.0 },
        adjust_capacity-run t n (2 ^ suc k - 1) (2 ^ suc k) r rounds width run,
        refl,
        omega (arith, b.few, m.counted),
        record {
          exponent = k;
          small = small;
          mask = refl;
          placed = b.placed;
          counted = b.counted;
          room = omega (arith, b.few, m.counted);
          means = λ q. rw (← scan-Means N S m.exponent t.entries f m.placed m.means q) (b.means q);
        },
      )

  -- `newTable` for at most 2 ^ 31 entries ends. The table represents the empty function, counts no
  -- entry and has at least two cells for each entry asked for.
  pub new_table-Models :
      (count : ℕ)
      → count ≤ 2 ^ 31
      → (t : Table N.Double) × (new_table N S count ≡ some t)
        × (t.count ≡ 0)
        × (2 * count ≤ t.capacity_mask + 1)
        × Models t (λ _. none)
  unfolding new_table scan
  new_table-Models count small =
      let n = if count == 0 then 1 else count in
      let (k, low, size, fits) = size_for n (ground arith) (ground arith) in
      let width : 2 ^ suc k - 1 + 1 ≡ 2 ^ suc k = omega (arith, one-le-pow (suc k) 2) in
      let b =
        fresh-Rebuilt N S [] 0 k low (λ s t ls lt _ _ _. absurd (omega arith)) (nothing_used k) in
      (
        record { count = 0; capacity_mask = 2 ^ suc k - 1; entries = replicate (2 ^ suc k) nil },
        rw size (
            adjust_capacity-run (record { count = 0; capacity_mask = 0; entries = [] }) 0
              (2 ^ suc k - 1) (2 ^ suc k) (replicate (2 ^ suc k) nil, 0) refl width
              (unfold reinsert in refl)),
        refl,
        ground (arith, width),
        record {
          exponent = k;
          small = low;
          mask = refl;
          placed = b.placed;
          counted = b.counted;
          room = one-le-pow k 2 (omega arith);
          means = b.means;
        },
      )
    where
      nothing_used : (k : ℕ) → used_below {D = N.Double} [] 0 < 2 ^ k
      nothing_used k = unfold used_below in one-le-pow k 2 (omega arith)
