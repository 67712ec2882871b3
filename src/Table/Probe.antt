-- ===== src/Table/Probe.antt =====
-- The search of `findEntry`: where it starts, how it goes round, and where it ends.
use native.Mathlib.Decide.{dec_lt}
use native.Mathlib.Nat.{
  pow-suc, one-le-pow, pow-le-pow_right, mod-eq_of_lt, mod_self, zero-mod, mod-lt,
}
use xan.Base.{
  clash, ℕ, zero, suc, ◌+◌, ◌-◌, ◌*◌, ◌/◌, ◌%◌, ◌^◌, ◌≤◌, ◌<◌, ◌≡◌, refl, ◌⊎◌, inl, inr, arith,
  bit_and, true, false, List, Option, none, some, ltb, if◌then◌else◌, Bool-cases,
}
use xan.Base.Bits.{bit_and_step, bit_and_mask}
use xan.Value.{Val, Number, Strings, is_nil, values_equal, hash}
use xan.Table.{key, value, first_free, probe}

-- The slot `d` steps after `h` in a ring of `n` slots, for `h` and `d` below `n`.
abbrev pub pos : ℕ → ℕ → ℕ → ℕ
pos n h d = if ltb (h + d) n then h + d else h + d - n

pub pos-lt : (n h d : ℕ) → h < n → d < n → pos n h d < n
pos-lt n h d p q = ground arith

-- Every slot is met within one round.
pub pos_reaches : (n h s : ℕ) → h < n → s < n → (d : ℕ) × (d < n) × (pos n h d ≡ s)
pos_reaches n h s p q = ((if ltb s h then s + n - h else s - h), ground arith, ground arith)

wrap_below : (m x : ℕ) → m ≤ 2 ^ 32 → x < m → x % 2 ^ 32 % m ≡ x
wrap_below m x top h = let e : x % 2 ^ 32 ≡ x = omega arith in rw e (mod-eq_of_lt h)

wrap_at : (m : ℕ) → m ≤ 2 ^ 32 → m % 2 ^ 32 % m ≡ 0
wrap_at m top = elim (dec_lt m (2 ^ 32)) [
  | yes h ↦ let e : m % 2 ^ 32 ≡ m = omega arith in rw e (mod_self m)
  | no h ↦ let e : m % 2 ^ 32 ≡ 0 = omega arith in rw e (zero-mod m)
]

-- The slot after `s` in the ring.
pub next_slot :
    (k s : ℕ)
    → k < 32
    → s < 2 ^ k
    → bit_and ((2 * s + 2) % 2 ^ 32) (2 ^ suc k - 1)
      ≡ 2 * (if ltb (s + 1) (2 ^ k) then s + 1 else 0)
next_slot k s small ps =
    let top : 2 ^ suc k ≤ 2 ^ 32 = pow-le-pow_right (omega arith) {i = suc k} {j = 32} small in
    let two : 2 ^ suc k ≡ 2 * 2 ^ k = omega (arith, pow-suc 2 k) in
    rw (bit_and_mask (suc k)) (elim (dec_lt (2 * s + 2) (2 ^ suc k)) [
      | yes in_range ↦ rw (wrap_below (2 ^ suc k) _ top in_range) (ground arith)
      | no at_end ↦
          let e : 2 * s + 2 ≡ 2 ^ suc k = ground arith in
          rw (e, wrap_at (2 ^ suc k) top) (ground arith)
    ])

pub next_index :
    (k h d : ℕ)
    → k < 32
    → h < 2 ^ k
    → d + 1 < 2 ^ k
    → bit_and ((2 * pos (2 ^ k) h d + 2) % 2 ^ 32) (2 ^ suc k - 1) ≡ 2 * pos (2 ^ k) h (d + 1)
next_index k h d small ph pd =
    rw (next_slot k (pos (2 ^ k) h d) small (pos-lt (2 ^ k) h d ph (omega arith))) (ground arith)

pub start_index : (k x : ℕ) → k < 32 → bit_and x (2 ^ suc k - 1 - 1) % 2 ^ 32 ≡ 2 * (x / 2 % 2 ^ k)
start_index k x small =
    let top : 2 ^ suc k ≤ 2 ^ 32 = pow-le-pow_right (omega arith) {i = suc k} {j = 32} small in
    let even : bit_and x (2 ^ suc k - 1 - 1) ≡ 2 * (x / 2 % 2 ^ k) = ground (
      arith,
      pow-suc 2 k,
      one-le-pow k 2,
      bit_and_step x (2 ^ suc k - 1 - 1),
      bit_and_mask k (x / 2),
    ) in
    rw even (omega (arith, pow-suc 2 k, mod-lt (x / 2) (one-le-pow k 2 (omega arith))))

module _ (N : Number) (S : Strings) where
  -- The slot at which the search for a key starts.
  unfoldable pub home : ℕ → Val N → ℕ
  home k x = hash N S x / 2 % 2 ^ k

  pub home-lt : (k : ℕ) (x : Val N) → home k x < 2 ^ k
  unfolding home
  home-lt k x = mod-lt (hash N S x / 2) (one-le-pow k 2 (omega arith))

abbrev pub IsEmpty : (N : Number) → List (Val N) → ℕ → Type 0
IsEmpty N es i = (is_nil (key es i) ≡ true) × (is_nil (value es i) ≡ true)

-- An entry that the search for `x` goes past.
abbrev pub IsPassed : (N : Number) → Val N → List (Val N) → ℕ → Type 0
IsPassed N x es i =
    ((is_nil (key es i) ≡ true) × (is_nil (value es i) ≡ false))
    ⊎ ((is_nil (key es i) ≡ false) × (values_equal N x (key es i) ≡ false))

-- How a search for `x` in `n` slots from slot `h` on ends at the entry `i`.
pub data Ends (N : Number) (x : Val N) (n h : ℕ) (es : List (Val N)) (i : ℕ) : Type 0 where
  hit :
      (d : ℕ)
      → d < n
      → i ≡ 2 * pos n h d
      → is_nil (key es i) ≡ false
      → values_equal N x (key es i) ≡ true
      → ((p : ℕ) → p < d → IsPassed N x es (2 * pos n h p))
      → Ends N x n h es i
  miss :
      (d e : ℕ)
      → d ≤ e
      → e < n
      → i ≡ 2 * pos n h d
      → is_nil (key es i) ≡ true
      → IsEmpty N es (2 * pos n h e)
      → ((p : ℕ) → p < e → IsPassed N x es (2 * pos n h p))
      → Ends N x n h es i

strictly : (d e : ℕ) → d ≤ e → (d ≡ e → ⊥) → d + 1 ≤ e
strictly d e le ne = elim (dec_lt d e) [ yes lt ↦ omega arith | no ge ↦ absurd (ne (omega arith)) ]

module _ (N : Number) (S : Strings) (x : Val N) (k h : ℕ) (es : List (Val N)) where
  abbrev IsMark : ℕ → Option ℕ → Type 0
  IsMark d none = Unit
  IsMark d (some t) = (f : ℕ) × (f < d) × (t ≡ 2 * pos (2 ^ k) h f) × (is_nil (key es t) ≡ true)

  free-IsMark :
      (d : ℕ) (mark : Option ℕ)
      → IsMark d mark
      → is_nil (key es (2 * pos (2 ^ k) h d)) ≡ true
      → IsMark (d + 1) (some (first_free mark (2 * pos (2 ^ k) h d)))
  free-IsMark d none m dead = (d, omega arith, refl, dead)
  free-IsMark d (some t) (f, lt, at, free) dead = (f, omega arith, at, free)

  keep-IsMark : (d : ℕ) (mark : Option ℕ) → IsMark d mark → IsMark (d + 1) mark
  keep-IsMark d none m = tt
  keep-IsMark d (some t) (f, lt, at, free) = (f, omega arith, at, free)

  miss-IsMark :
      (d : ℕ) (mark : Option ℕ)
      → IsMark d mark
      → d < 2 ^ k
      → IsEmpty N es (2 * pos (2 ^ k) h d)
      → ((p : ℕ) → p < d → IsPassed N x es (2 * pos (2 ^ k) h p))
      → Ends N x (2 ^ k) h es (first_free mark (2 * pos (2 ^ k) h d))
  miss-IsMark d none m lt dead past = miss d d (omega arith) lt refl dead.0 dead past
  miss-IsMark d (some t) (f, lf, at, free) lt dead past =
      miss f d (omega arith) lt at free dead past

  past-suc :
      (d : ℕ)
      → ((p : ℕ) → p < d → IsPassed N x es (2 * pos (2 ^ k) h p))
      → IsPassed N x es (2 * pos (2 ^ k) h d)
      → (p : ℕ) → p < d + 1
      → IsPassed N x es (2 * pos (2 ^ k) h p)
  past-suc d past this p lt = elim (dec_lt p d) [
    | yes before ↦ past p before
    | no here ↦ let e : p ≡ d = omega arith in rw e this
  ]

  pub probe-Ends :
      (fuel d e : ℕ) (mark : Option ℕ)
      → k < 32
      → h < 2 ^ k
      → e < d + fuel
      → d ≤ e
      → e < 2 ^ k
      → IsEmpty N es (2 * pos (2 ^ k) h e)
      → IsMark d mark
      → ((p : ℕ) → p < d → IsPassed N x es (2 * pos (2 ^ k) h p))
      → (i : ℕ) × (probe N S fuel es (2 ^ suc k - 1) x mark (2 * pos (2 ^ k) h d) ≡ some i)
        × Ends N x (2 ^ k) h es i
  unfolding probe
  probe-Ends zero d e mark small ph enough le lt stop m past = absurd (omega arith)
  probe-Ends (suc fuel) d e mark small ph enough le lt stop m past =
      elim (Bool-cases (is_nil (key es (2 * pos (2 ^ k) h d)))) [
        | inl dead ↦ elim (Bool-cases (is_nil (value es (2 * pos (2 ^ k) h d)))) [
          | inl empty ↦ (
            first_free mark (2 * pos (2 ^ k) h d),
            rw (dead, empty),
            miss-IsMark d mark m (omega arith) (dead, empty) past,
          )
          | inr tomb ↦
              let more : d + 1 ≤ e = strictly d e le (λ q. clash stop.1 (rw q at tomb)) in
              rw (dead, tomb, next_index k h d small ph (omega arith))
                (probe-Ends fuel (d + 1) e (some (first_free mark (2 * pos (2 ^ k) h d))) small ph
                  (omega arith) more lt stop (free-IsMark d mark m dead)
                  (past-suc d past (inl (dead, tomb))))
        ]
        | inr live ↦ elim (Bool-cases (values_equal N x (key es (2 * pos (2 ^ k) h d)))) [
          | inl same ↦
              (2 * pos (2 ^ k) h d, rw (live, same), hit d (omega arith) refl live same past)
          | inr other ↦
              let more : d + 1 ≤ e = strictly d e le (λ q. clash stop.0 (rw q at live)) in
              rw (live, other, next_index k h d small ph (omega arith))
                (probe-Ends fuel (d + 1) e mark small ph (omega arith) more lt stop
                  (keep-IsMark d mark m) (past-suc d past (inr (live, other))))
        ]
      ]
