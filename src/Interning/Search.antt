-- ===== src/Interning/Search.antt =====
-- `tableFindString` goes where `findEntry` goes for the string it finds.
use native.Mathlib.Nat.{one-le-pow, mod-lt}
use xan.Base.{
  some-injective, ℕ, zero, suc, ◌+◌, ◌-◌, ◌*◌, ◌/◌, ◌%◌, ◌^◌, ◌<◌, ◌≡◌, refl, sym, ap, ◌⊎◌, inl,
  inr, arith, true, List, Option, none, some, ltb, if◌then◌else◌, Bool-cases,
}
use xan.Value.{Val, Value, nil, bool, number, obj, is_nil, Number, Strings, values_equal, hash}
use xan.Table.{Table, key, value, first_free, probe, find_entry}
use xan.Table.Probe.{next_slot, start_index}
use xan.Interning.{ObjString, is_text, find_from, table_find_string}

-- `AS_STRING(KEY(e))`.
abbrev pub address : {D : Type 0} → Value D → Option ℕ
address (obj p) = some p
address _ = none

-- The entry is free, or it holds a string that is the text exactly if it is equal to the key `x`.
abbrev pub Agrees : (N : Number) → (ℕ → Option ObjString) → Val N → List ℕ → ℕ → ℕ → Val N → Type 0
Agrees N heap x chars len hash v =
    (v ≡ nil)
    ⊎ ((p : ℕ) × ((s : ObjString) × (v ≡ obj p)
          × (heap p ≡ some s)
          × (is_text s chars len hash ≡ values_equal N x (obj p))))

abbrev IsFree : {D : Type 0} → List (Value D) → Option ℕ → Type 0
IsFree es none = Unit
IsFree es (some i) = is_nil (key es i) ≡ true

pub address-nil : {D : Type 0} (v : Value D) → is_nil v ≡ true → address v ≡ none
address-nil nil h = refl
address-nil (bool b) h = refl
address-nil (number d) h = refl
address-nil (obj p) h = cc

first_free-IsFree :
    {D : Type 0} (es : List (Value D)) (mark : Option ℕ) (i : ℕ)
    → IsFree es mark
    → is_nil (key es i) ≡ true
    → is_nil (key es (first_free mark i)) ≡ true
first_free-IsFree es none i free dead = dead
first_free-IsFree es (some t) i free dead = free

module _ (N : Number) (S : Strings) (heap : ℕ → Option ObjString) (x : Val N) (chars : List ℕ)
    (len h : ℕ) (k : ℕ) (small : k < 32) (es : List (Val N))
    (agree : (s : ℕ) → s < 2 ^ k → Agrees N heap x chars len h (key es (2 * s))) where
  abbrev after : ℕ → ℕ
  after s = if ltb (s + 1) (2 ^ k) then s + 1 else 0

  find_from-probe :
      (fuel s i : ℕ) (mark : Option ℕ)
      → s < 2 ^ k
      → IsFree es mark
      → probe N S fuel es (2 ^ suc k - 1) x mark (2 * s) ≡ some i
      → find_from N heap fuel es (2 ^ suc k - 1) chars len h (2 * s) ≡ some (address (key es i))
  unfolding probe find_from
  find_from-probe zero s i mark ls free run = cc
  find_from-probe (suc fuel) s i mark ls free run =
      let on : after s < 2 ^ k = ground arith in
      elim (agree s ls) [
        | inl dead ↦ elim (Bool-cases (is_nil (value es (2 * s)))) [
          | inl empty ↦
              let e : first_free mark (2 * s) ≡ i =
                some-injective (rw (probe, dead, empty) at run) in
              let gone = first_free-IsFree es mark (2 * s) free (rw dead refl) in
              rw (find_from, dead, empty) (ap some (sym (address-nil (key es i) (rw e at gone))))
          | inr tomb ↦
              let gone = first_free-IsFree es mark (2 * s) free (rw dead refl) in
              rw (find_from, dead, tomb, next_slot k s small ls)
                (find_from-probe fuel (after s) i (some (first_free mark (2 * s))) on gone
                  (rw (probe, dead, tomb, next_slot k s small ls) at run))
        ]
        | inr (p, (o, here, there, same)) ↦ elim (Bool-cases (values_equal N x (obj p))) [
          | inl hit ↦
              let e : 2 * s ≡ i = some-injective (rw (probe, here, hit) at run) in
              rw (find_from, ← e, here, there, same, hit) refl
          | inr other ↦
              rw (find_from, here, there, same, other, next_slot k s small ls)
                (find_from-probe fuel (after s) i mark on free
                  (rw (probe, here, other, next_slot k s small ls) at run))
        ]
      ]

  -- Both searches start at the home of the key.
  pub table_find_string-find_entry :
      (t : Table N.Double) (i : ℕ)
      → t.entries ≡ es
      → t.capacity_mask ≡ 2 ^ suc k - 1
      → hash N S x ≡ h
      → find_entry N S es (2 ^ suc k - 1) x ≡ some i
      → table_find_string N heap t chars len h ≡ some (address (key es i))
  unfolding table_find_string find_entry
  table_find_string-find_entry t i content mask same run =
      let home_lt : h / 2 % 2 ^ k < 2 ^ k = mod-lt (h / 2) (one-le-pow k 2 (omega arith)) in
      rw (content, mask, start_index k h small)
        (find_from-probe (2 ^ suc k - 1 + 1) (h / 2 % 2 ^ k) i none home_lt tt
          (rw (same, start_index k h small) at run))
