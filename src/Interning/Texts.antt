-- ===== src/Interning/Texts.antt =====
-- The table of strings keeps one object for each text.
use native.Mathlib.Decide.{ℕ_discrete}
use xan.Base.{
  clash, ℕ, ◌*◌, ◌^◌, ◌<◌, ◌≡◌, refl, sym, ap, ◌∙◌, inl, inr, arith, true, false, List, [], Option,
  none, some, Bool-cases, length, ◌==◌, ==_iff, ◌≢◌,
}
use xan.Base.Bytes.{same_bytes, same_bytes_lem, same_bytes_refl}
use xan.Value.{Val, nil, bool, number, obj, Number, Strings, is_nil, values_equal, hash}
use xan.Table.{Table, key}
use xan.Table.Slots.{IsReached, Says}
use xan.Table.Model.{Models}
use xan.Table.Entries.{is_none}
use xan.Table.Probe.{home}
use xan.Interning.{ObjString, Interner, hash_string, strings_of, is_text, put}
use xan.Interning.Plain.{IsPlain}

-- The object of a text.
abbrev pub text : List ℕ → ObjString
text chars = record { chars = chars; length = length chars; hash = hash_string chars }

pub is_text-text : (a b : List ℕ) → is_text (text a) b (length b) (hash_string b) ≡ true → a ≡ b
is_text-text a b h = elim (ℕ_discrete (length a) (length b)) [
  | no ne ↦
      let test : (length a == length b) ≡ false = ground arith in absurd (clash h (rw test refl))
  | yes e ↦ elim (Bool-cases (same_bytes a b)) [
    | inl same ↦ same_bytes_lem a b e same
    | inr other ↦ absurd (clash h (ground (arith, other)))
  ]
]

pub is_text_refl : (a : List ℕ) → is_text (text a) a (length a) (hash_string a) ≡ true
is_text_refl a =
    let sizes : (length a == length a) ≡ true = ground arith in
    let hashes : (hash_string a == hash_string a) ≡ true = ground arith in
    rw (sizes, hashes, same_bytes_refl a) refl

pub text_inj : {a b : List ℕ} → some (text a) ≡ some (text b) → a ≡ b
text_inj h = ap (λ (o : Option ObjString). elim o [ none ↦ [] | some s ↦ s.chars ]) h

module _ (N : Number) where
  -- What the table holds depends on the hashes of the strings in it only.
  pub Models-strings :
      (S S' : Strings) (t : Table N.Double) (f : Val N → Option (Val N))
      → (m : Models N S t f)
      → ((s : ℕ)
          → s < 2 ^ m.exponent
          → is_nil (key t.entries (2 * s)) ≡ false
          → hash N S (key t.entries (2 * s)) ≡ hash N S' (key t.entries (2 * s)))
      → (m' : Models N S' t f) × (m'.exponent ≡ m.exponent)
  Models-strings S S' t f m same = (
    record {
      exponent = m.exponent;
      small = m.small;
      mask = m.mask;
      placed = record {
        width = m.placed.width;
        reached = λ s ls live. moved s ls live (m.placed.reached s ls live);
        distinct = m.placed.distinct;
      };
      counted = m.counted;
      room = m.room;
      means = m.means;
    },
    refl,
  )
    where
      moved :
          (s : ℕ)
          → s < 2 ^ m.exponent
          → is_nil (key t.entries (2 * s)) ≡ false
          → IsReached N S m.exponent t.entries (key t.entries (2 * s)) s
          → IsReached N S' m.exponent t.entries (key t.entries (2 * s)) s
      moved s ls live r =
          let e : home N S m.exponent (key t.entries (2 * s))
              ≡ home N S' m.exponent (key t.entries (2 * s)) =
            unfold home in rw (same s ls live) refl in
          record {
            distance = r.distance;
            near = r.near;
            arrives = rw e at r.arrives;
            used = λ p lp. rw e at (r.used p lp);
          }

  -- Every key is a string object of its text, and no two of them have the same text.
  pub record IsInterned (st : Interner N.Double) : Type 0 where
    pub holds : Val N → Option (Val N)
    pub models : Models N (strings_of st.heap) st.strings holds
    pub plain : IsPlain N st.strings.entries
    pub texts :
        (v : Val N)
        → is_none (holds v) ≡ false
        → (p : ℕ) × ((chars : List ℕ) × (v ≡ obj p) × (st.heap p ≡ some (text chars)))
    pub alone :
        (p q : ℕ) (chars : List ℕ)
        → is_none (holds (obj p)) ≡ false
        → is_none (holds (obj q)) ≡ false
        → st.heap p ≡ some (text chars)
        → st.heap q ≡ some (text chars)
        → p ≡ q

  -- What `tableFindString` says of a text.
  abbrev pub IsFound :
      (ℕ → Option ObjString) → (Val N → Option (Val N)) → List ℕ → Option ℕ → Type 0
  IsFound heap holds chars (some p) =
      (is_none (holds (obj p)) ≡ false) × (heap p ≡ some (text chars))
  IsFound heap holds chars none =
      (p : ℕ) → is_none (holds (obj p)) ≡ false → heap p ≢ some (text chars)

  pub address_equal : (p : ℕ) (v : Val N) → values_equal N (obj p) v ≡ true → v ≡ obj p
  unfolding values_equal
  address_equal p nil h = cc
  address_equal p (bool b) h = cc
  address_equal p (number d) h = cc
  address_equal p (obj q) h = rw ((==_iff p q).0 h) refl

  pub obj_self : (p : ℕ) → values_equal N (obj p) (obj p) ≡ true
  unfolding values_equal
  obj_self p = ground arith

  pub obj_other : (p q : ℕ) → p ≢ q → values_equal N (obj p) (obj q) ≡ false
  unfolding values_equal
  obj_other p q ne = ground arith

  pub obj_inj : {p q : ℕ} {v : Val N} → v ≡ obj p → v ≡ obj q → p ≡ q
  obj_inj g h = cc

  pub nil_is : (v : Val N) → is_nil v ≡ true → v ≡ nil
  nil_is nil h = refl
  nil_is (bool b) h = cc
  nil_is (number d) h = cc
  nil_is (obj p) h = cc

  module _ (st : Interner N.Double) (m : IsInterned st) where
    -- Each live key is held.
    pub live-holds :
        (s : ℕ)
        → s < 2 ^ m.models.exponent
        → is_nil (key st.strings.entries (2 * s)) ≡ false
        → is_none (m.holds (key st.strings.entries (2 * s))) ≡ false
    live-holds s ls live =
        go (m.holds (key st.strings.entries (2 * s)))
          (m.models.means (key st.strings.entries (2 * s)))
      where
        go :
            (r : Option (Val N))
            → Says N
                (strings_of st.heap)
                m.models.exponent
                st.strings.entries
                (key st.strings.entries (2 * s))
                r
            → is_none r ≡ false
        go (some v) says = refl
        go none says = absurd (clash (m.plain (2 * s)) (says s ls live))

    pub holds-live :
        (p : ℕ)
        → is_none (m.holds (obj p)) ≡ false
        → (s : ℕ) × (s < 2 ^ m.models.exponent) × (key st.strings.entries (2 * s) ≡ obj p)
    holds-live p held = go (m.holds (obj p)) held (m.models.means (obj p))
      where
        go :
            (r : Option (Val N))
            → is_none r ≡ false
            → Says N (strings_of st.heap) m.models.exponent st.strings.entries (obj p) r
            → (s : ℕ) × (s < 2 ^ m.models.exponent) × (key st.strings.entries (2 * s) ≡ obj p)
        go none held says = cc
        go (some v) held (s, ls, live, same, there) = (s, ls, address_equal p _ same)

    -- A string in the table is the object of its text.
    pub held-text :
        (p : ℕ)
        → is_none (m.holds (obj p)) ≡ false
        → (chars : List ℕ) × (st.heap p ≡ some (text chars))
    held-text p held =
        let (q, (c, at, there)) = m.texts (obj p) held in (c, rw (obj_inj refl at) there)

    pub not_fresh :
        (fresh p : ℕ) (c : List ℕ) → st.heap fresh ≡ none → st.heap p ≡ some (text c) → fresh ≢ p
    not_fresh fresh p c free there e = differ (sym free ∙ (rw (← e) at there))
      where
        differ : {o : ObjString} → none ≡ some o → ⊥
        differ h = cc

    -- A new object changes nothing for the strings in the table.
    pub fresh-Models :
        (fresh : ℕ) (o : ObjString)
        → st.heap fresh ≡ none
        → (m' : Models N (strings_of (put st.heap fresh o)) st.strings m.holds) × (m'.exponent
            ≡ m.models.exponent)
    fresh-Models fresh o free =
        Models-strings (strings_of st.heap) (strings_of (put st.heap fresh o)) st.strings m.holds
          m.models same
      where
        same :
            (s : ℕ)
            → s < 2 ^ m.models.exponent
            → is_nil (key st.strings.entries (2 * s)) ≡ false
            → hash N (strings_of st.heap) (key st.strings.entries (2 * s))
              ≡ hash N (strings_of (put st.heap fresh o)) (key st.strings.entries (2 * s))
        same s ls live =
            let (p, (c, here, there)) = m.texts _ (live-holds s ls live) in
            let ne = not_fresh fresh p c free there in
            let e : put st.heap fresh o p ≡ st.heap p = ground arith in
            unfold hash in
            rw here (ap (λ (r : Option ObjString). elim r [ none ↦ 0 | some o ↦ o.hash ]) (sym e))
