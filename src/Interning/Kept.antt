-- ===== src/Interning/Kept.antt =====
-- The table of strings when a collection frees the objects that are not marked.
use xan.Base.{
  ℕ, ◌*◌, ◌^◌, ◌<◌, ◌≡◌, refl, sym, ap, ◌∙◌, inl, inr, Bool, true, false, Option, none, some,
  Bool-cases, if◌then◌else◌,
}
use xan.Value.{Val, obj, Number, is_nil, hash}
use xan.Table.{Table, key, is_white, table_remove_white}
use xan.Table.Entries.{is_none}
use xan.Table.Model.{Models}
use xan.Table.RemoveWhite.{table_remove_white-Models}
use xan.Interning.{ObjString, Interner, strings_of}
use xan.Interning.Plain.{IsPlain, table_remove_white-IsPlain}
use xan.Interning.Texts.{IsInterned, Models-strings, live-holds}

-- The objects that are not white.
abbrev pub without : (ℕ → Bool) → (ℕ → Option ObjString) → ℕ → Option ObjString
without white heap p = if white p then none else heap p

module _ (N : Number) (st : Interner N.Double) (m : IsInterned N st) (white : ℕ → Bool) where
  -- A table of the strings that are not white.
  module _ (t : Table N.Double) (g : Val N → Option (Val N))
      (models : Models N (strings_of st.heap) t g) (plain : IsPlain N t.entries)
      (dark : (q : Val N) → is_white white q ≡ false → g q ≡ m.holds q)
      (pale : (q : Val N) → is_white white q ≡ true → g q ≡ none) where
    still-dark :
        (v : Val N)
        → is_none (g v) ≡ false
        → (is_white white v ≡ false) × (is_none (m.holds v) ≡ false)
    still-dark v held = elim (Bool-cases (is_white white v)) [
      | inl is ↦ absurd (gone (pale v is) held)
      | inr off ↦ (off, rw (dark v off) at held)
    ]
      where
        gone : {r : Option (Val N)} → r ≡ none → is_none r ≡ false → ⊥
        gone e h = clash (rw e at h)
          where
            clash : true ≡ false → ⊥
            clash p = cc

    -- The table before the white objects are freed.
    abbrev before : IsInterned N (record { heap = st.heap; strings = t })
    before = record {
      holds = g;
      models = models;
      plain = plain;
      texts = λ v held. m.texts v (still-dark v held).1;
      alone =
          λ p q chars hp hq. m.alone p q chars (still-dark (obj p) hp).1 (still-dark (obj q) hq).1;
    }

    kept : (p : ℕ) → is_none (g (obj p)) ≡ false → without white st.heap p ≡ st.heap p
    kept p held = let off : white p ≡ false = (still-dark (obj p) held).0 in rw off refl

    hashes :
        (s : ℕ)
        → s < 2 ^ models.exponent
        → is_nil (key t.entries (2 * s)) ≡ false
        → hash N (strings_of st.heap) (key t.entries (2 * s))
          ≡ hash N (strings_of (without white st.heap)) (key t.entries (2 * s))
    hashes s ls live =
        let held = live-holds N (record { heap = st.heap; strings = t }) before s ls live in
        let (p, (c, here, there)) = before.texts (key t.entries (2 * s)) held in
        let e = kept p (rw here at held) in
        unfold hash in
        rw here (ap (λ (r : Option ObjString). elim r [ none ↦ 0 | some o ↦ o.hash ]) (sym e))

    abbrev after : IsInterned N (record { heap = without white st.heap; strings = t })
    after = record {
      holds = g;
      models =
          (Models-strings N (strings_of st.heap) (strings_of (without white st.heap)) t g models
            hashes).0;
      plain = plain;
      texts = λ v held.
          let (p, (c, here, there)) = before.texts v held in
          (p, (c, here, kept p (rw here at held) ∙ there));
      alone = λ p q chars hp hq tp tq.
          before.alone p q chars hp hq (sym (kept p hp) ∙ tp) (sym (kept q hq) ∙ tq);
    }

  -- `tableRemoveWhite` on the table of strings, with the white objects freed after it, leaves a table
  -- that keeps one object for each text, and in it each string that is not white.
  pub table_remove_white-IsInterned :
      (t : Table N.Double) × (table_remove_white N (strings_of st.heap) white st.strings ≡ some t)
      × ((m' : IsInterned N (record { heap = without white st.heap; strings = t })) × ((p : ℕ)
            → white p ≡ false
            → m'.holds (obj p) ≡ m.holds (obj p))
          × ((p : ℕ) → white p ≡ true → m'.holds (obj p) ≡ none))
  table_remove_white-IsInterned =
      let (t, run, (g, models, dark, pale)) =
        table_remove_white-Models N (strings_of st.heap) white m.holds st.strings m.models in
      let plain =
        table_remove_white-IsPlain N (strings_of st.heap) white st.strings t m.plain run in
      (t, run, (after t g models plain dark pale, λ p. dark (obj p), λ p. pale (obj p)))
