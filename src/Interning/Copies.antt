-- ===== src/Interning/Copies.antt =====
-- `copyString` on a table that keeps one object for each text.
use xan.Base.{
  some-injective, ℕ, ◌^◌, ◌<◌, ◌≡◌, ◌≢◌, refl, sym, ap, ◌∙◌, ◌⊎◌, inl, inr, arith, false, List,
  Option, none, some, Bool-cases, length,
}
use mathlib.Core.Path.{subst}
use xan.Value.{Val, nil, obj, Number, values_equal, values_equal_symm}
use xan.Table.Writes.{update}
use xan.Table.Entries.{is_none}
use xan.Table.Methods.{table_set-Models}
use xan.Interning.{
  ObjString, Interner, hash_string, strings_of, put, table_find_string, allocate_string,
  copy_string,
}
use xan.Interning.Plain.{table_set-IsPlain}
use xan.Interning.Lookup.{table_find_string-IsFound}
use xan.Interning.Texts.{
  text, text_inj, held-text, IsInterned, IsFound, fresh-Models, address_equal, obj_self,
}

module _ (N : Number) where
  -- What an operation that makes the string `chars` returns: its one object.
  pub record Copied (st : Interner N.Double) (m : IsInterned N st) (chars : List ℕ) (p : ℕ)
      (st' : Interner N.Double) : Type 0 where
    pub interned : IsInterned N st'
    pub reads : st'.heap p ≡ some (text chars)
    pub listed : is_none (interned.holds (obj p)) ≡ false
    pub kept : (q : ℕ) → st.heap q ≢ none → st'.heap q ≡ st.heap q
    pub stays :
        (q : ℕ) → is_none (m.holds (obj q)) ≡ false → is_none (interned.holds (obj q)) ≡ false
    pub shared :
        (q : ℕ)
        → is_none (m.holds (obj q)) ≡ false
        → st.heap q ≡ some (text chars)
        → (p ≡ q) × (st' ≡ st)

  module _ (st : Interner N.Double) (m : IsInterned N st) (chars : List ℕ) where
    found-Copied : (p : ℕ) → IsFound N st.heap m.holds chars (some p) → Copied st m chars p st
    found-Copied p (held, there) = record {
      interned = m;
      reads = there;
      listed = held;
      kept = λ q used. refl;
      stays = λ q held. held;
      shared = λ q held' there'. (m.alone p q chars held held' there there', refl);
    }

    module _ (p : ℕ) (free : st.heap p ≡ none) where
      abbrev grown : ℕ → Option ObjString
      grown = put st.heap p (text chars)

      abbrev held_then : Val N → Option (Val N)
      held_then = update N (strings_of grown) m.holds (obj p) (some nil)

      grown_self : grown p ≡ some (text chars)
      grown_self = ground arith

      grown_kept : (q : ℕ) → st.heap q ≢ none → grown q ≡ st.heap q
      grown_kept q used = let ne : q ≢ p = λ e. used (rw e free) in ground arith

      old-text : (q : ℕ) (c : List ℕ) → st.heap q ≡ some (text c) → grown q ≡ some (text c)
      old-text q c there = grown_kept q (λ e. differ (sym e ∙ there)) ∙ there
        where
          differ : {o : ObjString} → none ≡ some o → ⊥
          differ h = cc

      held_self : is_none (held_then (obj p)) ≡ false
      held_self = rw (obj_self N p) refl

      held_still : (v : Val N) → is_none (m.holds v) ≡ false → is_none (held_then v) ≡ false
      held_still v held = elim (Bool-cases (values_equal N v (obj p))) [
        | inl same ↦ rw same refl
        | inr other ↦ rw other held
      ]

      held-cases :
          (v : Val N) → is_none (held_then v) ≡ false → (v ≡ obj p) ⊎ (is_none (m.holds v) ≡ false)
      held-cases v held = elim (Bool-cases (values_equal N v (obj p))) [
        | inl same ↦ inl (address_equal N p v (values_equal_symm N (obj p) v ∙ same))
        | inr other ↦ inr (rw other at held)
      ]

      obj-cases :
          (q : ℕ)
          → is_none (held_then (obj q)) ≡ false
          → (q ≡ p) ⊎ (is_none (m.holds (obj q)) ≡ false)
      obj-cases q held = elim (held-cases (obj q) held) [
        | inl e ↦ inl (ap (λ (v : Val N). elim v [ obj a ↦ a | _ ↦ q ]) e)
        | inr old ↦ inr old
      ]

      grown-texts :
          (v : Val N)
          → is_none (held_then v) ≡ false
          → (q : ℕ) × ((c : List ℕ) × (v ≡ obj q) × (grown q ≡ some (text c)))
      grown-texts v held = elim (held-cases v held) [
        | inl e ↦ (p, (chars, e, grown_self))
        | inr old ↦ let (q, (c, e, there)) = m.texts v old in (q, (c, e, old-text q c there))
      ]

      -- What was there is another text.
      other-text :
          (q : ℕ) (c : List ℕ)
          → IsFound N st.heap m.holds chars none
          → is_none (m.holds (obj q)) ≡ false
          → grown q ≡ some (text c)
          → grown p ≡ some (text c)
          → ⊥
      other-text q c absent held there new =
          let e : chars ≡ c = text_inj (sym grown_self ∙ new) in
          let (c', same) = held-text N st m q held in
          let e' : c' ≡ c = text_inj (sym (old-text q c' same) ∙ there) in
          absent q held (rw (e, ← e') same)

      grown-alone :
          IsFound N st.heap m.holds chars none
          → (a b : ℕ) (c : List ℕ) → is_none (held_then (obj a)) ≡ false
          → is_none (held_then (obj b)) ≡ false
          → grown a ≡ some (text c)
          → grown b ≡ some (text c)
          → a ≡ b
      grown-alone absent a b c ha hb ta tb = elim (obj-cases a ha) [
        | inl ea ↦ elim (obj-cases b hb) [
          | inl eb ↦ ea ∙ sym eb
          | inr old ↦ absurd (other-text b c absent old tb (rw ea at ta))
        ]
        | inr olda ↦ elim (obj-cases b hb) [
          | inl eb ↦ absurd (other-text a c absent olda ta (rw eb at tb))
          | inr oldb ↦ m.alone a b c olda oldb (was a c olda ta) (was b c oldb tb)
        ]
      ]
        where
          was :
              (q : ℕ) (c : List ℕ)
              → is_none (m.holds (obj q)) ≡ false
              → grown q ≡ some (text c)
              → st.heap q ≡ some (text c)
          was q c held there =
              let (c', same) = held-text N st m q held in
              let e : c' ≡ c = text_inj (sym (old-text q c' same) ∙ there) in rw (← e) same

    new-Copied :
        (p : ℕ)
        → st.heap p ≡ none
        → st.strings.capacity_mask < 2 ^ 31
        → IsFound N st.heap m.holds chars none
        → (st' : Interner N.Double) × (allocate_string N st p chars
              (length chars)
              (hash_string chars)
            ≡ some (p, st'))
          × Copied st m chars p st'
    unfolding allocate_string
    new-Copied p free small absent =
        let heap = put st.heap p (text chars) in
        let (t, run, models) =
          table_set-Models N (strings_of heap) st.strings m.holds
            ((fresh-Models N st m p (text chars) free).0) (obj p) nil refl small in
        (
          record { heap = heap; strings = t },
          rw run refl,
          record {
            interned = record {
              holds = update N (strings_of heap) m.holds (obj p) (some nil);
              models = models;
              plain =
                  table_set-IsPlain N (strings_of heap) st.strings (obj p) nil (_, t) m.plain
                    (obj_self N p) (unfold values_equal in refl) run;
              texts = grown-texts p free;
              alone = grown-alone p free absent;
            };
            reads = grown_self p free;
            listed = held_self p free;
            kept = grown_kept p free;
            stays = λ q. held_still p free (obj q);
            shared = λ q held there. absurd (absent q held there);
          },
        )

    copy_string-run :
        (p : ℕ) (r : Option ℕ)
        → table_find_string N st.heap st.strings chars (length chars) (hash_string chars) ≡ some r
        → copy_string N st p chars ≡ elim r [
          | none ↦ allocate_string N st p chars (length chars) (hash_string chars)
          | some q ↦ some (q, st)
        ]
    unfolding copy_string
    copy_string-run p r run = rw run refl

    -- `copyString` with room for one more string returns the one object of the text, and the table of
    -- strings keeps one object for each text. It is the object that was there, if there was one, and then
    -- nothing changes; the objects that were there stay.
    pub copy_string-Copied :
        (fresh : ℕ)
        → st.heap fresh ≡ none
        → st.strings.capacity_mask < 2 ^ 31
        → (p : ℕ) × ((st' : Interner N.Double) × (copy_string N st fresh chars ≡ some (p, st'))
            × Copied st m chars p st')
    copy_string-Copied fresh free small =
        let (r, run, finds) = table_find_string-IsFound N st m chars fresh free in
        go r (copy_string-run fresh r run) finds
      where
        go :
            (r : Option ℕ)
            → copy_string N st fresh chars ≡ elim r [
              | none ↦ allocate_string N st fresh chars (length chars) (hash_string chars)
              | some q ↦ some (q, st)
            ]
            → IsFound N st.heap m.holds chars r
            → (p : ℕ) × ((st' : Interner N.Double) × (copy_string N st fresh chars ≡ some (p, st'))
                × Copied st m chars p st')
        go (some q) e finds = (q, (st, e, found-Copied q finds))
        go none e absent =
            let (st', run, copied) = new-Copied fresh free small absent in
            (fresh, (st', e ∙ run, copied))

    pub Copied-run :
        (fresh p : ℕ) (st' : Interner N.Double)
        → st.heap fresh ≡ none
        → st.strings.capacity_mask < 2 ^ 31
        → copy_string N st fresh chars ≡ some (p, st')
        → Copied st m chars p st'
    Copied-run fresh p st' free small run =
        let (q, (st1, run1, copied)) = copy_string-Copied fresh free small in
        let e : (q, st1) ≡ (p, st') = some-injective (sym run1 ∙ run) in
        subst (λ (r : ℕ × Interner N.Double). Copied st m chars r.0 r.1) e copied
