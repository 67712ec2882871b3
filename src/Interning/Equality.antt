-- ===== src/Interning/Equality.antt =====
-- `concatenate`, and equality of strings by their addresses.
use xan.Base.{ℕ, ◌^◌, ◌<◌, ◌≡◌, ◌≢◌, ◌↔◌, refl, sym, ◌∙◌, true, ◌++◌, List, none, some}
use xan.Value.{obj, Number, values_equal}
use xan.Interning.{ObjString, Interner, copy_string, concatenate}
use xan.Interning.Texts.{text, text_inj, IsInterned, address_equal, obj_self, obj_inj}
use xan.Interning.Copies.{Copied, Copied-run, copy_string-Copied}

module _ (N : Number) (st : Interner N.Double) (m : IsInterned N st) where
  concatenate-run :
      (fresh b c : ℕ) (xs ys : List ℕ)
      → st.heap b ≡ some (text xs)
      → st.heap c ≡ some (text ys)
      → concatenate N st fresh b c ≡ copy_string N st fresh (xs ++ ys)
  unfolding concatenate
  concatenate-run fresh b c xs ys eb ec = rw (eb, ec) refl

  -- `concatenate` of two strings returns the one object of the first text followed by the second, as
  -- `copyString` does, if there is room for one more string.
  pub concatenate-Copied :
      (fresh b c : ℕ) (xs ys : List ℕ)
      → st.heap fresh ≡ none
      → st.strings.capacity_mask < 2 ^ 31
      → st.heap b ≡ some (text xs)
      → st.heap c ≡ some (text ys)
      → (p : ℕ) × ((st' : Interner N.Double) × (concatenate N st fresh b c ≡ some (p, st'))
          × Copied N st m (xs ++ ys) p st')
  concatenate-Copied fresh b c xs ys free small eb ec =
      let (p, (st', run, copied)) = copy_string-Copied N st m (xs ++ ys) fresh free small in
      (p, (st', concatenate-run fresh b c xs ys eb ec ∙ run, copied))

  -- Two texts are copied one after the other, each with room for one more string. The two objects are
  -- equal values exactly if the texts are the same.
  pub copy_string-values_equal :
      (fresh fresh' p q : ℕ) (xs ys : List ℕ) (st1 st2 : Interner N.Double)
      → st.heap fresh ≡ none
      → st1.heap fresh' ≡ none
      → st.strings.capacity_mask < 2 ^ 31
      → st1.strings.capacity_mask < 2 ^ 31
      → copy_string N st fresh xs ≡ some (p, st1)
      → copy_string N st1 fresh' ys ≡ some (q, st2)
      → (values_equal N (obj p) (obj q) ≡ true) ↔ (xs ≡ ys)
  copy_string-values_equal fresh fresh' p q xs ys st1 st2 free free' small small' run run' =
      let one = Copied-run N st m xs fresh p st1 free small run in
      let two = Copied-run N st1 one.interned ys fresh' q st2 free' small' run' in
      (same_text one two, same_object one two)
    where
      same_text :
          (one : Copied N st m xs p st1)
          → Copied N st1 one.interned ys q st2
          → values_equal N (obj p) (obj q) ≡ true
          → xs ≡ ys
      same_text one two same =
          let e : q ≡ p = obj_inj N refl (address_equal N p (obj q) same) in
          let used : st1.heap p ≢ none = λ gone. differ (sym gone ∙ one.reads) in
          text_inj (sym one.reads ∙ sym (two.kept p used) ∙ (rw e at two.reads))
        where
          differ : {o : ObjString} → none ≡ some o → ⊥
          differ h = cc

      same_object :
          (one : Copied N st m xs p st1)
          → Copied N st1 one.interned ys q st2
          → xs ≡ ys
          → values_equal N (obj p) (obj q) ≡ true
      same_object one two e =
          let same : q ≡ p = (two.shared p one.listed (rw e at one.reads)).0 in
          rw same (obj_self N p)
