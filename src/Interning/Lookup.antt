-- ===== src/Interning/Lookup.antt =====
-- `tableFindString` on a table that keeps one object for each text.
use native.Mathlib.Decide.{ℕ_discrete}
use xan.Base.{
  clash, ℕ, zero, suc, ◌*◌, ◌^◌, ◌<◌, ◌≡◌, refl, sym, ap, ◌∙◌, ◌⊎◌, inl, inr, arith, Bool, true,
  false, List, Option, none, some, Bool-cases, length, ◌≢◌,
}
use xan.Value.{Val, obj, Number, is_nil, values_equal, hash}
use xan.Table.{key}
use xan.Table.Slots.{Finds, present, absent}
use xan.Table.Model.{search-Finds}
use xan.Table.Entries.{is_none}
use xan.Interning.{Interner, hash_string, strings_of, is_text, put, table_find_string}
use xan.Interning.Search.{address, address-nil, Agrees, table_find_string-find_entry}
use xan.Interning.Texts.{
  text, text_inj, is_text-text, is_text_refl, IsInterned, IsFound, address_equal, obj_self,
  obj_other, obj_inj, nil_is, live-holds, holds-live, not_fresh, fresh-Models,
}

-- A test holds somewhere below a bound, or nowhere.
search_below :
    (b : ℕ → Bool) (n : ℕ) → ((s : ℕ) × (s < n) × (b s ≡ true)) ⊎ ((s : ℕ) → s < n → b s ≡ false)
search_below b zero = inr (λ s ls. absurd (omega arith))
search_below b (suc n) = elim (Bool-cases (b n)) [
  | inl here ↦ inl (n, omega arith, here)
  | inr off ↦ elim (search_below b n) [
    | inl (s, ls, there) ↦ inl (s, omega arith, there)
    | inr nowhere ↦
        inr (λ s ls. elim (ℕ_discrete s n) [ yes e ↦ rw e off | no ne ↦ nowhere s (omega arith) ])
  ]
]

module _ (N : Number) (st : Interner N.Double) (m : IsInterned N st) (chars : List ℕ) where
  -- The key is the text.
  abbrev is_key_text : Val N → Bool
  is_key_text v = elim (address v) [
    | none ↦ false
    | some p ↦ elim (st.heap p) [
      | none ↦ false
      | some o ↦ is_text o chars (length chars) (hash_string chars)
    ]
  ]

  -- A live key, as the search sees it.
  live-text :
      (s : ℕ)
      → s < 2 ^ m.models.exponent
      → is_nil (key st.strings.entries (2 * s)) ≡ false
      → (p : ℕ) × ((c : List ℕ) × (key st.strings.entries (2 * s) ≡ obj p)
          × (st.heap p ≡ some (text c))
          × (is_none (m.holds (obj p)) ≡ false)
          × (is_key_text (key st.strings.entries (2 * s))
              ≡ is_text (text c) chars (length chars) (hash_string chars)))
  live-text s ls live =
      let held = live-holds N st m s ls live in
      let (p, (c, here, there)) = m.texts (key st.strings.entries (2 * s)) held in
      (p, (c, here, there, rw here at held, rw (here, there) refl))

  Agrees-all :
      (x : Val N)
      → ((p : ℕ) (c : List ℕ) (s : ℕ)
          → s < 2 ^ m.models.exponent
          → key st.strings.entries (2 * s) ≡ obj p
          → is_none (m.holds (obj p)) ≡ false
          → st.heap p ≡ some (text c)
          → is_text (text c) chars (length chars) (hash_string chars) ≡ values_equal N x (obj p))
      → (s : ℕ) → s < 2 ^ m.models.exponent
      → Agrees N st.heap x chars (length chars) (hash_string chars) (key st.strings.entries (2 * s))
  Agrees-all x same s ls = elim (Bool-cases (is_nil (key st.strings.entries (2 * s)))) [
    | inl dead ↦ inl (nil_is N _ dead)
    | inr live ↦
        let (p, (c, here, there, held, test)) = live-text s ls live in
        inr (p, (text c, here, there, same p c s ls here held there))
  ]

  found :
      (p s : ℕ)
      → s < 2 ^ m.models.exponent
      → key st.strings.entries (2 * s) ≡ obj p
      → is_none (m.holds (obj p)) ≡ false
      → st.heap p ≡ some (text chars)
      → table_find_string N st.heap st.strings chars (length chars) (hash_string chars)
        ≡ some (some p)
  found p s ls at held there =
      let (i, run, finds) =
        search-Finds N (strings_of st.heap) st.strings m.holds (obj p) m.models in
      let hashes : hash N (strings_of st.heap) (obj p) ≡ hash_string chars =
        unfold hash in rw there refl in
      table_find_string-find_entry N (strings_of st.heap) st.heap (obj p) chars (length chars)
        (hash_string chars) m.models.exponent m.models.small st.strings.entries
        (Agrees-all (obj p) agrees) st.strings i refl m.models.mask hashes
        (rw (m.models.mask) at run)
      ∙ ap some (reached i finds)
    where
      agrees :
          (q : ℕ) (c : List ℕ) (t : ℕ)
          → t < 2 ^ m.models.exponent
          → key st.strings.entries (2 * t) ≡ obj q
          → is_none (m.holds (obj q)) ≡ false
          → st.heap q ≡ some (text c)
          → is_text (text c) chars (length chars) (hash_string chars)
            ≡ values_equal N (obj p) (obj q)
      agrees q c t lt here held' there' =
          elim (Bool-cases (is_text (text c) chars (length chars) (hash_string chars))) [
            | inl yes_text ↦
                let e : c ≡ chars = is_text-text c chars yes_text in
                let e' : p ≡ q = m.alone p q chars held held' there (rw e at there') in
                rw (yes_text, e') (sym (obj_self N q))
            | inr no_text ↦
                let ne : p ≢ q = λ e.
                  let c_same : c ≡ chars = text_inj (sym there' ∙ (rw e at there)) in
                  clash (is_text_refl chars) (rw c_same at no_text) in
                rw (no_text) (sym (obj_other N p q ne))
          ]

      reached :
          (i : ℕ)
          → Finds N (strings_of st.heap) m.models.exponent st.strings.entries (obj p) i
          → address (key st.strings.entries i) ≡ some p
      reached i (present t lt e live same) = rw (address_equal N p _ same) refl
      reached i (absent t lt e dead r says) =
          let self : values_equal N (obj p) (key st.strings.entries (2 * s)) ≡ true =
            rw at (obj_self N p) in
          let live : is_nil (key st.strings.entries (2 * s)) ≡ false = rw at refl in
          absurd (clash self (says s ls live))

  missing :
      (fresh : ℕ)
      → st.heap fresh ≡ none
      → ((s : ℕ) → s < 2 ^ m.models.exponent → is_key_text (key st.strings.entries (2 * s)) ≡ false)
      → table_find_string N st.heap st.strings chars (length chars) (hash_string chars) ≡ some none
  missing fresh free apart =
      let heap' = put st.heap fresh (text chars) in
      let (models', same) = fresh-Models N st m fresh (text chars) free in
      let (i, run, finds) =
        search-Finds N (strings_of heap') st.strings m.holds (obj fresh) models' in
      let hashes : hash N (strings_of heap') (obj fresh) ≡ hash_string chars =
        unfold hash in ground arith in
      table_find_string-find_entry N (strings_of heap') st.heap (obj fresh) chars (length chars)
        (hash_string chars) m.models.exponent m.models.small st.strings.entries
        (Agrees-all (obj fresh) agrees) st.strings i refl m.models.mask hashes
        (rw (m.models.mask) at run)
      ∙ ap some (reached i (rw same at finds))
    where
      agrees :
          (q : ℕ) (c : List ℕ) (t : ℕ)
          → t < 2 ^ m.models.exponent
          → key st.strings.entries (2 * t) ≡ obj q
          → is_none (m.holds (obj q)) ≡ false
          → st.heap q ≡ some (text c)
          → is_text (text c) chars (length chars) (hash_string chars)
            ≡ values_equal N (obj fresh) (obj q)
      agrees q c t lt here held there =
          rw (obj_other N fresh q (not_fresh N st m fresh q c free there))
            (rw (here, there) at (apart t lt))

      reached :
          (i : ℕ)
          → Finds N
              (strings_of (put st.heap fresh (text chars)))
              m.models.exponent
              st.strings.entries
              (obj fresh)
              i
          → address (key st.strings.entries i) ≡ none
      reached i (absent t lt e dead r says) = address-nil (key st.strings.entries i) dead
      reached i (present t lt e live same) =
          let (p, (c, here, there, held, test)) = live-text t lt (rw e at live) in
          absurd (
            not_fresh N st m fresh p c free there
              (obj_inj N (address_equal N fresh _ same) (rw e here)))

  -- `tableFindString` with the hash of a text finds the one string of the table that is the text,
  -- or that there is none.
  pub table_find_string-IsFound :
      (fresh : ℕ)
      → st.heap fresh ≡ none
      → (r : Option ℕ) × (table_find_string N st.heap st.strings chars
            (length chars)
            (hash_string chars)
          ≡ some r)
        × IsFound N st.heap m.holds chars r
  table_find_string-IsFound fresh free =
      elim (search_below (λ s. is_key_text (key st.strings.entries (2 * s)))
        (2 ^ m.models.exponent)) [
          | inl (s, ls, here) ↦ elim (Bool-cases (is_nil (key st.strings.entries (2 * s)))) [
            | inl dead ↦ absurd (dead_key _ dead here)
            | inr live ↦
                let (p, (c, at, there, held, test)) = live-text s ls live in
                let e : c ≡ chars = is_text-text c chars (sym test ∙ here) in
                (some p, found p s ls at held (rw e at there), (held, rw e at there))
          ]
          | inr apart ↦ (
            none,
            missing fresh free apart,
            λ p held there.
                let (s, ls, at) = holds-live N st m p held in
                clash (is_text_refl chars) (rw (at, there) at (apart s ls)),
          )
        ]
    where
      dead_key : (v : Val N) → is_nil v ≡ true → is_key_text v ≡ true → ⊥
      dead_key v dead here = clash here (rw (nil_is N v dead) refl)
