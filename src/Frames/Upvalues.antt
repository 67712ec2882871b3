-- ===== src/Frames/Upvalues.antt =====
-- src/vm.c, `captureUpvalue` and `closeUpvalues`: the open upvalues, highest location first.
use native.Mathlib.Decide.{dec_lt, ℕ_discrete}
use xan.Base.{
  ℕ, ◌<◌, ◌≡◌, refl, sym, ap, ◌⊎◌, inl, inr, arith, true, false, List, [], ◌∷◌, ltb, ◌==◌, IsIn,
}
use xan.Frames.{OpenUpvalue, CallStack, capture, capture_upvalue}

-- All the locations of a list lie below a bound, and each below the one in front of it.
abbrev pub IsBelow : ℕ → List OpenUpvalue → Type 0
IsBelow bound [] = Unit
IsBelow bound (u ∷ us) = (u.location < bound) × IsBelow u.location us

abbrev pub IsDescending : List OpenUpvalue → Type 0
IsDescending [] = Unit
IsDescending (u ∷ us) = IsBelow u.location us

pub IsBelow-IsIn :
    (bound : ℕ) (us : List OpenUpvalue) (u : OpenUpvalue)
    → IsBelow bound us
    → IsIn u us
    → u.location < bound
IsBelow-IsIn bound [] u b i = elim i [ ]
IsBelow-IsIn bound (v ∷ us) u (below, b) (inl e) = rw e below
IsBelow-IsIn bound (v ∷ us) u (below, b) (inr i) =
    let deeper = IsBelow-IsIn v.location us u b i in omega arith

pub IsBelow-IsDescending : (bound : ℕ) (us : List OpenUpvalue) → IsBelow bound us → IsDescending us
IsBelow-IsDescending bound [] b = tt
IsBelow-IsDescending bound (u ∷ us) (below, b) = b

-- What `captureUpvalue` may do to the list `us`: the upvalue `found`, and the list `us'`.
pub record Captures (new local : ℕ) (us : List OpenUpvalue) (found : ℕ) (us' : List OpenUpvalue)
    : Type 0 where
  pub there : IsIn (record { upvalue = found; location = local }) us'
  pub kept : (u : OpenUpvalue) → IsIn u us → IsIn u us'
  pub only :
      (u : OpenUpvalue)
      → IsIn u us'
      → IsIn u us ⊎ ((u ≡ record { upvalue = new; location = local }) × (found ≡ new))
  pub shared : (u : OpenUpvalue) → IsIn u us → u.location ≡ local → (found ≡ u.upvalue) × (us' ≡ us)

-- The three branches for the first upvalue of a list.
module _ (new local : ℕ) (u : OpenUpvalue) (us : List OpenUpvalue) where
  capture_deeper :
      local < u.location
      → capture new local (u ∷ us) ≡ ((capture new local us).0, u ∷ (capture new local us).1)
  unfolding capture
  capture_deeper lt = let test : ltb local u.location ≡ true = ground arith in rw test refl

  capture_here : u.location ≡ local → capture new local (u ∷ us) ≡ (u.upvalue, u ∷ us)
  unfolding capture
  capture_here e =
      let test : ltb local u.location ≡ false = ground arith in
      let found : (u.location == local) ≡ true = ground arith in rw (test, found) refl

  capture_above :
      u.location < local
      → capture new local (u ∷ us) ≡ (new, record { upvalue = new; location = local } ∷ u ∷ us)
  unfolding capture
  capture_above lt =
      let test : ltb local u.location ≡ false = ground arith in
      let found : (u.location == local) ≡ false = ground arith in rw (test, found) refl

capture-IsBelow :
    (new local bound : ℕ) (us : List OpenUpvalue)
    → local < bound
    → IsBelow bound us
    → IsBelow bound (capture new local us).1
capture-IsBelow new local bound [] inside b = unfold capture in (inside, tt)
capture-IsBelow new local bound (u ∷ us) inside (below, b) = elim (dec_lt local u.location) [
  | yes lt ↦
      rw (capture_deeper new local u us lt) (below, capture-IsBelow new local u.location us lt b)
  | no ge ↦ elim (ℕ_discrete u.location local) [
    | yes e ↦ rw (capture_here new local u us e) (below, b)
    | no ne ↦
        let lt : u.location < local = omega arith in
        rw (capture_above new local u us lt) (inside, (lt, b))
  ]
]

capture-IsDescending :
    (new local : ℕ) (us : List OpenUpvalue)
    → IsDescending us
    → IsDescending (capture new local us).1
capture-IsDescending new local [] b = unfold capture in tt
capture-IsDescending new local (u ∷ us) b = elim (dec_lt local u.location) [
  | yes lt ↦ rw (capture_deeper new local u us lt) (capture-IsBelow new local u.location us lt b)
  | no ge ↦ elim (ℕ_discrete u.location local) [
    | yes e ↦ rw (capture_here new local u us e) b
    | no ne ↦
        let lt : u.location < local = omega arith in rw (capture_above new local u us lt) (lt, b)
  ]
]

deeper-Captures :
    (new local : ℕ) (u : OpenUpvalue) (us us' : List OpenUpvalue) (found : ℕ)
    → local < u.location
    → Captures new local us found us'
    → Captures new local (u ∷ us) found (u ∷ us')
deeper-Captures new local u us us' found lt c = record {
  there = inr c.there;
  kept = λ v i. elim i [ inl e ↦ inl e | inr j ↦ inr (c.kept v j) ];
  only = λ v i. elim i [
    | inl e ↦ inl (inl e)
    | inr j ↦ elim (c.only v j) [ inl k ↦ inl (inr k) | inr fresh ↦ inr fresh ]
  ];
  shared = λ v i at. elim i [
    | inl e ↦ absurd (omega (arith, ap (λ (w : OpenUpvalue). w.location) e))
    | inr j ↦ let (same, rest) = c.shared v j at in (same, ap (λ ws. u ∷ ws) rest)
  ];
}

here-Captures :
    (new local : ℕ) (u : OpenUpvalue) (us : List OpenUpvalue)
    → u.location ≡ local
    → IsDescending (u ∷ us)
    → Captures new local (u ∷ us) u.upvalue (u ∷ us)
here-Captures new local u us e b = record {
  there = inl (rw (← e) refl);
  kept = λ v i. i;
  only = λ v i. inl i;
  shared = λ v i at. elim i [
    | inl same ↦ (ap (λ (w : OpenUpvalue). w.upvalue) (sym same), refl)
    | inr j ↦ let below = IsBelow-IsIn u.location us v b j in absurd (omega arith)
  ];
}

above-Captures :
    (new local : ℕ) (us : List OpenUpvalue)
    → IsBelow local us
    → Captures new local us new (record { upvalue = new; location = local } ∷ us)
above-Captures new local us b = record {
  there = inl refl;
  kept = λ v i. inr i;
  only = λ v i. elim i [ inl e ↦ inr (e, refl) | inr j ↦ inl j ];
  shared = λ v i at. let below = IsBelow-IsIn local us v b i in absurd (omega arith);
}

capture-Captures :
    (new local : ℕ) (us : List OpenUpvalue)
    → IsDescending us
    → Captures new local us (capture new local us).0 (capture new local us).1
capture-Captures new local [] b = unfold capture in above-Captures new local [] tt
capture-Captures new local (u ∷ us) b = elim (dec_lt local u.location) [
  | yes lt ↦ rw (capture_deeper new local u us lt) (
      deeper-Captures new local u us _ _ lt
        (capture-Captures new local us (IsBelow-IsDescending u.location us b)))
  | no ge ↦ elim (ℕ_discrete u.location local) [
    | yes e ↦ rw (capture_here new local u us e) (here-Captures new local u us e b)
    | no ne ↦
        let lt : u.location < local = omega arith in
        rw (capture_above new local u us lt) (above-Captures new local (u ∷ us) (lt, b))
  ]
]

-- `captureUpvalue` keeps the list in order, gives the upvalue of the slot, shares the one that is open for the
-- slot already and changes nothing then, and otherwise adds only the new one.
pub capture_upvalue-Captures :
    {D : Type 0} (new local : ℕ) (t : CallStack D)
    → IsDescending t.open_upvalues
    → IsDescending (capture_upvalue new t local).1.open_upvalues
      × Captures new local t.open_upvalues
          (capture_upvalue new t local).0
          (capture_upvalue new t local).1.open_upvalues
unfolding capture_upvalue
capture_upvalue-Captures new local t b =
    (capture-IsDescending new local t.open_upvalues b, capture-Captures new local t.open_upvalues b)
