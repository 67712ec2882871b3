-- ===== src/Compiler/Resolve.antt =====
-- `jump_patch_value` gives every jump of a list its target.
use xan.Base.{
  IsFresh, IsDistinct, ℕ, zero, suc, ◌<◌, ◌≡◌, ◌≢◌, refl, sym, ap, ◌∙◌, arith, Bool, true, false,
  ◌||◌, List, [], ◌∷◌, ◌⊎◌, inl, inr, if-cases, some, ◌==◌, if◌then◌else◌, get_or, set, length,
  length-set, get_or-set,
}
use xan.Bytecode.{Endian, no_jump, no_reg, opcode, ra}
use xan.Compiler.{before, jump_next, jump_patch_test_reg, jump_patch_value}
use xan.Compiler.Jumps.{Reaches, jump_patch_instruction_lem}
use xan.Compiler.Lists.{IsChain, IsChain-elsewhere}

-- The positions of the jumps and of the instructions in front of them.
abbrev pub spots : List ℕ → List ℕ
spots [] = []
spots (pc ∷ pcs) = before pc ∷ pc ∷ spots pcs

-- Every jump reaches the target.
abbrev pub AllReach : List ℕ → ℕ → Type 0
AllReach [] target = Unit
AllReach (pc ∷ pcs) target = Reaches pc target × AllReach pcs target

-- Every jump goes to the target.
abbrev pub AllJump : List ℕ → List ℕ → ℕ → Type 0
AllJump code [] target = Unit
AllJump code (pc ∷ pcs) target = (jump_next code pc ≡ target) × AllJump code pcs target

IsFresh-spots : (x : ℕ) (pcs : List ℕ) → IsFresh x (spots pcs) → IsFresh x pcs
IsFresh-spots x [] fresh = tt
IsFresh-spots x (pc ∷ pcs) (_, (apart, fresh)) = (apart, IsFresh-spots x pcs fresh)

-- Without a register to keep, the test changes at most the instruction in front of the jump.
abbrev ChangesAt : List ℕ → ℕ → List ℕ → Type 0
ChangesAt code i code' = (code' ≡ code) ⊎ ((w : ℕ) × (code' ≡ set code i w))

jump_patch_test_reg-ChangesAt :
    (e : Endian) (code : List ℕ) (pc : ℕ)
    → ChangesAt code (before pc) (jump_patch_test_reg e code pc no_reg).1
unfolding jump_patch_test_reg
jump_patch_test_reg-ChangesAt e code pc =
    let w = get_or code (before pc) 0 in
    let op = opcode w in
    if-cases (λ (r : Bool × List ℕ). ChangesAt code (before pc) r.1) (op == 26 || op == 25)
      (λ _. inr (_, refl))
      (λ _.
        if-cases (λ (r : Bool × List ℕ). ChangesAt code (before pc) r.1) (ra w == no_reg)
          (λ _. inr (_, refl)) (λ _. inl refl))

ChangesAt-length :
    (code : List ℕ) (i : ℕ) (code' : List ℕ) → ChangesAt code i code' → length code' ≡ length code
ChangesAt-length code i code' (inl same) = ap length same
ChangesAt-length code i code' (inr (w, changed)) = rw changed (length-set code i w)

ChangesAt-elsewhere :
    (code : List ℕ) (i : ℕ) (code' : List ℕ)
    → ChangesAt code i code'
    → i < length code
    → (j : ℕ) → i ≢ j
    → get_or code' j 0 ≡ get_or code j 0
ChangesAt-elsewhere code i code' (inl same) inside j apart = rw same refl
ChangesAt-elsewhere code i code' (inr (w, changed)) inside j apart =
    rw changed (ground (arith, get_or-set code i j w 0 inside))

before-inside : (pc n : ℕ) → pc < n → before pc < n
before-inside pc n h = ground arith

either : (b : Bool) (target : ℕ) → (if b then target else target) ≡ target
either true target = refl
either false target = refl

same_next :
    (code code' : List ℕ) (pc : ℕ)
    → get_or code' pc 0 ≡ get_or code pc 0
    → jump_next code' pc ≡ jump_next code pc
unfolding jump_next
same_next code code' pc e = rw e refl

-- `jump_patch_value` with one target and no register to keep, on a list of jumps that all reach the
-- target, where the jumps and the instructions in front of them are at different positions, with
-- more fuel than jumps: it reports no error, every jump of the list goes to the target, and the code
-- has its old length and its old instructions at all other positions.
pub jump_patch_value-AllJump :
    (e : Endian) (fuel : ℕ) (code : List ℕ) (list target : ℕ) (pcs : List ℕ)
    → IsChain code list pcs
    → IsDistinct (spots pcs)
    → AllReach pcs target
    → length pcs < fuel
    → (code' : List ℕ) × (jump_patch_value e fuel code list target no_reg target
        ≡ some (false, code'))
      × AllJump code' pcs target
      × (length code' ≡ length code)
      × ((pc : ℕ) → IsFresh pc (spots pcs) → get_or code' pc 0 ≡ get_or code pc 0)
unfolding jump_patch_value
jump_patch_value-AllJump e zero code list target pcs chain distinct reach enough =
    absurd (omega arith)
jump_patch_value-AllJump e (suc fuel) code list target [] chain distinct reach enough =
    (code, rw chain refl, tt, refl, λ pc fresh. refl)
jump_patch_value-AllJump e (suc fuel) code list target (x ∷ pcs) (at, inside, small, chain)
      ((apart, front_fresh), (fresh, distinct)) (near, reach) enough =
    let tested = jump_patch_test_reg e code x no_reg in
    let change = jump_patch_test_reg-ChangesAt e code x in
    let size1 = ChangesAt-length code (before x) tested.1 change in
    let same1 =
      ChangesAt-elsewhere code (before x) tested.1 change (before-inside x (length code) inside) in
    let (code2, run2, there, _, _, size2, same2) =
      jump_patch_instruction_lem e tested.1 x target (rw size1 inside) near in
    let chain1 =
      IsChain-elsewhere code tested.1 size1 (before x) (jump_next code x) pcs
        (λ pc ne. same_next code tested.1 pc (same1 pc ne))
        (IsFresh-spots (before x) pcs front_fresh) chain in
    let chain2 =
      IsChain-elsewhere tested.1 code2 size2 x (jump_next code x) pcs
        (λ pc ne. same_next tested.1 code2 pc (same2 pc ne)) (IsFresh-spots x pcs fresh) chain1 in
    let (code3, run3, all, size3, same3) =
      jump_patch_value-AllJump e fuel code2 (jump_next code x) target pcs chain2 distinct reach
        (omega arith) in
    let here : (list == no_jump) ≡ false = ground (arith, at, small) in
    (
      code3,
      rw here (rw (at, either tested.0 target) (rw run2 (rw run3 refl))),
      (same_next code2 code3 x (same3 x fresh) ∙ there, all),
      size3 ∙ size2 ∙ size1,
      λ pc (off, (other, fresh')).
          same3 pc fresh' ∙ same2 pc (λ q. other (sym q)) ∙ same1 pc (λ q. off (sym q)),
    )
