-- ===== src/Compiler/Emit.antt =====
-- Emitting an instruction resolves the jumps that wait for it.
use xan.Base.{
  IsFresh, IsDistinct, ℕ, zero, suc, ◌+◌, ◌^◌, ◌<◌, ◌≤◌, ◌≡◌, refl, sym, arith, false, List, [],
  ◌∷◌, ◌++◌, some, get_or, length, length-append, get_or-append,
}
use xan.Bytecode.{Endian, no_jump, op_ajump}
use xan.Compiler.{Compiler, jump_next, jump_patch_value, emit_bytecode, emit_jump_on, jump_to_here}
use xan.Compiler.Lists.{IsChain, final, jump_append-IsChain}
use xan.Compiler.Jumps.{Reaches, jump_next-op_ajump}
use xan.Compiler.Resolve.{spots, AllReach, AllJump, jump_patch_value-AllJump}

pub get_or-last : (xs : List ℕ) (x : ℕ) → get_or (xs ++ x ∷ []) (length xs) 0 ≡ x
get_or-last [] x = refl
get_or-last (y ∷ xs) x = get_or-last xs x

-- Without pending jumps an instruction is just appended.
pub emit_alone :
    (e : Endian) (fuel : ℕ) (c : Compiler) (bc line : ℕ)
    → 1 ≤ fuel
    → emit_bytecode e fuel (record c { pending_jump_list = no_jump }) bc line
      ≡ some (
        length c.code,
        false,
        record c {
          code = c.code ++ bc ∷ [];
          lines = c.lines ++ line ∷ [];
          pending_jump_list = no_jump;
        },
      )
unfolding emit_bytecode jump_patch_value
emit_alone e zero c bc line h = absurd (omega arith)
emit_alone e (suc fuel) c bc line h = refl

-- The jumps of a chain stand in the code.
AllJump-append :
    (code : List ℕ) (bc list target : ℕ) (pcs : List ℕ) (old : List ℕ)
    → length code ≡ length old
    → IsChain old list pcs
    → AllJump code pcs target
    → AllJump (code ++ bc ∷ []) pcs target
unfolding jump_next
AllJump-append code bc list target [] old size chain all = tt
AllJump-append code bc list target (pc ∷ pcs) old size (at, inside, small, chain) (here, all) = (
  rw (get_or-append code (bc ∷ []) pc 0 (rw size inside)) here,
  AllJump-append code bc (jump_next old pc) target pcs old size chain all,
)

-- `emitBytecode`, where the pending jumps reach the end of the code and they and the instructions
-- in front of them are at different positions, with more fuel than pending jumps: it reports no
-- error and returns the old end of the code, where the instruction then stands, with its line behind
-- the old ones. Every jump that was pending goes there, and no jump is pending.
pub emit_bytecode-AllJump :
    (e : Endian) (fuel : ℕ) (c : Compiler) (bc line : ℕ) (pcs : List ℕ)
    → IsChain c.code c.pending_jump_list pcs
    → IsDistinct (spots pcs)
    → AllReach pcs (length c.code)
    → length pcs < fuel
    → (c' : Compiler) × (emit_bytecode e fuel c bc line ≡ some (length c.code, false, c'))
      × (get_or c'.code (length c.code) 0 ≡ bc)
      × (length c'.code ≡ length c.code + 1)
      × (c'.lines ≡ c.lines ++ line ∷ [])
      × AllJump c'.code pcs (length c.code)
      × IsChain c'.code c'.pending_jump_list []
unfolding emit_bytecode
emit_bytecode-AllJump e fuel c bc line pcs chain distinct reach enough =
    let count = length c.code in
    let (code, run, all, size, _) =
      jump_patch_value-AllJump e fuel c.code c.pending_jump_list count pcs chain distinct reach
        enough in
    (
      record c {
        code = code ++ bc ∷ [];
        lines = c.lines ++ line ∷ [];
        pending_jump_list = no_jump;
      },
      rw run refl,
      rw (← size) (get_or-last code bc),
      omega (arith, length-append code (bc ∷ []), size),
      refl,
      AllJump-append code bc c.pending_jump_list count pcs c.code size chain all,
      refl,
    )

-- `jump_to_here` of a list of jumps that shares no position with the pending ones, where the last
-- pending jump reaches the first one of the list, with fuel for each pending jump: it reports no
-- error, the pending jumps are the old ones and then those of the list, the end of the code is the
-- last target, and the code has its old length.
pub jump_to_here-IsChain :
    (e : Endian) (fuel : ℕ) (c : Compiler) (list : ℕ) (xs ys : List ℕ)
    → IsChain c.code c.pending_jump_list xs
    → IsChain c.code list ys
    → IsDistinct (xs ++ ys)
    → ((x y : ℕ) (xs' ys' : List ℕ) → xs ≡ x ∷ xs' → ys ≡ y ∷ ys' → Reaches (final x xs') y)
    → length xs ≤ fuel
    → (c' : Compiler) × (jump_to_here e fuel c list ≡ some (false, c'))
      × IsChain c'.code c'.pending_jump_list (xs ++ ys)
      × (c'.last_target ≡ length c'.code)
      × (length c'.code ≡ length c.code)
unfolding jump_to_here
jump_to_here-IsChain e fuel c list xs ys chain1 chain2 distinct near enough =
    let (l, (code, run, chain, size)) =
      jump_append-IsChain e fuel c.code c.pending_jump_list list xs ys chain1 chain2 distinct near
        enough in
    (
      record c { last_target = length c.code; pending_jump_list = l; code = code },
      rw run refl,
      chain,
      sym size,
      size,
    )

-- A chain stays when the code grows.
IsChain-append :
    (code : List ℕ) (bc list : ℕ) (pcs : List ℕ)
    → IsChain code list pcs
    → IsChain (code ++ bc ∷ []) list pcs
unfolding jump_next
IsChain-append code bc list [] chain = chain
IsChain-append code bc list (pc ∷ pcs) (at, inside, small, chain) = (
  at,
  omega (arith, length-append code (bc ∷ [])),
  small,
  rw (get_or-append code (bc ∷ []) pc 0 inside)
      (IsChain-append code bc (jump_next code pc) pcs chain),
)

IsFresh-position :
    (n : ℕ) (pcs code : List ℕ) (list : ℕ) → IsChain code list pcs → length code ≤ n → IsFresh n pcs
IsFresh-position n [] code list chain le = tt
IsFresh-position n (pc ∷ pcs) code list (_, inside, _, chain) le =
    ((λ e. omega arith), IsFresh-position n pcs code (jump_next code pc) chain le)

-- `_emit_jump` of an opcode and register that fit a byte, where the end of the code is below 2 ^ 31
-- and reaches the first pending jump and the pending jumps are at different positions, with some
-- fuel: it reports no error, the code is one instruction longer, the returned list is the new jump at
-- the old end of the code and then the jumps that were pending, and no jump is pending.
pub emit_jump_on-IsChain :
    (e : Endian) (fuel : ℕ) (c : Compiler) (o a line : ℕ) (pcs : List ℕ)
    → o < 256
    → a < 256
    → length c.code < 2 ^ 31
    → IsChain c.code c.pending_jump_list pcs
    → IsDistinct pcs
    → ((x : ℕ) (xs : List ℕ) → pcs ≡ x ∷ xs → Reaches (length c.code) x)
    → 1 ≤ fuel
    → (list : ℕ) × ((c' : Compiler) × (emit_jump_on e fuel c o a line ≡ some (list, false, c'))
        × IsChain c'.code list (length c.code ∷ pcs)
        × (length c'.code ≡ length c.code + 1)
        × (c'.pending_jump_list ≡ no_jump))
unfolding emit_jump_on
emit_jump_on-IsChain e fuel c o a line pcs ho ha small chain distinct near enough =
    let n = length c.code in
    let bc = op_ajump o a 0xffff in
    let code1 = c.code ++ bc ∷ [] in
    let stop = jump_next-op_ajump code1 n o a ho ha (get_or-last c.code bc) in
    let inside : n < length code1 = omega (arith, length-append c.code (bc ∷ [])) in
    let (list, (code2, run, joined, size)) =
      jump_append-IsChain e fuel code1 n c.pending_jump_list (n ∷ []) pcs
        (refl, inside, small, stop) (IsChain-append c.code bc c.pending_jump_list pcs chain)
        (IsFresh-position n pcs c.code c.pending_jump_list chain (omega arith), distinct)
        (λ x y xs ys p q. reaches x y xs ys p q) enough in
    (
      list,
      (
        record c { code = code2; lines = c.lines ++ line ∷ []; pending_jump_list = no_jump },
        rw (emit_alone e fuel c bc line enough) (rw run refl),
        joined,
        omega (arith, size, length-append c.code (bc ∷ [])),
        refl,
      ),
    )
  where
    reaches :
        (x y : ℕ) (xs ys : List ℕ)
        → length c.code ∷ [] ≡ x ∷ xs
        → pcs ≡ y ∷ ys
        → Reaches (final x xs) y
    reaches x y xs ys p q =
        let ex : x ≡ length c.code = cc in let exs : xs ≡ [] = cc in rw (ex, exs) (near y ys q)
