-- ===== src/Compiler/Scopes/Registers.antt =====
-- src/parse.c, `regFree`: the registers of a function are a stack.
use xan.Base.{ℕ, ◌+◌, ◌<◌, ◌≤◌, ◌≡◌, refl, arith, true, false, leb, ◌==◌, ◌||◌, ◌-◌, ◌^◌, some}
use xan.Compiler.Scopes.{Scope, reg_free}

-- The last register in use is freed.
pub reg_free-last :
    (c : Scope) (r : ℕ)
    → c.act_var ≤ r
    → r < 255
    → c.next_reg ≡ r + 1
    → reg_free c r ≡ some (record c { next_reg = c.next_reg - 1 })
unfolding reg_free
reg_free-last c r above small top =
    let a : (r == 2 ^ 16 - 1 || r == 255) ≡ false = ground arith in
    let b : leb c.act_var r ≡ true = ground arith in
    let d : (c.next_reg == r + 1) ≡ true = ground arith in rw (a, b, d) refl
