-- ===== src/Expressions/Steps.antt =====
-- src/vm.c: runs of the loop, and the steps of the instructions that expressions are made of.
use xan.Base.{some-injective, ℕ, ◌+◌, ◌≡◌, refl, ap, ◌∙◌, Bool, Option, none, some, get_or}
use xan.Bytecode.{opcode, ra, rb, rc, rd}
use xan.Bytecode.Opcode.{
  ByteCode, code, of_code, of_code-code, op_negate, op_not, op_primitive, op_mov,
}
use xan.Value.{Val, nil, bool, number, obj, Number}
use xan.Run.{
  Arithmetic, Running, continues, register, assign, binary, addition, is_falsey, primitive_of,
  moved, execute, step,
}
use xan.Run.Jumps.{step_lem}
use xan.Expressions.Trees.{
  Operator, add, subtract, multiply, divide, modulo, equal, unequal, less, at_most, greater,
  at_least, instruction, on_numbers, apply, negated,
}

module _ (N : Number) (M : Arithmetic N.Double) (is_string is_empty : ℕ → Bool) where
  -- Rounds of the loop, without an exception.
  pub data Runs : Running N.Double → Running N.Double → Type 0 where
    here : (s : Running N.Double) → Runs s s
    next :
        (s s1 s2 : Running N.Double)
        → step N M is_string is_empty s ≡ continues s1
        → Runs s1 s2
        → Runs s s2

  pub Runs-trans : (s s1 s2 : Running N.Double) → Runs s s1 → Runs s1 s2 → Runs s s2
  Runs-trans s _ s2 (here _) more = more
  Runs-trans s s1 s2 (next _ s' _ one rest) more = next s s' s2 one (Runs-trans s' s1 s2 rest more)

  none-some : {x : Val N} → none ≡ some x → ⊥
  none-some h = cc

  abbrev or_nil : Option (Val N) → Val N
  or_nil none = nil
  or_nil (some v) = v

  binary_lem :
      (s : Running N.Double) (a : ℕ) (f : N.Double → N.Double → Val N) (x y v : Val N)
      → on_numbers N M is_empty f x y ≡ some v
      → binary s a f x y ≡ continues (assign s a v)
  binary_lem s a f (number x) (number y) v e =
      let same : f x y ≡ v = some-injective e in rw same refl
  binary_lem s a f _ _ v e = absurd (none-some e)

  addition_lem :
      (s : Running N.Double) (a : ℕ) (x y v : Val N)
      → on_numbers N M is_empty (λ x y. number (M.plus x y)) x y ≡ some v
      → addition is_string s a M.plus x y ≡ continues (assign s a v)
  addition_lem s a (number x) (number y) v e =
      let same : number (M.plus x y) ≡ v = some-injective e in rw same refl
  addition_lem s a _ _ v e = absurd (none-some e)

  operate_lem :
      (o : Operator) (s : Running N.Double) (w : ℕ) (v : Val N)
      → apply N M is_empty o (register s (rb w)) (register s (rc w)) ≡ some v
      → execute N M is_string is_empty (instruction o) s w ≡ continues (assign s (ra w) v)
  unfolding execute apply
  operate_lem add s w v e = addition_lem s (ra w) (register s (rb w)) (register s (rc w)) v e
  operate_lem subtract s w v e = binary_lem s (ra w) _ (register s (rb w)) (register s (rc w)) v e
  operate_lem multiply s w v e = binary_lem s (ra w) _ (register s (rb w)) (register s (rc w)) v e
  operate_lem divide s w v e = binary_lem s (ra w) _ (register s (rb w)) (register s (rc w)) v e
  operate_lem modulo s w v e = binary_lem s (ra w) _ (register s (rb w)) (register s (rc w)) v e
  operate_lem equal s w v e = ap (λ (o : Option (Val N)). continues (assign s (ra w) (or_nil o))) e
  operate_lem unequal s w v e =
      ap (λ (o : Option (Val N)). continues (assign s (ra w) (or_nil o))) e
  operate_lem less s w v e = binary_lem s (ra w) _ (register s (rb w)) (register s (rc w)) v e
  operate_lem at_most s w v e = binary_lem s (ra w) _ (register s (rb w)) (register s (rc w)) v e
  operate_lem greater s w v e = binary_lem s (ra w) _ (register s (rb w)) (register s (rc w)) v e
  operate_lem at_least s w v e = binary_lem s (ra w) _ (register s (rb w)) (register s (rc w)) v e

  -- The step of an instruction by its opcode.
  step-code :
      (s : Running N.Double) (op : ByteCode) (w : ℕ)
      → get_or s.code s.ip 0 ≡ w
      → opcode w ≡ code op
      → step N M is_string is_empty s
        ≡ execute N M is_string is_empty op (record s { ip = s.ip + 1 }) w
  step-code s op w at is =
      step_lem N M is_string is_empty s op (ap of_code (ap opcode at ∙ is) ∙ of_code-code op)
      ∙ ap (execute N M is_string is_empty op (record s { ip = s.ip + 1 })) at

  pub step-Operator :
      (s : Running N.Double) (o : Operator) (w : ℕ) (v : Val N)
      → get_or s.code s.ip 0 ≡ w
      → opcode w ≡ code (instruction o)
      → apply N M is_empty o (register s (rb w)) (register s (rc w)) ≡ some v
      → step N M is_string is_empty s ≡ continues (assign (record s { ip = s.ip + 1 }) (ra w) v)
  step-Operator s o w v at is e =
      step-code s (instruction o) w at is ∙ (operate_lem o (record s { ip = s.ip + 1 }) w v e)

  pub step-minus :
      (s : Running N.Double) (w : ℕ) (v : Val N)
      → get_or s.code s.ip 0 ≡ w
      → opcode w ≡ code op_negate
      → negated N M is_empty (register s (rd w)) ≡ some v
      → step N M is_string is_empty s ≡ continues (assign (record s { ip = s.ip + 1 }) (ra w) v)
  unfolding execute
  step-minus s w v at is e = step-code s op_negate w at is ∙ go (register s (rd w)) refl e
    where
      go :
          (x : Val N)
          → register s (rd w) ≡ x
          → negated N M is_empty x ≡ some v
          → execute N M is_string is_empty op_negate (record s { ip = s.ip + 1 }) w
            ≡ continues (assign (record s { ip = s.ip + 1 }) (ra w) v)
      go (number x) found e =
          let same : number (M.negated x) ≡ v = some-injective e in rw (found, same) refl
      go nil found e = absurd (none-some e)
      go (bool b) found e = absurd (none-some e)
      go (obj p) found e = absurd (none-some e)

  pub step-contrary :
      (s : Running N.Double) (w : ℕ)
      → get_or s.code s.ip 0 ≡ w
      → opcode w ≡ code op_not
      → step N M is_string is_empty s
        ≡ continues (
            assign
              (record s { ip = s.ip + 1 })
              (ra w)
              (bool (is_falsey is_empty (register s (rd w)))))
  unfolding execute
  step-contrary s w at is = step-code s op_not w at is

  pub step-primitive :
      (s : Running N.Double) (w : ℕ)
      → get_or s.code s.ip 0 ≡ w
      → opcode w ≡ code op_primitive
      → step N M is_string is_empty s
        ≡ continues (assign (record s { ip = s.ip + 1 }) (ra w) (primitive_of (rd w)))
  unfolding execute
  step-primitive s w at is = step-code s op_primitive w at is

  pub step-move :
      (s : Running N.Double) (w : ℕ)
      → get_or s.code s.ip 0 ≡ w
      → opcode w ≡ code op_mov
      → step N M is_string is_empty s
        ≡ continues (assign (record s { ip = s.ip + 1 }) (ra w) (moved s (rd w)))
  unfolding execute
  step-move s w at is = step-code s op_mov w at is
