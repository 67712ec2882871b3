-- ===== src/Bytecode/Opcode.antt =====
-- src/chunk.h: the opcodes, with the numbers that the enumeration gives them.
use xan.Base.{ℕ, zero, suc, ◌≡◌, refl, Option, none, some, List, [], ◌∷◌}

pub data ByteCode : Type 0 where
  op_const_num op_primitive op_negate op_not op_define_global : ByteCode
  op_set_global op_get_global op_return op_equal op_neq : ByteCode
  op_greater op_leq op_geq op_less op_addvv : ByteCode
  op_subvv op_mulvv op_divvv op_modvv op_addvk : ByteCode
  op_subvk op_mulvk op_divvk op_modvk op_jump : ByteCode
  op_copy_jump_if_false op_copy_jump_if_true op_jump_if_false op_jump_if_true op_mov : ByteCode
  op_call op_get_upval op_set_upval op_closure op_close_upvalues : ByteCode
  op_class op_get_property op_set_property op_get_propertyk op_set_propertyk : ByteCode
  op_method op_inherit op_get_super op_new_array op_duplicate_array : ByteCode
  op_new_table op_duplicate_table op_get_subscript op_set_subscript op_begin_try : ByteCode
  op_end_try op_throw op_jump_if_not_exc op_invoke : ByteCode

unfoldable pub code : ByteCode → ℕ
code op_const_num = 0
code op_primitive = 1
code op_negate = 2
code op_not = 3
code op_define_global = 4
code op_set_global = 5
code op_get_global = 6
code op_return = 7
code op_equal = 8
code op_neq = 9
code op_greater = 10
code op_leq = 11
code op_geq = 12
code op_less = 13
code op_addvv = 14
code op_subvv = 15
code op_mulvv = 16
code op_divvv = 17
code op_modvv = 18
code op_addvk = 19
code op_subvk = 20
code op_mulvk = 21
code op_divvk = 22
code op_modvk = 23
code op_jump = 24
code op_copy_jump_if_false = 25
code op_copy_jump_if_true = 26
code op_jump_if_false = 27
code op_jump_if_true = 28
code op_mov = 29
code op_call = 30
code op_get_upval = 31
code op_set_upval = 32
code op_closure = 33
code op_close_upvalues = 34
code op_class = 35
code op_get_property = 36
code op_set_property = 37
code op_get_propertyk = 38
code op_set_propertyk = 39
code op_method = 40
code op_inherit = 41
code op_get_super = 42
code op_new_array = 43
code op_duplicate_array = 44
code op_new_table = 45
code op_duplicate_table = 46
code op_get_subscript = 47
code op_set_subscript = 48
code op_begin_try = 49
code op_end_try = 50
code op_throw = 51
code op_jump_if_not_exc = 52
code op_invoke = 53

-- `OP_COUNT`.
abbrev pub op_count : ℕ
op_count = 54

abbrev opcodes : List ByteCode
opcodes =
    op_const_num ∷ op_primitive ∷ op_negate ∷ op_not ∷ op_define_global ∷ op_set_global
    ∷ op_get_global ∷ op_return ∷ op_equal ∷ op_neq ∷ op_greater ∷ op_leq ∷ op_geq ∷ op_less
    ∷ op_addvv ∷ op_subvv ∷ op_mulvv ∷ op_divvv ∷ op_modvv ∷ op_addvk ∷ op_subvk ∷ op_mulvk
    ∷ op_divvk ∷ op_modvk ∷ op_jump ∷ op_copy_jump_if_false ∷ op_copy_jump_if_true
    ∷ op_jump_if_false ∷ op_jump_if_true ∷ op_mov ∷ op_call ∷ op_get_upval ∷ op_set_upval
    ∷ op_closure ∷ op_close_upvalues ∷ op_class ∷ op_get_property ∷ op_set_property
    ∷ op_get_propertyk ∷ op_set_propertyk ∷ op_method ∷ op_inherit ∷ op_get_super ∷ op_new_array
    ∷ op_duplicate_array ∷ op_new_table ∷ op_duplicate_table ∷ op_get_subscript ∷ op_set_subscript
    ∷ op_begin_try ∷ op_end_try ∷ op_throw ∷ op_jump_if_not_exc ∷ op_invoke ∷ []

at : List ByteCode → ℕ → Option ByteCode
at [] n = none
at (o ∷ os) zero = some o
at (o ∷ os) (suc n) = at os n

-- The entry of the table `opcodes` in `run` that a byte selects; past the table there is none.
unfoldable pub of_code : ℕ → Option ByteCode
unfolding at
of_code n = at opcodes n

pub of_code-code : (o : ByteCode) → of_code (code o) ≡ some o
unfolding of_code code
of_code-code op_const_num = refl
of_code-code _ = refl
