-- ===== src/Tests/Expressions.antt =====
-- src/parse.c on an expression with two locals.
use xan.Base.{ℕ, ◌≡◌, refl, arith, true, false, List, [], ◌∷◌, replicate, some, get_or}
use xan.Bytecode.{little_endian, no_jump}
use xan.Value.{Value, nil, bool, number}
use xan.Compiler.Scopes.{no_local}
use xan.Expressions.{Expression, Parser}
use xan.Expressions.Registers.{expr_any_reg}
use xan.Expressions.Trees.{
  Tree, variable, contrary, binary, add, multiply, less, generate, apply, evaluate,
}
use xan.Expressions.Growth.{end}
use xan.Expressions.Places.{Keeps, Has}
use xan.Expressions.Deliver.{Goes}
use xan.Expressions.Fits.{Fits}
use xan.Expressions.Generate.{generate-Runs}
use xan.Tests.{whole_numbers, plain_strings}
use xan.Tests.Running.{naturals, no_object}

-- A function with two locals and one instruction.
abbrev in_function : Parser ℕ
in_function = record {
  compiler = record {
    code = 29 ∷ [];
    lines = 1 ∷ [];
    pending_jump_list = no_jump;
    last_target = 0;
  };
  scope = record {
    locals = replicate 256 no_local;
    upvalues = [];
    scope_depth = 1;
    act_var = 2;
    next_reg = 2;
    max_reg = 2;
  };
  chunk = record {
    count = 1;
    capacity = 8;
    code = [];
    lines = [];
    constants = record { count = 0; capacity = 0; values = [] };
    constant_indices = record { count = 0; capacity_mask = 7; entries = replicate 8 nil };
  };
  line = 2;
  had_error = false;
}

-- `!(a + b * a < b)`.
abbrev formula : Tree
formula =
    contrary (
      binary less (binary add (variable 0) (binary multiply (variable 1) (variable 0)))
        (variable 1))

abbrev five_registers : List (Value ℕ)
five_registers = number 3 ∷ number 4 ∷ nil ∷ nil ∷ nil ∷ []

formula-Fits : Fits in_function five_registers formula
formula-Fits = record {
  quiet = refl;
  uses = ((omega arith, (omega arith, omega arith)), omega arith);
  ordered = omega arith;
  low = omega arith;
  inside = omega arith;
  short = omega arith;
}

formula_value : evaluate whole_numbers naturals no_object five_registers formula ≡ some (bool true)
unfolding evaluate apply
formula_value = refl

generate-Runs_example :
    (x : Expression ℕ) × ((y : Expression ℕ) × ((p : Parser ℕ) × ((q : Parser ℕ) × (generate
              whole_numbers plain_strings little_endian in_function formula
            ≡ some (x, p))
          × (expr_any_reg whole_numbers plain_strings little_endian p x ≡ some (y, q))
          × (q.had_error ≡ false)
          × ((words : List ℕ)
              → Has words q 1 (end q)
              → (regs : List (Value ℕ)) × Keeps 2 five_registers regs
                × (get_or regs y.info nil ≡ bool true)
                × Goes whole_numbers plain_strings little_endian naturals no_object no_object [] nil
                    [] words 1 five_registers
                    (end q)
                    regs))))
generate-Runs_example =
    generate-Runs whole_numbers plain_strings little_endian naturals no_object no_object [] nil []
      formula in_function five_registers (bool true) formula-Fits formula_value
