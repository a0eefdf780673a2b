-- ===== src/Arith/Tests.antt =====
-- The evaluator of crates/epsh/src/arith.rs on concrete texts, with one variable.
use ish.Prelude.{ℕ, ◌≡◌, ◌≢◌, refl, arith, true, false, some, [], ◌∷◌}
use ish.Utf8.{Str}
use ish.Arith.Token.{num, and, or, slash, var, assign, out_of_fuel, tokenize}
use ish.Int64.{wrapping_add}
use ish.Arith.Eval.{
  Store, Parser, apply_binop, expect, binop, eval_arith, parse_expr, parse_and_rest, parse_or_rest,
}
use ish.Arith.Eval.Total.{
  NoEffect, error, vars_after, eval_arith-total, parse_expr-NoEffect, parse_and_rest-NoEffect,
  parse_or_rest-NoEffect,
}

abbrev one_variable : Store
one_variable = record { State = ℕ; read = λ s name. s; write = λ s name v. v }

-- `x+=0?1/0:3`
abbrev text : Str
text = b'x' ∷ b'+' ∷ b'=' ∷ b'0' ∷ b'?' ∷ b'1' ∷ b'/' ∷ b'0' ∷ b':' ∷ b'3' ∷ []

eval_arith-total_example : error (eval_arith one_variable text 4) ≢ some out_of_fuel
eval_arith-total_example = eval_arith-total one_variable text 4

-- The division by zero stands in the branch that is skipped.
eval_arith_run : vars_after (eval_arith one_variable text 4) ≡ 7
unfolding eval_arith tokenize apply_binop expect binop wrapping_add
eval_arith_run = refl

-- `x = 1 / 0`, skipped
abbrev skipped : Parser ℕ
skipped = record {
  tokens = var (b'x' ∷ []) ∷ assign ∷ num 1 ∷ slash ∷ num 0 ∷ [];
  vars = 4;
  noeval = true;
}

parse_expr-NoEffect_example : NoEffect skipped (parse_expr one_variable 70 skipped)
parse_expr-NoEffect_example = parse_expr-NoEffect one_variable 70 skipped (omega arith) refl

-- `&& 1 / 0`
abbrev right_and : Parser ℕ
right_and = record { tokens = and ∷ num 1 ∷ slash ∷ num 0 ∷ []; vars = 4; noeval = false }

parse_and_rest-NoEffect_example : NoEffect right_and (parse_and_rest one_variable 50 0 right_and)
parse_and_rest-NoEffect_example = parse_and_rest-NoEffect one_variable 50 right_and (omega arith)

-- `|| 1 / 0`
abbrev right_or : Parser ℕ
right_or = record { tokens = or ∷ num 1 ∷ slash ∷ num 0 ∷ []; vars = 4; noeval = false }

parse_or_rest-NoEffect_example : NoEffect right_or (parse_or_rest one_variable 50 1 right_or)
parse_or_rest-NoEffect_example = parse_or_rest-NoEffect one_variable 50 right_or (omega arith)
