-- ===== src/Arith/Eval.antt =====
-- The parser of crates/epsh/src/arith.rs, which evaluates as it parses. `tokens` and `pos` are the list
-- of the tokens left; an error keeps the variables, since assignments made before it stay made.
-- The variables are an interface: `get_var` also reads the special parameters, which `Vars` leaves out.
pub mod Post
pub mod Shape
pub mod Rules
pub mod Skip
pub mod Total
use ish.Prelude.{
  ℕ, zero, suc, ◌+◌, ◌*◌, ◌-◌, Bool, true, false, not as not_b, ◌&&◌, ◌||◌, Option, none, some,
  List, [], ◌∷◌, length, ltb, leb, ◌==◌, if◌then◌else◌,
}
use ish.Utf8.{Str}
use ish.Int64
use ish.Int64.{
  min_value, minus_one, wrapping_add, wrapping_sub, wrapping_mul, wrapping_neg, signed_lt, div, rem,
  complement,
}
use ish.Arith.Token.{
  ArithToken, num, var, plus, minus, star, slash, percent, lparen, rparen, eq, ne, lt, le, gt, ge,
  and, or, bit_and, bit_or, bit_xor, shl, shr, not, bit_not, assign, question, colon, add_assign,
  sub_assign, mul_assign, div_assign, mod_assign, shl_assign, shr_assign, and_assign, or_assign,
  xor_assign, ArithError, unexpected_token, unexpected_end, expected, division_by_zero,
  division_overflow, shift_out_of_range, out_of_fuel, Tokens, tokenize,
}

-- What the evaluator asks of the variables: `get_var` and the `set_int` that `set_var` calls.
pub record Store : Type 1 where
  pub State : Type 0
  pub read : State → Str → ℕ
  pub write : State → Str → ℕ → State

pub record Parser (S : Type 0) : Type 0 where
  pub tokens : List ArithToken
  pub vars : S
  pub noeval : Bool

pub data Outcome (S A : Type 0) : Type 0 where
  ok : A → Parser S → Outcome S A
  err : ArithError → S → Outcome S A

abbrev pub M : Type 0 → Type 0 → Type 0
M S A = Parser S → Outcome S A

module _ {S : Type 0} where
  infixl 5 ◌>>=◌ ◌>>◌
  abbrev pub ◌>>=◌ : {A B : Type 0} → M S A → (A → M S B) → M S B
  ◌>>=◌ m k p = elim (m p) [ ok a q ↦ k a q | err e s ↦ err e s ]

  abbrev pub ◌>>◌ : {A B : Type 0} → M S A → M S B → M S B
  m >> k = m >>= λ _. k

  abbrev pub return : {A : Type 0} → A → M S A
  return a p = ok a p

  abbrev pub fail : {A : Type 0} → ArithError → M S A
  fail e p = err e p.vars

  abbrev pub get_noeval : M S Bool
  get_noeval p = ok p.noeval p

  abbrev pub set_noeval : Bool → M S (Unit {0})
  set_noeval b p = ok tt (record p { noeval = b })

  abbrev pub set_tokens : List ArithToken → M S (Unit {0})
  set_tokens ts p = ok tt (record p { tokens = ts })

  -- `expect` of `:` and of `)`, by a test of the token.
  expect_in : (ArithToken → Bool) → List ArithToken → M S (Unit {0})
  expect_in is_it [] = fail expected
  expect_in is_it (t ∷ ts) = if is_it t then set_tokens ts else fail expected

  unfoldable pub expect : (ArithToken → Bool) → M S (Unit {0})
  unfolding expect_in
  expect is_it p = expect_in is_it p.tokens p

abbrev pub is_colon : ArithToken → Bool
is_colon colon = true
is_colon _ = false

abbrev pub is_rparen : ArithToken → Bool
is_rparen rparen = true
is_rparen _ = false

abbrev pub bit : Bool → ℕ
bit b = if b then 1 else 0

unfoldable pub shift_count : ℕ → Option ℕ
shift_count count = if ltb count 64 then some count else none

-- The result of an operator, when it is evaluated; tokens that are no operators do not come here.
pub data Value : Type 0 where
  value : ℕ → Value
  wrong : ArithError → Value

unfoldable pub checked : ℕ → ℕ → ℕ → Value
checked left right result =
    if right == 0
    then wrong division_by_zero
    else if left == min_value && right == minus_one
    then wrong division_overflow
    else value result

unfoldable pub shifted : (ℕ → ℕ → ℕ) → ℕ → Option ℕ → Value
shifted shift left none = wrong shift_out_of_range
shifted shift left (some k) = value (shift left k)

unfoldable pub binop : ArithToken → ℕ → ℕ → Value
unfolding checked shifted shift_count
binop bit_or left right = value (Int64.or left right)
binop bit_xor left right = value (Int64.xor left right)
binop bit_and left right = value (Int64.and left right)
binop eq left right = value (bit (left == right))
binop ne left right = value (bit (not_b (left == right)))
binop lt left right = value (bit (signed_lt left right))
binop le left right = value (bit (not_b (signed_lt right left)))
binop gt left right = value (bit (signed_lt right left))
binop ge left right = value (bit (not_b (signed_lt left right)))
binop shl left right = shifted Int64.shl left (shift_count right)
binop shr left right = shifted Int64.shr left (shift_count right)
binop plus left right = value (wrapping_add left right)
binop minus left right = value (wrapping_sub left right)
binop star left right = value (wrapping_mul left right)
binop slash left right = checked left right (div left right)
binop percent left right = checked left right (rem left right)
binop _ left right = wrong unexpected_token

unfoldable pub deliver : {S : Type 0} → Value → M S ℕ
deliver (value n) = return n
deliver (wrong e) = fail e

unfoldable pub apply_binop : {S : Type 0} → ArithToken → ℕ → ℕ → M S ℕ
unfolding deliver
apply_binop tok left right p = if p.noeval then ok 0 p else deliver (binop tok left right) p

unfoldable pub precedence : ArithToken → Option ℕ
precedence bit_or = some 1
precedence bit_xor = some 2
precedence bit_and = some 3
precedence eq = some 4
precedence ne = some 4
precedence lt = some 5
precedence le = some 5
precedence gt = some 5
precedence ge = some 5
precedence shl = some 6
precedence shr = some 6
precedence plus = some 7
precedence minus = some 7
precedence star = some 8
precedence slash = some 8
precedence percent = some 8
precedence _ = none

-- The operator of a compound assignment, `assignment_binary_op`.
unfoldable pub assignment_binary_op : ArithToken → Option ArithToken
assignment_binary_op add_assign = some plus
assignment_binary_op sub_assign = some minus
assignment_binary_op mul_assign = some star
assignment_binary_op div_assign = some slash
assignment_binary_op mod_assign = some percent
assignment_binary_op shl_assign = some shl
assignment_binary_op shr_assign = some shr
assignment_binary_op and_assign = some bit_and
assignment_binary_op or_assign = some bit_or
assignment_binary_op xor_assign = some bit_xor
assignment_binary_op _ = none

-- How an assignment begins: its variable, the operator if it is compound, and the tokens behind.
pub data Target : Type 0 where
  plain : Str → List ArithToken → Target
  compound : Str → ArithToken → List ArithToken → Target
  no_target : Target

unfoldable pub target_by : Str → ArithToken → List ArithToken → Target
unfolding assignment_binary_op
target_by name assign rest = plain name rest
target_by name op rest = elim (assignment_binary_op op) [
  | none ↦ no_target
  | some binary ↦ compound name binary rest
]

unfoldable pub target : List ArithToken → Target
unfolding target_by
target (var name ∷ op ∷ rest) = target_by name op rest
target _ = no_target

-- The operator of precedence `min` or more that comes next, with its precedence.
unfoldable pub next_binop : ℕ → List ArithToken → Option (ArithToken × ℕ × List ArithToken)
unfolding precedence
next_binop min [] = none
next_binop min (tok ∷ rest) = elim (precedence tok) [
  | none ↦ none
  | some prec ↦ if leb min prec then some (tok, prec, rest) else none
]

-- The tokens behind a given operator, if it comes next.
unfoldable pub after_question : List ArithToken → Option (List ArithToken)
after_question (question ∷ rest) = some rest
after_question _ = none

unfoldable pub after_or : List ArithToken → Option (List ArithToken)
after_or (or ∷ rest) = some rest
after_or _ = none

unfoldable pub after_and : List ArithToken → Option (List ArithToken)
after_and (and ∷ rest) = some rest
after_and _ = none

pub data Unary : Type 0 where
  keep negate invert flip : List ArithToken → Unary
  no_unary : Unary

unfoldable pub unary : List ArithToken → Unary
unary (plus ∷ rest) = keep rest
unary (minus ∷ rest) = negate rest
unary (not ∷ rest) = invert rest
unary (bit_not ∷ rest) = flip rest
unary _ = no_unary

pub data Primary : Type 0 where
  literal : ℕ → List ArithToken → Primary
  variable : Str → List ArithToken → Primary
  group : List ArithToken → Primary
  no_primary : ArithError → Primary

unfoldable pub primary : List ArithToken → Primary
primary [] = no_primary unexpected_end
primary (num n ∷ rest) = literal n rest
primary (var name ∷ rest) = variable name rest
primary (lparen ∷ rest) = group rest
primary (tok ∷ rest) = no_primary unexpected_token

module _ (st : Store) where
  open st use {State, read, write}

  unfoldable pub get_var : Str → M State ℕ
  get_var name p = ok (read p.vars name) p

  unfoldable pub set_var : Str → ℕ → M State (Unit {0})
  set_var name v p = if p.noeval then ok tt p else ok tt (record p { vars = write p.vars name v })

  -- One level for each method; the fuel is the depth of the calls and the rounds of the loops.
  unfoldable mutual
    unfolding target next_binop after_question after_or after_and unary primary get_var set_var

    pub parse_expr : ℕ → M State ℕ
    parse_expr zero = fail out_of_fuel
    parse_expr (suc f) = parse_assignment f

    pub parse_assignment : ℕ → M State ℕ
    parse_assignment zero = fail out_of_fuel
    parse_assignment (suc f) = λ p. elim (target p.tokens) [
      | no_target ↦ parse_ternary f p
      | plain name rest ↦
          (do set_tokens rest; val ← parse_assignment f; set_var name val; return val) p
      | compound name op rest ↦
          (do
            set_tokens rest
            right ← parse_assignment f
            left ← get_var name
            val ← apply_binop op left right
            set_var name val
            return val)
            p
    ]

    pub parse_ternary : ℕ → M State ℕ
    parse_ternary zero = fail out_of_fuel
    parse_ternary (suc f) = do cond ← parse_or f; parse_branches f cond

    -- The part of `parse_ternary` behind its condition.
    pub parse_branches : ℕ → ℕ → M State ℕ
    parse_branches zero cond = fail out_of_fuel
    parse_branches (suc f) cond = λ p. elim (after_question p.tokens) [
      | none ↦ ok cond p
      | some rest ↦
          (do
            set_tokens rest
            set_noeval (p.noeval || cond == 0)
            then_val ← parse_expr f
            expect is_colon
            set_noeval (p.noeval || not_b (cond == 0))
            else_val ← parse_expr f
            set_noeval p.noeval
            return (if cond == 0 then else_val else then_val))
            p
    ]

    pub parse_or : ℕ → M State ℕ
    parse_or zero = fail out_of_fuel
    parse_or (suc f) = do left ← parse_and f; parse_or_rest f left

    -- The loop of `parse_or`.
    pub parse_or_rest : ℕ → ℕ → M State ℕ
    parse_or_rest zero left = fail out_of_fuel
    parse_or_rest (suc f) left = λ p. elim (after_or p.tokens) [
      | none ↦ ok left p
      | some rest ↦
          (do
            set_tokens rest
            set_noeval (p.noeval || not_b (left == 0))
            right ← parse_and f
            set_noeval p.noeval
            parse_or_rest f (bit (not_b (left == 0) || not_b (right == 0))))
            p
    ]

    pub parse_and : ℕ → M State ℕ
    parse_and zero = fail out_of_fuel
    parse_and (suc f) = do left ← parse_binop f 1; parse_and_rest f left

    -- The loop of `parse_and`.
    pub parse_and_rest : ℕ → ℕ → M State ℕ
    parse_and_rest zero left = fail out_of_fuel
    parse_and_rest (suc f) left = λ p. elim (after_and p.tokens) [
      | none ↦ ok left p
      | some rest ↦
          (do
            set_tokens rest
            set_noeval (p.noeval || left == 0)
            right ← parse_binop f 1
            set_noeval p.noeval
            parse_and_rest f (bit (not_b (left == 0) && not_b (right == 0))))
            p
    ]

    pub parse_binop : ℕ → ℕ → M State ℕ
    parse_binop zero min = fail out_of_fuel
    parse_binop (suc f) min = do left ← parse_unary f; parse_binop_rest f min left

    -- The loop of `parse_binop`.
    pub parse_binop_rest : ℕ → ℕ → ℕ → M State ℕ
    parse_binop_rest zero min left = fail out_of_fuel
    parse_binop_rest (suc f) min left = λ p. elim (next_binop min p.tokens) [
      | none ↦ ok left p
      | some (tok, prec, rest) ↦
          (do
            set_tokens rest
            right ← parse_binop f (prec + 1)
            val ← apply_binop tok left right
            parse_binop_rest f min val)
            p
    ]

    pub parse_unary : ℕ → M State ℕ
    parse_unary zero = fail out_of_fuel
    parse_unary (suc f) = λ p. elim (unary p.tokens) [
      | keep rest ↦ (do set_tokens rest; parse_unary f) p
      | negate rest ↦ (do set_tokens rest; val ← parse_unary f; return (wrapping_neg val)) p
      | invert rest ↦ (do set_tokens rest; val ← parse_unary f; return (bit (val == 0))) p
      | flip rest ↦ (do set_tokens rest; val ← parse_unary f; return (complement val)) p
      | no_unary ↦ parse_primary f p
    ]

    pub parse_primary : ℕ → M State ℕ
    parse_primary zero = fail out_of_fuel
    parse_primary (suc f) = λ p. elim (primary p.tokens) [
      | literal n rest ↦ (do set_tokens rest; return n) p
      | variable name rest ↦ (do set_tokens rest; get_var name) p
      | group rest ↦ (do set_tokens rest; val ← parse_expr f; expect is_rparen; return val) p
      | no_primary e ↦ err e p.vars
    ]

  -- The answer of `eval_arith`, and the variables that it leaves.
  unfoldable pub finish : Outcome State ℕ → Outcome State ℕ
  finish (err e s) = err e s
  finish (ok v p) = elim p.tokens [ [] ↦ ok v p | _ ∷ _ ↦ err unexpected_token p.vars ]

  -- The fuel has twelve calls to each token, and twelve more.
  unfoldable pub eval_tokens : List ArithToken → State → Outcome State ℕ
  unfolding finish parse_expr
  eval_tokens ts s =
      finish (parse_expr (12 * length ts + 12) (record { tokens = ts; vars = s; noeval = false }))

  unfoldable pub eval_arith : Str → State → Outcome State ℕ
  unfolding eval_tokens
  eval_arith expr s = elim (tokenize expr) [
    | Tokens.err e ↦ err e s
    | Tokens.ok ts ↦ eval_tokens ts s
  ]
