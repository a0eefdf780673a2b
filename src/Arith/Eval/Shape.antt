-- ===== src/Arith/Eval/Shape.antt =====
-- The rules for the tests of the next token in the parser of crates/epsh/src/arith.rs: the tokens behind
-- it are fewer.
use ish.Prelude.{
  ℕ, ◌+◌, ◌≤◌, ◌≡◌, ◌≢◌, refl, false, List, [], ◌∷◌, length, arith, Option, none, some, leb,
  Bool-cases, inl, inr, if◌then◌else◌,
}
use ish.Arith.Token.{
  ArithToken, question, or, and, var, num, lparen, plus, minus, not, bit_not, assign, out_of_fuel,
}
use ish.Arith.Eval.{
  Target, plain, compound, no_target, target, target_by, next_binop, precedence, after_question,
  after_or, after_and, assignment_binary_op, Unary, keep, negate, invert, flip, no_unary, unary,
  Primary, literal, variable, group, no_primary, primary,
}
use ish.Arith.Eval.Post.{is_evaluation}

-- `rest` lies behind at least `n` of the tokens `ts`.
abbrev pub Behind : List ArithToken → ℕ → List ArithToken → Type 0
Behind ts n rest = length rest + n ≤ length ts

abbrev pub FitsTarget : List ArithToken → Target → Type 0
FitsTarget ts (plain name rest) = Behind ts 2 rest
FitsTarget ts (compound name op rest) = Behind ts 2 rest
FitsTarget ts no_target = Unit

abbrev pub FitsUnary : List ArithToken → Unary → Type 0
FitsUnary ts (keep rest) = Behind ts 1 rest
FitsUnary ts (negate rest) = Behind ts 1 rest
FitsUnary ts (invert rest) = Behind ts 1 rest
FitsUnary ts (flip rest) = Behind ts 1 rest
FitsUnary ts no_unary = Unit

abbrev pub FitsPrimary : List ArithToken → Primary → Type 0
FitsPrimary ts (literal n rest) = Behind ts 1 rest
FitsPrimary ts (variable name rest) = Behind ts 1 rest
FitsPrimary ts (group rest) = Behind ts 1 rest
FitsPrimary ts (no_primary e) = (is_evaluation e ≡ false) × (e ≢ out_of_fuel)

abbrev pub FitsRest : List ArithToken → Option (List ArithToken) → Type 0
FitsRest ts none = Unit
FitsRest ts (some rest) = Behind ts 1 rest

abbrev pub FitsBinop : List ArithToken → Option (ArithToken × ℕ × List ArithToken) → Type 0
FitsBinop ts none = Unit
FitsBinop ts (some (tok, prec, rest)) = Behind ts 1 rest

pub after_question-FitsRest : (ts : List ArithToken) → FitsRest ts (after_question ts)
unfolding after_question
after_question-FitsRest [] = tt
after_question-FitsRest (question ∷ rest) = omega arith
after_question-FitsRest (_ ∷ rest) = tt

pub after_or-FitsRest : (ts : List ArithToken) → FitsRest ts (after_or ts)
unfolding after_or
after_or-FitsRest [] = tt
after_or-FitsRest (or ∷ rest) = omega arith
after_or-FitsRest (_ ∷ rest) = tt

pub after_and-FitsRest : (ts : List ArithToken) → FitsRest ts (after_and ts)
unfolding after_and
after_and-FitsRest [] = tt
after_and-FitsRest (and ∷ rest) = omega arith
after_and-FitsRest (_ ∷ rest) = tt

pub unary-FitsUnary : (ts : List ArithToken) → FitsUnary ts (unary ts)
unfolding unary
unary-FitsUnary [] = tt
unary-FitsUnary (plus ∷ rest) = omega arith
unary-FitsUnary (minus ∷ rest) = omega arith
unary-FitsUnary (not ∷ rest) = omega arith
unary-FitsUnary (bit_not ∷ rest) = omega arith
unary-FitsUnary (_ ∷ rest) = tt

pub primary-FitsPrimary : (ts : List ArithToken) → FitsPrimary ts (primary ts)
unfolding primary
primary-FitsPrimary [] = (refl, λ e. cc)
primary-FitsPrimary (num n ∷ rest) = omega arith
primary-FitsPrimary (var name ∷ rest) = omega arith
primary-FitsPrimary (lparen ∷ rest) = omega arith
primary-FitsPrimary (_ ∷ rest) = (refl, λ e. cc)

compound_if :
    (name : List ℕ) (op : Option ArithToken) (tok : ArithToken) (first : ArithToken)
    (rest : List ArithToken)
    → FitsTarget
        (first ∷ tok ∷ rest)
        (elim op [ none ↦ no_target | some binary ↦ compound name binary rest ])
compound_if name none tok first rest = tt
compound_if name (some binary) tok first rest = omega arith

pub target-FitsTarget : (ts : List ArithToken) → FitsTarget ts (target ts)
unfolding target target_by
target-FitsTarget [] = tt
target-FitsTarget (var name ∷ []) = tt
target-FitsTarget (var name ∷ assign ∷ rest) = omega arith
target-FitsTarget (var name ∷ op ∷ rest) =
    compound_if name (assignment_binary_op op) op (var name) rest
target-FitsTarget (_ ∷ rest) = tt

binop_if :
    (min : ℕ) (tok : ArithToken) (rest : List ArithToken) (o : Option ℕ)
    → FitsBinop
        (tok ∷ rest)
        (elim o [ none ↦ none | some prec ↦ if leb min prec then some (tok, prec, rest) else none ])
binop_if min tok rest none = tt
binop_if min tok rest (some prec) = elim (Bool-cases (leb min prec)) [
  | inl high ↦ rw high (omega arith)
  | inr low ↦ rw low tt
]

pub next_binop-FitsBinop : (min : ℕ) (ts : List ArithToken) → FitsBinop ts (next_binop min ts)
unfolding next_binop
next_binop-FitsBinop min [] = tt
next_binop-FitsBinop min (tok ∷ rest) = binop_if min tok rest (precedence tok)
