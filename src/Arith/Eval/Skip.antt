-- ===== src/Arith/Eval/Skip.antt =====
-- The methods of the parser in crates/epsh/src/arith.rs, one by one, by recursion on the fuel.
use ish.Prelude.{ℕ, zero, suc, ◌+◌, ◌*◌, ◌≤◌, ◌||◌, ◌&&◌, not, ◌==◌, List, length, arith}
use ish.Arith.Token.{ArithToken}
use ish.Arith.Eval.{
  Store, Parser, Outcome, ok, err, M, bit, return, ◌>>◌, unary, primary, target, next_binop,
  after_question, after_or, after_and, is_colon, is_rparen, set_var, parse_expr, parse_assignment,
  parse_ternary, parse_branches, parse_or, parse_or_rest, parse_and, parse_and_rest, parse_binop,
  parse_binop_rest, parse_unary, parse_primary,
}
use ish.Arith.Eval.Post.{
  Kept, Ends, Kept-refl, Kept-Skips, Skips-refl, Skips-trans, Ends-bind, expect-Ends,
  apply_binop-Ends, set_var-Ends,
}
use ish.Arith.Eval.Shape.{
  Behind, target-FitsTarget, unary-FitsUnary, primary-FitsPrimary, next_binop-FitsBinop,
  after_question-FitsRest, after_or-FitsRest, after_and-FitsRest,
}
use ish.Arith.Eval.Rules.{
  enter, leave, taken, Ends-less, Ends-taken, Ends-then, Ends-past, Ends-guarded, Ends-rest,
  Ends-binop, Ends-target, Ends-unary, Ends-primary,
}

starved : {A : Type 0} (n k : ℕ) → n + suc k ≤ 0 → A
starved n k h = absurd (omega arith)

stored :
    (st : Store) (name : List ℕ) (v : ℕ) (p : Parser st.State)
    → Ends (Kept 0 p) p ((set_var st name v >> return v) p)
stored st name v p = Ends-then p _ _ (set_var-Ends st name v p) λ _ r _. Kept-refl r

prefixed :
    {S : Type 0} (p : Parser S) (rest : List ArithToken) (o : Outcome S ℕ) (g : ℕ → ℕ)
    → Behind p.tokens 1 rest
    → Ends (Kept 1 (record p { tokens = rest })) (record p { tokens = rest }) o
    → Ends (Kept 1 p) p (elim o [ ok v r ↦ ok (g v) r | err e s ↦ err e s ])
prefixed p rest o g b h =
    Ends-less _ 2 1 _ (omega arith)
      (Ends-past 1 1 p rest o (λ v. return (g v)) b h λ _ r _. Kept-refl r)

module _ (st : Store) where
  abbrev pub Enough : (ℕ → M st.State ℕ) → ℕ → ℕ → Type 0
  Enough method offset n =
      (f : ℕ) (p : Parser st.State)
      → 12 * length p.tokens + offset ≤ f
      → Ends (Kept n p) p (method f p)

  mutual
    unfolding parse_expr

    pub expr-Ends : Enough (parse_expr st) 8 1
    expr-Ends zero p h = starved _ 7 h
    expr-Ends (suc f) p h = assignment-Ends f p (omega arith)

    assignment-Ends : Enough (parse_assignment st) 7 1
    assignment-Ends zero p h = starved _ 6 h
    assignment-Ends (suc f) p h =
        Ends-target (Kept 1 p) p p.tokens (target p.tokens) _ _ _ (target-FitsTarget p.tokens)
          (ternary-Ends f p (omega arith))
          (λ name rest b. Ends-less _ 3 1 _ (omega arith) (
            Ends-past 2 1 p rest _ _ b (assignment-Ends f _ (omega arith))
              λ v r _. stored st name v r))
          λ name op rest b. Ends-less _ 3 1 _ (omega arith) (
            Ends-past 2 1 p rest _ _ b (assignment-Ends f _ (omega arith)) λ v r _.
              Ends-then r _ _ (apply_binop-Ends op (st.read r.vars name) v r)
                λ w s _. stored st name w s)

    ternary-Ends : Enough (parse_ternary st) 6 1
    ternary-Ends zero p h = starved _ 5 h
    ternary-Ends (suc f) p h =
        Ends-then p _ _ (or-Ends f p (omega arith))
          λ a r k. branches-Ends a f r (omega (arith, k.consumed))

    branches-Ends : (cond : ℕ) → Enough (λ f. parse_branches st f cond) 1 0
    branches-Ends cond zero p h = starved _ 0 h
    branches-Ends cond (suc f) p h =
        Ends-rest (Kept 0 p) p p.tokens (after_question p.tokens) _ _
          (after_question-FitsRest p.tokens) (Kept-refl p)
          λ rest b.
            let skips = enter rest (cond == 0) (Skips-refl p) in
            Ends-bind (Kept 0 p) 1 p _ _ _ skips (expr-Ends f _ (omega arith)) λ a r k.
              let skips' = Skips-trans skips (Kept-Skips 1 k) in
              Ends-bind (Kept 0 p) 1 p r _ _ skips' (expect-Ends is_colon r) λ _ s l.
                let skips'' =
                  enter s.tokens (not (cond == 0)) (Skips-trans skips' (Kept-Skips 1 l)) in
                Ends-bind (Kept 0 p) 1 p _ _ _ skips''
                  (expr-Ends f _ (omega (arith, k.consumed, l.consumed)))
                  λ c t m.
                    leave 0 (Skips-trans skips'' (Kept-Skips 1 m))
                      (omega (arith, k.consumed, l.consumed, m.consumed))

    or-Ends : Enough (parse_or st) 5 1
    or-Ends zero p h = starved _ 4 h
    or-Ends (suc f) p h =
        Ends-then p _ _ (and-Ends f p (omega arith))
          λ a r k. or_rest-Ends a f r (omega (arith, k.consumed))

    or_rest-Ends : (left : ℕ) → Enough (λ f. parse_or_rest st f left) 1 0
    or_rest-Ends left zero p h = starved _ 0 h
    or_rest-Ends left (suc f) p h =
        Ends-rest (Kept 0 p) p p.tokens (after_or p.tokens) _ _ (after_or-FitsRest p.tokens)
          (Kept-refl p)
          λ rest b.
            Ends-guarded p rest (not (left == 0)) _
              (λ right. parse_or_rest st f (bit (not (left == 0) || not (right == 0)))) b
              (and-Ends f _ (omega arith)) λ a r k. or_rest-Ends _ f r (omega (arith, k.consumed))

    pub and-Ends : Enough (parse_and st) 4 1
    and-Ends zero p h = starved _ 3 h
    and-Ends (suc f) p h =
        Ends-then p _ _ (binop-Ends 1 f p (omega arith))
          λ a r k. and_rest-Ends a f r (omega (arith, k.consumed))

    and_rest-Ends : (left : ℕ) → Enough (λ f. parse_and_rest st f left) 1 0
    and_rest-Ends left zero p h = starved _ 0 h
    and_rest-Ends left (suc f) p h =
        Ends-rest (Kept 0 p) p p.tokens (after_and p.tokens) _ _ (after_and-FitsRest p.tokens)
          (Kept-refl p)
          λ rest b.
            Ends-guarded p rest (left == 0) _
              (λ right. parse_and_rest st f (bit (not (left == 0) && not (right == 0)))) b
              (binop-Ends 1 f _ (omega arith))
              λ a r k. and_rest-Ends _ f r (omega (arith, k.consumed))

    pub binop-Ends : (min : ℕ) → Enough (λ f. parse_binop st f min) 3 1
    binop-Ends min zero p h = starved _ 2 h
    binop-Ends min (suc f) p h =
        Ends-then p _ _ (unary-Ends f p (omega arith))
          λ a r k. binop_rest-Ends min a f r (omega (arith, k.consumed))

    binop_rest-Ends : (min left : ℕ) → Enough (λ f. parse_binop_rest st f min left) 1 0
    binop_rest-Ends min left zero p h = starved _ 0 h
    binop_rest-Ends min left (suc f) p h =
        Ends-binop (Kept 0 p) p p.tokens (next_binop min p.tokens) _ _
          (next_binop-FitsBinop min p.tokens) (Kept-refl p)
          λ tok prec rest b. Ends-less _ 2 0 _ (omega arith) (
            Ends-past 1 1 p rest _ _ b (binop-Ends (prec + 1) f _ (omega arith)) λ a r k.
              Ends-then r _ _ (apply_binop-Ends tok left a r)
                λ v s l. binop_rest-Ends min v f s (omega (arith, k.consumed, l.consumed)))

    unary-Ends : Enough (parse_unary st) 2 1
    unary-Ends zero p h = starved _ 1 h
    unary-Ends (suc f) p h =
        Ends-unary (Kept 1 p) p p.tokens (unary p.tokens) _ _ _ _ _ (unary-FitsUnary p.tokens)
          (λ rest b.
            Ends-less _ 2 1 _ (omega arith)
              (Ends-taken 1 1 p rest _ b (unary-Ends f _ (omega arith))))
          (λ rest b. prefixed p rest _ _ b (unary-Ends f _ (omega arith)))
          (λ rest b. prefixed p rest _ _ b (unary-Ends f _ (omega arith)))
          (λ rest b. prefixed p rest _ _ b (unary-Ends f _ (omega arith)))
          (primary-Ends f p (omega arith))

    primary-Ends : Enough (parse_primary st) 1 1
    primary-Ends zero p h = starved _ 0 h
    primary-Ends (suc f) p h =
        Ends-primary (Kept 1 p) p p.tokens (primary p.tokens) _ _ _ (primary-FitsPrimary p.tokens)
          (λ n rest b. taken rest 1 0 b (Kept-refl _))
          (λ name rest b. taken rest 1 0 b (Kept-refl _))
          λ rest b. Ends-less _ 2 1 _ (omega arith) (
            Ends-past 1 1 p rest _ _ b (expr-Ends f _ (omega arith)) λ a r k.
              Ends-then r _ _ (Ends-less _ 1 0 _ (omega arith) (expect-Ends is_rparen r))
                λ _ s l. Kept-refl s)
