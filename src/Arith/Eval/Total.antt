-- ===== src/Arith/Eval/Total.antt =====
-- The evaluator of crates/epsh/src/arith.rs: its answer, and the parts that `&&`, `||` and `?:` skip.
use ish.Prelude.{
  ℕ, zero, suc, ◌+◌, ◌*◌, ◌≤◌, ◌≡◌, ◌≢◌, refl, ◌∙◌, Bool, true, false, ◌||◌, Option, none, some,
  List, [], ◌∷◌, length, arith,
}
use ish.Utf8.{Str}
use ish.Arith.Token.{ArithToken, ArithError, out_of_fuel, unexpected_token, Tokens, tokenize}
use ish.Arith.Token.Fuel.{Tokenized, tokenize-Tokenized}
use ish.Arith.Eval.{
  Store, Parser, Outcome, ok, err, finish, eval_tokens, eval_arith, parse_expr, parse_and_rest,
  parse_or_rest, after_and, after_or,
}
use ish.Arith.Eval.Post.{Kept, Ends, is_evaluation}
use ish.Arith.Eval.Shape.{Behind, FitsRest, after_and-FitsRest, after_or-FitsRest}
use ish.Arith.Eval.Skip.{expr-Ends, and-Ends, binop-Ends}

-- The error of an outcome, if it is one.
abbrev pub error : {S A : Type 0} → Outcome S A → Option ArithError
error (ok a p) = none
error (err e s) = some e

-- The variables that an outcome leaves.
abbrev pub vars_after : {S A : Type 0} → Outcome S A → S
vars_after (ok a p) = p.vars
vars_after (err e s) = s

left_over :
    {S : Type 0} (v : ℕ) (p : Parser S) (ts : List ArithToken)
    → error (elim ts [ [] ↦ ok v p | _ ∷ _ ↦ err unexpected_token p.vars ]) ≢ some out_of_fuel
left_over v p [] = λ e. cc
left_over v p (t ∷ ts) = λ e. cc

finish-has_fuel :
    (st : Store) (o : Outcome st.State ℕ)
    → error o ≢ some out_of_fuel
    → error (finish st o) ≢ some out_of_fuel
unfolding finish
finish-has_fuel st (err e s) h = h
finish-has_fuel st (ok v p) h = left_over v p p.tokens

Ends-has_fuel :
    {S A : Type 0} (Post : Parser S → Type 0) (p : Parser S) (o : Outcome S A)
    → Ends Post p o
    → error o ≢ some out_of_fuel
Ends-has_fuel Post p (ok a q) h = λ e. cc
Ends-has_fuel Post p (err e s) h = λ q. ground (arith, h.has_fuel)

eval_tokens-total :
    (st : Store) (ts : List ArithToken) (s : st.State)
    → error (eval_tokens st ts s) ≢ some out_of_fuel
unfolding eval_tokens
eval_tokens-total st ts s =
    let p : Parser st.State = record { tokens = ts; vars = s; noeval = false } in
    finish-has_fuel st _
      (Ends-has_fuel (Kept 1 p) p _ (expr-Ends st (12 * length ts + 12) p (omega arith)))

after_tokenize :
    (st : Store) (s : st.State) (ts : Tokens)
    → Tokenized ts
    → error (elim ts [ Tokens.err e ↦ err e s | Tokens.ok ts' ↦ eval_tokens st ts' s ])
      ≢ some out_of_fuel
after_tokenize st s (Tokens.err e) h = λ q. ground arith
after_tokenize st s (Tokens.ok ts) h = eval_tokens-total st ts s

-- `eval_arith` answers on every text: neither the tokenizer's nor the parser's fuel runs out.
pub eval_arith-total :
    (st : Store) (expr : Str) (s : st.State) → error (eval_arith st expr s) ≢ some out_of_fuel
unfolding eval_arith
eval_arith-total st expr s = after_tokenize st s (tokenize expr) (tokenize-Tokenized expr)

-- No variable of `p` has changed, and the error, if there is one, is one of syntax.
pub record NoEffect {S A : Type 0} (p : Parser S) (o : Outcome S A) : Type 0 where
  pub unchanged : vars_after o ≡ p.vars
  pub syntax : (e : ArithError) → error o ≡ some e → is_evaluation e ≡ false

Ends-NoEffect :
    {S A : Type 0} (n : ℕ) (p : Parser S) (o : Outcome S A)
    → p.noeval ≡ true
    → Ends (Kept n p) p o
    → NoEffect p o
Ends-NoEffect n p (ok a q) skip h = record { unchanged = h.same_vars skip; syntax = λ e q. cc }
Ends-NoEffect n p (err e s) skip h = record {
  unchanged = h.unchanged skip;
  syntax = λ e' q. ground (arith, h.syntax skip);
}

-- An expression that is parsed with `noeval` set changes no variable, divides nothing and shifts nothing,
-- whatever it is made of; the fuel covers its tokens.
pub parse_expr-NoEffect :
    (st : Store) (f : ℕ) (p : Parser st.State)
    → 12 * length p.tokens + 8 ≤ f
    → p.noeval ≡ true
    → NoEffect p (parse_expr st f p)
parse_expr-NoEffect st f p h skip = Ends-NoEffect 1 p _ skip (expr-Ends st f p h)

Ends-bind-NoEffect :
    {S : Type 0} (p q : Parser S) (o : Outcome S ℕ) (k : ℕ → Parser S → Outcome S ℕ)
    → q.noeval ≡ true
    → q.vars ≡ p.vars
    → Ends (Kept 1 q) q o
    → ((v : ℕ) (r : Parser S) → length r.tokens + 1 ≤ length q.tokens → NoEffect r (k v r))
    → NoEffect p (elim o [ ok v r ↦ k v r | err e s ↦ err e s ])
Ends-bind-NoEffect p q (ok v r) k skip same h next = record {
  unchanged = (next v r h.consumed).unchanged ∙ h.same_vars skip ∙ same;
  syntax = (next v r h.consumed).syntax;
}
Ends-bind-NoEffect p q (err e s) k skip same h next = record {
  unchanged = h.unchanged skip ∙ same;
  syntax = λ e' q. ground (arith, h.syntax skip);
}

or_true : (a b : Bool) → b ≡ true → (a || b) ≡ true
or_true a b h = ground arith

-- One more right side of a loop that skips it, if there is one.
rest-NoEffect :
    {S : Type 0} (v : ℕ) (p : Parser S) (t : Option (List ArithToken))
    (k : List ArithToken → Outcome S ℕ)
    → FitsRest p.tokens t
    → ((rest : List ArithToken) → Behind p.tokens 1 rest → NoEffect p (k rest))
    → NoEffect p (elim t [ none ↦ ok v p | some rest ↦ k rest ])
rest-NoEffect v p none k h next = record { unchanged = refl; syntax = λ e q. cc }
rest-NoEffect v p (some rest) k h next = next rest h

reset-NoEffect :
    {S : Type 0} (p : Parser S) (b : Bool) (o : Outcome S ℕ)
    → NoEffect (record p { noeval = b }) o
    → NoEffect p o
reset-NoEffect p b o h = record { unchanged = h.unchanged; syntax = h.syntax }

-- Behind a left side that is zero the loop of `parse_and` changes no variable and gives no error of an
-- operator: the right sides of `&&` are parsed and not evaluated. The fuel covers the tokens.
pub parse_and_rest-NoEffect :
    (st : Store) (f : ℕ) (p : Parser st.State)
    → 12 * length p.tokens + 1 ≤ f
    → NoEffect p (parse_and_rest st f 0 p)
unfolding parse_expr
parse_and_rest-NoEffect st zero p h = absurd (omega arith)
parse_and_rest-NoEffect st (suc f) p h =
    rest-NoEffect 0 p (after_and p.tokens) _ (after_and-FitsRest p.tokens) λ rest b.
      Ends-bind-NoEffect p (record p { tokens = rest; noeval = p.noeval || true }) _
        (λ v r. parse_and_rest st f 0 (record r { noeval = p.noeval })) (or_true p.noeval true refl)
        refl (binop-Ends st 1 f _ (omega arith))
        λ v r k. reset-NoEffect r p.noeval _ (parse_and_rest-NoEffect st f _ (omega arith))

-- Behind a left side that is 1 the loop of `parse_or` changes no variable and gives no error of an
-- operator: the right sides of `||` are parsed and not evaluated. The fuel covers the tokens.
pub parse_or_rest-NoEffect :
    (st : Store) (f : ℕ) (p : Parser st.State)
    → 12 * length p.tokens + 1 ≤ f
    → NoEffect p (parse_or_rest st f 1 p)
unfolding parse_expr
parse_or_rest-NoEffect st zero p h = absurd (omega arith)
parse_or_rest-NoEffect st (suc f) p h =
    rest-NoEffect 1 p (after_or p.tokens) _ (after_or-FitsRest p.tokens) λ rest b.
      Ends-bind-NoEffect p (record p { tokens = rest; noeval = p.noeval || true }) _
        (λ v r. parse_or_rest st f 1 (record r { noeval = p.noeval })) (or_true p.noeval true refl)
        refl (and-Ends st f _ (omega arith))
        λ v r k. reset-NoEffect r p.noeval _ (parse_or_rest-NoEffect st f _ (omega arith))
