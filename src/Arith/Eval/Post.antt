-- ===== src/Arith/Eval/Post.antt =====
-- What every method of the parser in crates/epsh/src/arith.rs keeps, and the rules to chain such facts.
use ish.Prelude.{
  ℕ, ◌+◌, ◌≤◌, ◌≡◌, refl, ◌≢◌, Bool, true, false, List, [], ◌∷◌, length, arith, ap, Bool-cases, inl,
  inr, ◌∙◌, if◌then◌else◌,
}
use ish.Arith.Token.{
  ArithToken, shl, shr, slash, percent, plus, ArithError, division_by_zero, division_overflow,
  shift_out_of_range, out_of_fuel, expected,
}
use ish.Arith.Eval.{
  Parser, Outcome, ok, err, expect, expect_in, Value, value, wrong, apply_binop, binop, deliver,
  set_var, Store,
}

-- The errors of an operator, as against those of the syntax.
abbrev pub is_evaluation : ArithError → Bool
is_evaluation division_by_zero = true
is_evaluation division_overflow = true
is_evaluation shift_out_of_range = true
is_evaluation _ = false

abbrev has_fuel : Value → Bool
has_fuel (value n) = true
has_fuel (wrong out_of_fuel) = false
has_fuel (wrong _) = true

binop-has_fuel : (tok : ArithToken) (l r : ℕ) → has_fuel (binop tok l r) ≡ true
unfolding binop
binop-has_fuel shl l r = ground arith
binop-has_fuel shr l r = ground arith
binop-has_fuel slash l r = ground arith
binop-has_fuel percent l r = ground arith
binop-has_fuel plus l r = refl
binop-has_fuel _ l r = refl

module _ {S : Type 0} where
  -- A skipped part stays skipped, and leaves the variables alone.
  pub record Skips (p q : Parser S) : Type 0 where
    pub still : p.noeval ≡ true → q.noeval ≡ true
    pub same_vars : p.noeval ≡ true → q.vars ≡ p.vars

  -- A method takes at least `n` tokens, and gives `noeval` back as it was.
  pub record Kept (n : ℕ) (p q : Parser S) : Type 0 where
    pub consumed : length q.tokens + n ≤ length p.tokens
    pub restored : q.noeval ≡ p.noeval
    pub same_vars : p.noeval ≡ true → q.vars ≡ p.vars

  -- An error is no lack of fuel; in a skipped part it is one of syntax, and no variable has changed.
  pub record Fails (p : Parser S) (e : ArithError) (s : S) : Type 0 where
    pub has_fuel : e ≢ out_of_fuel
    pub unchanged : p.noeval ≡ true → s ≡ p.vars
    pub syntax : p.noeval ≡ true → is_evaluation e ≡ false

  abbrev pub Ends : {A : Type 0} → (Parser S → Type 0) → Parser S → Outcome S A → Type 0
  Ends Post p (ok a q) = Post q
  Ends Post p (err e s) = Fails p e s

  pub Kept-refl : (p : Parser S) → Kept 0 p p
  Kept-refl p = record { consumed = omega arith; restored = refl; same_vars = λ _. refl }

  pub Skips-refl : (p : Parser S) → Skips p p
  Skips-refl p = record { still = λ h. h; same_vars = λ _. refl }

  pub Kept-Skips : (n : ℕ) {p q : Parser S} → Kept n p q → Skips p q
  Kept-Skips n k = record { still = λ h. k.restored ∙ h; same_vars = k.same_vars }

  pub Skips-trans : {p q r : Parser S} → Skips p q → Skips q r → Skips p r
  Skips-trans a b = record {
    still = λ h. b.still (a.still h);
    same_vars = λ h. b.same_vars (a.still h) ∙ a.same_vars h;
  }

  pub Fails-before :
      {p q : Parser S} {e : ArithError} {s : S} → Skips p q → Fails q e s → Fails p e s
  Fails-before a f = record {
    has_fuel = f.has_fuel;
    unchanged = λ h. f.unchanged (a.still h) ∙ a.same_vars h;
    syntax = λ h. f.syntax (a.still h);
  }

  -- The rule for a bind: the first step starts at `q`, which the whole reaches from `p`.
  pub Ends-bind :
      {A B : Type 0} (Post : Parser S → Type 0) (n : ℕ) (p q : Parser S) (o : Outcome S A)
      (k : A → Parser S → Outcome S B)
      → Skips p q
      → Ends (Kept n q) q o
      → ((a : A) (r : Parser S) → Kept n q r → Ends Post p (k a r))
      → Ends Post p (elim o [ ok a r ↦ k a r | err e s ↦ err e s ])
  Ends-bind Post n p q (ok a r) k skips first next = next a r first
  Ends-bind Post n p q (err e s) k skips first next = Fails-before skips first

  pub Ends-weaken :
      {A : Type 0} (Post Post' : Parser S → Type 0) (p : Parser S) (o : Outcome S A)
      → ((q : Parser S) → Post q → Post' q)
      → Ends Post p o
      → Ends Post' p o
  Ends-weaken Post Post' p (ok a q) f h = f q h
  Ends-weaken Post Post' p (err e s) f h = h

  pub syntax-Fails :
      (p : Parser S) (e : ArithError) → is_evaluation e ≡ false → e ≢ out_of_fuel → Fails p e p.vars
  syntax-Fails p e h ne = record { has_fuel = ne; unchanged = λ _. refl; syntax = λ _. h }

  expect_in-Ends :
      (is_it : ArithToken → Bool) (p : Parser S) (ts : List ArithToken)
      → p.tokens ≡ ts
      → Ends (Kept 1 p) p (expect_in is_it ts p)
  unfolding expect_in
  expect_in-Ends is_it p [] h = syntax-Fails p expected refl (λ e. cc)
  expect_in-Ends is_it p (t ∷ ts) h = elim (Bool-cases (is_it t)) [
    | inl yes_it ↦
        rw (yes_it, expect_in)
          (record { consumed = omega (arith, ap length h); restored = refl; same_vars = λ _. refl })
    | inr no_it ↦ rw (no_it, expect_in) (syntax-Fails p expected refl (λ e. cc))
  ]

  pub expect-Ends : (is_it : ArithToken → Bool) (p : Parser S) → Ends (Kept 1 p) p (expect is_it p)
  unfolding expect
  expect-Ends is_it p = expect_in-Ends is_it p p.tokens refl

  deliver-Ends :
      (p : Parser S) (v : Value)
      → p.noeval ≡ false
      → has_fuel v ≡ true
      → Ends (Kept 0 p) p (deliver v p)
  unfolding deliver
  deliver-Ends p (value n) run h = Kept-refl p
  deliver-Ends p (wrong e) run h = record {
    has_fuel = λ q. ground arith;
    unchanged = λ q. cc;
    syntax = λ q. cc;
  }

  unless_skipped :
      (p : Parser S) (v : Value) (b : Bool)
      → p.noeval ≡ b
      → has_fuel v ≡ true
      → Ends (Kept 0 p) p (if b then ok 0 p else deliver v p)
  unless_skipped p v true skip h = Kept-refl p
  unless_skipped p v false run h = deliver-Ends p v run h

  pub apply_binop-Ends :
      (tok : ArithToken) (left right : ℕ) (p : Parser S)
      → Ends (Kept 0 p) p (apply_binop tok left right p)
  unfolding apply_binop
  apply_binop-Ends tok left right p =
      unless_skipped p (binop tok left right) p.noeval refl (binop-has_fuel tok left right)

  assigned :
      (p : Parser S) (s : S) (b : Bool)
      → p.noeval ≡ b
      → Ends (Kept 0 p) p (if b then ok tt p else ok tt (record p { vars = s }))
  assigned p s true skip = Kept-refl p
  assigned p s false run = record { consumed = omega arith; restored = refl; same_vars = λ h. cc }

module _ (st : Store) where
  pub set_var-Ends :
      (name : List ℕ) (v : ℕ) (p : Parser st.State) → Ends (Kept 0 p) p (set_var st name v p)
  unfolding set_var
  set_var-Ends name v p = assigned p (st.write p.vars name v) p.noeval refl
