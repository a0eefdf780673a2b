-- ===== src/Arith/Eval/Rules.antt =====
-- The rules to chain the facts of `Arith.Eval.Post` through a method of the parser: a part that is
-- evaluated or skipped on a condition, and the tests of the next token.
use ish.Prelude.{ℕ, ◌+◌, ◌≤◌, refl, ◌∙◌, Bool, ◌||◌, List, length, arith, Option, none, some}
use ish.Arith.Token.{ArithToken}
use ish.Arith.Eval.{
  Parser, Outcome, ok, err, Target, plain, compound, no_target, Unary, keep, negate, invert, flip,
  no_unary, Primary, literal, variable, group, no_primary,
}
use ish.Arith.Eval.Post.{
  Skips, Kept, Ends, Kept-Skips, Skips-refl, Skips-trans, Ends-bind, Fails-before, syntax-Fails,
}
use ish.Arith.Eval.Shape.{Behind, FitsTarget, FitsUnary, FitsPrimary, FitsRest, FitsBinop}

module _ {S : Type 0} where
  abbrev entered : Parser S → List ArithToken → Bool → Parser S
  entered p ts b = record p { tokens = ts; noeval = p.noeval || b }

  -- A part that is skipped if the whole is, or on the condition `b`.
  pub enter :
      {p r : Parser S} (ts : List ArithToken) (b : Bool)
      → Skips p r
      → Skips p (record r { tokens = ts; noeval = p.noeval || b })
  enter ts b s = record { still = λ h. ground arith; same_vars = s.same_vars }

  pub advance : (p : Parser S) (ts : List ArithToken) → Skips p (record p { tokens = ts })
  advance p ts = record { still = λ h. h; same_vars = λ _. refl }

  -- What is kept once `noeval` has its old value again.
  pub leave :
      {p r : Parser S} (n : ℕ)
      → Skips p r
      → length r.tokens + n ≤ length p.tokens
      → Kept n p (record r { noeval = p.noeval })
  leave n s h = record { consumed = h; restored = refl; same_vars = s.same_vars }

  pub taken :
      {p : Parser S} (ts : List ArithToken) (k n : ℕ) {r : Parser S}
      → Behind p.tokens k ts
      → Kept n (record p { tokens = ts }) r
      → Kept (n + k) p r
  taken ts k n h s = record {
    consumed = omega (arith, s.consumed);
    restored = s.restored;
    same_vars = s.same_vars;
  }

  pub Kept-less : {p q : Parser S} (n k : ℕ) → k ≤ n → Kept n p q → Kept k p q
  Kept-less n k h s = record {
    consumed = omega (arith, s.consumed);
    restored = s.restored;
    same_vars = s.same_vars;
  }

  pub Kept-trans : {p q r : Parser S} (n k : ℕ) → Kept n p q → Kept k q r → Kept (n + k) p r
  Kept-trans n k s t = record {
    consumed = omega (arith, s.consumed, t.consumed);
    restored = t.restored ∙ s.restored;
    same_vars = (Skips-trans (Kept-Skips n s) (Kept-Skips k t)).same_vars;
  }

  pub Ends-less :
      {A : Type 0} (p : Parser S) (n k : ℕ) (o : Outcome S A)
      → k ≤ n
      → Ends (Kept n p) p o
      → Ends (Kept k p) p o
  Ends-less p n k (ok a r) h s = Kept-less n k h s
  Ends-less p n k (err e x) h s = s

  -- A last call, behind `n` tokens.
  pub Ends-after :
      {A : Type 0} (n k l : ℕ) {p q : Parser S} (o : Outcome S A)
      → l ≤ n + k
      → Kept n p q
      → Ends (Kept k q) q o
      → Ends (Kept l p) p o
  Ends-after n k l (ok a r) h s t = Kept-less (n + k) l h (Kept-trans n k s t)
  Ends-after n k l (err e x) h s t = Fails-before (Kept-Skips n s) t

  -- A call, and then what takes no more tokens than are there.
  pub Ends-then :
      {A B : Type 0} {n : ℕ} (p : Parser S) (o : Outcome S A) (k : A → Parser S → Outcome S B)
      → Ends (Kept n p) p o
      → ((a : A) (r : Parser S) → Kept n p r → Ends (Kept 0 r) r (k a r))
      → Ends (Kept n p) p (elim o [ ok a r ↦ k a r | err e s ↦ err e s ])
  Ends-then {n = n} p o k first next =
      Ends-bind (Kept n p) n p p o k (Skips-refl p) first
        λ a r h. Ends-after n 0 n _ (omega arith) h (next a r h)

  -- The same behind `m` tokens that are passed first.
  pub Ends-past :
      {A B : Type 0} (m n : ℕ) (p : Parser S) (rest : List ArithToken) (o : Outcome S A)
      (k : A → Parser S → Outcome S B)
      → Behind p.tokens m rest
      → Ends (Kept n (record p { tokens = rest })) (record p { tokens = rest }) o
      → ((a : A) (r : Parser S) → Kept (n + m) p r → Ends (Kept 0 r) r (k a r))
      → Ends (Kept (n + m) p) p (elim o [ ok a r ↦ k a r | err e s ↦ err e s ])
  Ends-past m n p rest o k b first next =
      Ends-bind (Kept (n + m) p) n p _ o k (advance p rest) first λ a r h.
        Ends-after (n + m) 0 (n + m) _ (omega arith) (taken rest m n b h)
          (next a r (taken rest m n b h))

  pub Ends-taken :
      {A : Type 0} (m n : ℕ) (p : Parser S) (rest : List ArithToken) (o : Outcome S A)
      → Behind p.tokens m rest
      → Ends (Kept n (record p { tokens = rest })) (record p { tokens = rest }) o
      → Ends (Kept (n + m) p) p o
  Ends-taken m n p rest (ok a r) b h = taken rest m n b h
  Ends-taken m n p rest (err e s) b h = Fails-before (advance p rest) h

  -- The right side of `||` and of `&&`, skipped on the condition `c`, and the rest of the loop.
  pub Ends-guarded :
      {A B : Type 0} (p : Parser S) (rest : List ArithToken) (c : Bool) (o : Outcome S A)
      (k : A → Parser S → Outcome S B)
      → Behind p.tokens 1 rest
      → Ends (Kept 1 (entered p rest c)) (entered p rest c) o
      → ((a : A) (r : Parser S) → Kept 2 p r → Ends (Kept 0 r) r (k a r))
      → Ends
          (Kept 0 p)
          p
          (elim o [ ok a r ↦ k a (record r { noeval = p.noeval }) | err e s ↦ err e s ])
  Ends-guarded p rest c o k b first next =
      let skips = enter rest c (Skips-refl p) in
      Ends-bind (Kept 0 p) 1 p _ o _ skips first λ a r h.
        let back = leave 2 (Skips-trans skips (Kept-Skips 1 h)) (omega (arith, h.consumed)) in
        Ends-after 2 0 0 _ (omega arith) back (next a _ back)

  module _ {A : Type 0} (Post : Parser S → Type 0) (p : Parser S) where
    pub Ends-rest :
        (ts : List ArithToken) (t : Option (List ArithToken)) (o : Outcome S A)
        (k : List ArithToken → Outcome S A)
        → FitsRest ts t
        → Ends Post p o
        → ((rest : List ArithToken) → Behind ts 1 rest → Ends Post p (k rest))
        → Ends Post p (elim t [ none ↦ o | some rest ↦ k rest ])
    Ends-rest ts none o k h a b = a
    Ends-rest ts (some rest) o k h a b = b rest h

    pub Ends-binop :
        (ts : List ArithToken) (t : Option (ArithToken × ℕ × List ArithToken)) (o : Outcome S A)
        (k : ArithToken → ℕ → List ArithToken → Outcome S A)
        → FitsBinop ts t
        → Ends Post p o
        → ((tok : ArithToken) (prec : ℕ) (rest : List ArithToken)
            → Behind ts 1 rest
            → Ends Post p (k tok prec rest))
        → Ends Post p (elim t [ none ↦ o | some (tok, prec, rest) ↦ k tok prec rest ])
    Ends-binop ts none o k h a b = a
    Ends-binop ts (some (tok, prec, rest)) o k h a b = b tok prec rest h

    pub Ends-target :
        (ts : List ArithToken) (t : Target) (o : Outcome S A)
        (k : List ℕ → List ArithToken → Outcome S A)
        (c : List ℕ → ArithToken → List ArithToken → Outcome S A)
        → FitsTarget ts t
        → Ends Post p o
        → ((name : List ℕ) (rest : List ArithToken) → Behind ts 2 rest → Ends Post p (k name rest))
        → ((name : List ℕ) (op : ArithToken) (rest : List ArithToken)
            → Behind ts 2 rest
            → Ends Post p (c name op rest))
        → Ends Post p (elim t [
          | no_target ↦ o
          | plain name rest ↦ k name rest
          | compound name op rest ↦ c name op rest
        ])
    Ends-target ts no_target o k c h a b d = a
    Ends-target ts (plain name rest) o k c h a b d = b name rest h
    Ends-target ts (compound name op rest) o k c h a b d = d name op rest h

    pub Ends-unary :
        (ts : List ArithToken) (t : Unary) (k n i f : List ArithToken → Outcome S A)
        (o : Outcome S A)
        → FitsUnary ts t
        → ((rest : List ArithToken) → Behind ts 1 rest → Ends Post p (k rest))
        → ((rest : List ArithToken) → Behind ts 1 rest → Ends Post p (n rest))
        → ((rest : List ArithToken) → Behind ts 1 rest → Ends Post p (i rest))
        → ((rest : List ArithToken) → Behind ts 1 rest → Ends Post p (f rest))
        → Ends Post p o
        → Ends Post p (elim t [
          | keep rest ↦ k rest
          | negate rest ↦ n rest
          | invert rest ↦ i rest
          | flip rest ↦ f rest
          | no_unary ↦ o
        ])
    Ends-unary ts (keep rest) k n i f o h a b c d e = a rest h
    Ends-unary ts (negate rest) k n i f o h a b c d e = b rest h
    Ends-unary ts (invert rest) k n i f o h a b c d e = c rest h
    Ends-unary ts (flip rest) k n i f o h a b c d e = d rest h
    Ends-unary ts no_unary k n i f o h a b c d e = e

  pub Ends-primary :
      {A : Type 0} (Post : Parser S → Type 0) (p : Parser S) (ts : List ArithToken) (t : Primary)
      (k : ℕ → List ArithToken → Outcome S A) (v : List ℕ → List ArithToken → Outcome S A)
      (g : List ArithToken → Outcome S A)
      → FitsPrimary ts t
      → ((n : ℕ) (rest : List ArithToken) → Behind ts 1 rest → Ends Post p (k n rest))
      → ((name : List ℕ) (rest : List ArithToken) → Behind ts 1 rest → Ends Post p (v name rest))
      → ((rest : List ArithToken) → Behind ts 1 rest → Ends Post p (g rest))
      → Ends Post p (elim t [
        | literal n rest ↦ k n rest
        | variable name rest ↦ v name rest
        | group rest ↦ g rest
        | no_primary e ↦ err e p.vars
      ])
  Ends-primary Post p ts (literal n rest) k v g h a b c = a n rest h
  Ends-primary Post p ts (variable name rest) k v g h a b c = b name rest h
  Ends-primary Post p ts (group rest) k v g h a b c = c rest h
  Ends-primary Post p ts (no_primary e) k v g (s, f) a b c = syntax-Fails p e s f
