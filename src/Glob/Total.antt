-- ===== src/Glob/Total.antt =====
-- The rounds of `fnmatch_inner` of crates/epsh/src/glob.rs, and the pattern that each leaves.
use ish.Prelude.{
  ℕ, zero, suc, ◌+◌, ◌≤◌, ◌≡◌, refl, Bool, true, false, ◌&&◌, ◌||◌, not, Option, none, some, [],
  ◌∷◌, length, arith, ◌==◌, if◌then◌else◌, ◌>>=◌, Bool-cases, inl, inr,
}
use ish.Glob.{
  Text, is_escape, read_bracket_char, range_end, members, skip_stars, any_suffix, bracket,
  behind_bracket, negation, is_empty, Head, any_char, star, open_bracket, escape, literal, head_of,
  one_char, after_star, dispatch, fnmatch_inner, fnmatch,
}

-- The answer is there.
abbrev pub Answers : Option Bool → Type 0
Answers none = ⊥
Answers (some b) = Unit

-- The members are read, and what is left is no longer than `n`.
abbrev Reads : ℕ → Option (Bool × Text) → Type 0
Reads n none = ⊥
Reads n (some (found, rest)) = length rest ≤ n

Reads-bind :
    (n m : ℕ) (b : Bool) (o : Option (Bool × Text))
    → n ≤ m
    → Reads n o
    → Reads m (o >>= λ rest. some (b || rest.0, rest.1))
Reads-bind n m b none h k = k
Reads-bind n m b (some (found, rest)) h k = omega arith

length-read : (p : ℕ) (pat : Text) → length ((read_bracket_char p pat).1) ≤ length pat
unfolding read_bracket_char
length-read p [] = omega arith
length-read p (q ∷ pat) = elim (Bool-cases (is_escape p)) [
  | inl e ↦ rw e (omega arith)
  | inr e ↦ rw e (omega arith)
]

abbrev Shorter : ℕ → Option (ℕ × Text) → Type 0
Shorter n none = Unit
Shorter n (some (q, pat)) = length pat + 2 ≤ n

range_end-Shorter : (pat : Text) → Shorter (length pat) (range_end pat)
unfolding range_end
range_end-Shorter [] = tt
range_end-Shorter (p ∷ []) = tt
range_end-Shorter (p ∷ q ∷ pat) = elim (Bool-cases (p == b'-' && not (q == b']'))) [
  | inl e ↦ rw e (omega arith)
  | inr e ↦ rw e tt
]

Reads-range :
    (n m : ℕ) (o : Option (ℕ × Text)) (x : Option (Bool × Text))
    (k : ℕ → Text → Option (Bool × Text))
    → Shorter n o
    → Reads m x
    → ((q : ℕ) (pat : Text) → length pat + 2 ≤ n → Reads m (k q pat))
    → Reads m (elim o [ none ↦ x | some (q, pat) ↦ k q pat ])
Reads-range n m none x k h a b = a
Reads-range n m (some (q, pat)) x k h a b = b q pat h

Reads-if :
    (m : ℕ) (b : Bool) (x y : Option (Bool × Text))
    → Reads m x
    → Reads m y
    → Reads m (if b then x else y)
Reads-if m true x y h k = h
Reads-if m false x y h k = k

members-Reads :
    (f : ℕ) (first : Bool) (c : ℕ) (pat : Text)
    → length pat ≤ f
    → Reads (length pat) (members f first c pat)
unfolding members
members-Reads zero first c [] h = omega arith
members-Reads (suc f) first c [] h = omega arith
members-Reads zero first c (p ∷ pat) h = absurd (omega arith)
members-Reads (suc f) first c (p ∷ pat) h =
    let behind = (read_bracket_char p pat).1 in
    let shorter = length-read p pat in
    Reads-if (suc (length pat)) (p == b']' && not first) _ _ (omega arith) (
      Reads-range (length behind) (suc (length pat)) (range_end behind) _ _
        (range_end-Shorter behind)
        (Reads-bind (length behind) _ _ _ (omega arith)
          (members-Reads f false c behind (omega arith)))
        λ q pat' less.
          Reads-bind (length ((read_bracket_char q pat').1)) _ _ _
            (omega (arith, length-read q pat'))
            (members-Reads f false c _ (omega (arith, length-read q pat'))))

length-behind_bracket : (pat : Text) → length (behind_bracket pat) ≤ length pat
length-behind_bracket [] = omega arith
length-behind_bracket (p ∷ pat) = omega arith

length-negation : (pat : Text) → length ((negation pat).1) ≤ length pat
unfolding negation
length-negation [] = omega arith
length-negation (p ∷ pat) = elim (Bool-cases (p == b'!')) [
  | inl e ↦ rw e (omega arith)
  | inr e ↦ rw e (omega arith)
]

Reads-behind :
    (n m : ℕ) (g : Bool → Bool) (o : Option (Bool × Text))
    → n ≤ m
    → Reads n o
    → Reads m (o >>= λ found. some (g (found.0), behind_bracket (found.1)))
Reads-behind n m g none h k = k
Reads-behind n m g (some (found, rest)) h k = omega (arith, length-behind_bracket rest)

bracket-Reads : (pat : Text) (c : ℕ) → Reads (length pat) (bracket pat c)
unfolding bracket
bracket-Reads pat c =
    let rest = (negation pat).1 in
    Reads-behind (length rest) (length pat) (λ b. if (negation pat).0 then not b else b) _
      (length-negation pat) (members-Reads (length rest) true c rest (omega arith))

Answers-if : (b : Bool) (x y : Option Bool) → Answers x → Answers y → Answers (if b then x else y)
Answers-if true x y h k = h
Answers-if false x y h k = k

Answers-or :
    (o rest : Option Bool)
    → Answers o
    → Answers rest
    → Answers (o >>= λ b. if b then some true else rest)
Answers-or none rest h k = h
Answers-or (some b) rest h k = Answers-if b _ _ tt k

pub any_suffix-Answers :
    (found : Text → Option Bool) (s : Text)
    → ((t : Text) → Answers (found t))
    → Answers (any_suffix found s)
unfolding any_suffix
any_suffix-Answers found [] h = h []
any_suffix-Answers found (c ∷ s) h =
    Answers-or (found (c ∷ s)) _ (h (c ∷ s)) (any_suffix-Answers found s h)

Answers-bracket :
    (n : ℕ) (o : Option (Bool × Text)) (next : Text → Option Bool)
    → Reads n o
    → ((pat : Text) → length pat ≤ n → Answers (next pat))
    → Answers (o >>= λ found. let rest = next (found.1) in if found.0 then rest else some false)
Answers-bracket n none next h k = h
Answers-bracket n (some (found, rest)) next h k = Answers-if found _ _ (k rest h) tt

length-skip_stars : (pat : Text) → length (skip_stars pat) ≤ length pat
unfolding skip_stars
length-skip_stars [] = omega arith
length-skip_stars (p ∷ pat) = elim (Bool-cases (p == b'*')) [
  | inl e ↦ rw e (omega (arith, length-skip_stars pat))
  | inr e ↦ rw e (omega arith)
]

module _ (next : Text → Text → Option Bool) (n : ℕ)
    (h : (pat s : Text) → length pat ≤ n → Answers (next pat s)) where
  one_char-Answers :
      (head : Head) (pat s : Text) → length pat ≤ n → Answers (one_char next head pat s)
  unfolding one_char
  one_char-Answers head pat [] k = tt
  one_char-Answers any_char pat (c ∷ s) k = h pat s k
  one_char-Answers star pat (c ∷ s) k = tt
  one_char-Answers open_bracket pat (c ∷ s) k =
      Answers-bracket (length pat) (bracket pat c) (λ rest. next rest s) (bracket-Reads pat c)
        λ rest less. h rest s (omega arith)
  one_char-Answers escape [] (c ∷ s) k = tt
  one_char-Answers escape (p ∷ pat) (c ∷ s) k = Answers-if (c == p) _ _ (h pat s (omega arith)) tt
  one_char-Answers (literal p) pat (c ∷ s) k = Answers-if (c == p) _ _ (h pat s k) tt

  dispatch-Answers :
      (head : Head) (pat s : Text) → length pat ≤ n → Answers (dispatch next head pat s)
  unfolding dispatch after_star
  dispatch-Answers star pat s k = Answers-if (is_empty (skip_stars pat)) _ _ tt (
      any_suffix-Answers (next (skip_stars pat)) s
        λ t. h (skip_stars pat) t (omega (arith, length-skip_stars pat)))
  dispatch-Answers any_char pat s k = one_char-Answers any_char pat s k
  dispatch-Answers open_bracket pat s k = one_char-Answers open_bracket pat s k
  dispatch-Answers escape pat s k = one_char-Answers escape pat s k
  dispatch-Answers (literal p) pat s k = one_char-Answers (literal p) pat s k

pub inner-Answers : (f : ℕ) (pat s : Text) → length pat + 1 ≤ f → Answers (fnmatch_inner f pat s)
unfolding fnmatch_inner
inner-Answers zero pat s h = absurd (omega arith)
inner-Answers (suc f) [] s h = tt
inner-Answers (suc f) (p ∷ pat) s h =
    dispatch-Answers (fnmatch_inner f) (length pat) (λ q t k. inner-Answers f q t (omega arith))
      (head_of p) pat s (omega arith)

answer : (o : Option Bool) → Answers o → (b : Bool) × (o ≡ some b)
answer none h = absurd h
answer (some b) h = (b, refl)

-- `fnmatch` answers on every pattern, also one with an open bracket or a last backslash, and on every text.
pub fnmatch-total : (pat s : Text) → (b : Bool) × (fnmatch pat s ≡ some b)
unfolding fnmatch
fnmatch-total pat s = answer _ (inner-Answers (suc (length pat)) pat s (omega arith))
