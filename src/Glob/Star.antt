-- ===== src/Glob/Star.antt =====
-- What `*` and quoting mean to `fnmatch_inner` of crates/epsh/src/glob.rs.
use ish.Prelude.{
  ℕ, zero, suc, ◌+◌, ◌≤◌, ◌≡◌, ◌↔◌, refl, sym, ◌∙◌, ap, Bool, true, false, Option, none, some, [],
  ◌∷◌, ◌++◌, length, arith, ◌==◌, append-nil, if◌then◌else◌, ◌>>=◌, Bool-cases, inl, inr,
}
use ish.Vars.{same}
use ish.Vars.Name.{same→≡, same_refl}
use ish.Glob.{Text, skip_stars, any_suffix, one_char, after_star, dispatch, fnmatch_inner, fnmatch}
use ish.Glob.Total.{Answers, inner-Answers}

-- The text has a rest, down to the empty one, that is found.
abbrev pub Splits : (Text → Option Bool) → Text → Type 0
Splits found s = (front : Text) × (rest : Text) × (s ≡ front ++ rest) × (found rest ≡ some true)

first_or_later :
    (found : Text → Option Bool) (c : ℕ) (s : Text) (o : Option Bool)
    → found (c ∷ s) ≡ o
    → (o >>= λ b. if b then some true else any_suffix found s) ≡ some true
    → (any_suffix found s ≡ some true → Splits found s)
    → Splits found (c ∷ s)
first_or_later found c s none e h later = cc
first_or_later found c s (some true) e h later = ([], c ∷ s, refl, e)
first_or_later found c s (some false) e h later =
    let (front, rest, parts, good) = later h in (c ∷ front, rest, ap (c ∷◌) parts, good)

found_or_later :
    (o x : Option Bool)
    → Answers o
    → x ≡ some true
    → (o >>= λ b. if b then some true else x) ≡ some true
found_or_later none x h e = absurd h
found_or_later (some true) x h e = refl
found_or_later (some false) x h e = e

-- The loop finds what it looks for exactly if some rest is found, when every answer is there.
any_suffix-Splits :
    (found : Text → Option Bool) (s : Text) → any_suffix found s ≡ some true → Splits found s
unfolding any_suffix
any_suffix-Splits found [] h = ([], [], refl, h)
any_suffix-Splits found (c ∷ s) h =
    first_or_later found c s (found (c ∷ s)) refl h (any_suffix-Splits found s)

Splits-any_suffix :
    (found : Text → Option Bool)
    → ((t : Text) → Answers (found t))
    → (front rest : Text) → found rest ≡ some true
    → any_suffix found (front ++ rest) ≡ some true
unfolding any_suffix
Splits-any_suffix found total [] [] h = h
Splits-any_suffix found total [] (c ∷ rest) h = rw h refl
Splits-any_suffix found total (c ∷ front) rest h =
    found_or_later (found (c ∷ (front ++ rest))) _ (total (c ∷ (front ++ rest)))
      (Splits-any_suffix found total front rest h)

-- The text with every character behind a backslash.
abbrev pub quote : Text → Text
quote [] = []
quote (c ∷ s) = b'\\' ∷ c ∷ quote s

star_by :
    (f : ℕ) (pat s : Text)
    → length pat ≤ f
    → (after_star (fnmatch_inner (suc f)) pat s ≡ some true) ↔ Splits (fnmatch_inner (suc f) pat) s
unfolding after_star fnmatch_inner
star_by f [] s h = (λ _. (s, [], sym (append-nil s), refl), λ _. refl)
star_by f (p ∷ pat) s h =
    let found = fnmatch_inner (suc f) (p ∷ pat) in
    (
      any_suffix-Splits found s,
      λ (front, rest, parts, good).
          ap (any_suffix found) parts
          ∙ Splits-any_suffix found (λ t. inner-Answers (suc f) (p ∷ pat) t (omega arith)) front
              rest good,
    )

-- `*` before a pattern that does not begin with `*` matches exactly the texts that have a rest, from the
-- whole text to the empty one, that the pattern matches.
pub fnmatch-star :
    (pat s : Text)
    → skip_stars pat ≡ pat
    → (fnmatch (b'*' ∷ pat) s ≡ some true) ↔ Splits (fnmatch pat) s
unfolding fnmatch fnmatch_inner dispatch
fnmatch-star pat s h = rw h (star_by (length pat) pat s (omega arith))

some_true : {a b : Bool} → some a ≡ some b → a ≡ b
some_true h = cc

quoted :
    (f : ℕ) (s t : Text) → length (quote s) + 1 ≤ f → fnmatch_inner f (quote s) t ≡ some (same t s)
unfolding fnmatch_inner dispatch one_char same
quoted zero s t h = absurd (omega arith)
quoted (suc f) [] [] h = refl
quoted (suc f) [] (c ∷ t) h = refl
quoted (suc f) (p ∷ s) [] h = refl
quoted (suc f) (p ∷ s) (c ∷ t) h = elim (Bool-cases (c == p)) [
  | inl e ↦ rw (e, quoted f s t (omega arith)) refl
  | inr e ↦ rw e refl
]

-- A pattern in which every character stands behind a backslash matches that text and no other.
pub fnmatch-quote : (s t : Text) → (fnmatch (quote s) t ≡ some true) ↔ (t ≡ s)
unfolding fnmatch
fnmatch-quote s t =
    let answer = quoted (suc (length (quote s))) s t (omega arith) in
    (
      λ h. same→≡ t s (some_true (sym answer ∙ h)),
      λ e. answer ∙ ap some (ap (λ x. same x s) e ∙ same_refl s),
    )
