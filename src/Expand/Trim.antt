-- ===== src/Expand/Trim.antt =====
-- What `trim_suffix` and `trim_prefix` of crates/epsh/src/expand.rs remove.
use ish.Prelude.{
  ℕ, zero, suc, ◌+◌, ◌≤◌, ◌<◌, ◌≡◌, refl, sym, ap, ◌∙◌, Bool, true, false, Option, none, some, List,
  [], ◌∷◌, ◌++◌, length, take, drop, take-append-drop, concat, concat-append, reverse,
  reverse-append, arith, ◌==◌, if◌then◌else◌, ◌>>=◌, Bool-cases, inl, inr,
}
use ish.Glob.{Text}
use ish.Glob.Encoding.{shell_chars, fnmatch_shell, shell_codepoints, escape_mark}
use ish.Glob.Total.{fnmatch-total}
use ish.Expand.{indices, first_index, trim_suffix, trim_prefix}

-- The units of a text, joined, are the text.
pub concat-shell_chars : (s : Text) → concat (shell_chars s) ≡ s
unfolding shell_chars
concat-shell_chars [] = refl
concat-shell_chars (c ∷ []) = refl
concat-shell_chars (c ∷ d ∷ s) = elim (Bool-cases (c == escape_mark)) [
  | inl e ↦ rw e (ap (λ x. c ∷ d ∷ x) (concat-shell_chars s))
  | inr e ↦ rw e (ap (c ∷◌) (concat-shell_chars (d ∷ s)))
]

fnmatch_shell-total : (p s : Text) → (b : Bool) × (fnmatch_shell p s ≡ some b)
unfolding fnmatch_shell
fnmatch_shell-total p s = fnmatch-total (shell_codepoints p) (shell_codepoints s)

module _ (test : ℕ → Option Bool) where
  abbrev pub Fails : ℕ → ℕ → Type 0
  Fails lo hi = (j : ℕ) → lo ≤ j → j < hi → test j ≡ some false

  -- The least index of a range that passes, or none does.
  abbrev pub Least : ℕ → ℕ → Option ℕ → Type 0
  Least lo hi none = Fails lo hi
  Least lo hi (some i) = (lo ≤ i) × (i < hi) × (test i ≡ some true) × Fails lo i

  -- The greatest one.
  abbrev pub Greatest : ℕ → ℕ → Option ℕ → Type 0
  Greatest lo hi none = Fails lo hi
  Greatest lo hi (some i) = (lo ≤ i) × (i < hi) × (test i ≡ some true) × Fails (suc i) hi

  Fails-first : (lo hi : ℕ) → test lo ≡ some false → Fails (suc lo) hi → Fails lo hi
  Fails-first lo hi e h j a b = elim (Bool-cases (j == lo)) [
    | inl same ↦ ap test (ground arith) ∙ e
    | inr other ↦ h j (ground arith) b
  ]

  Fails-last : (lo hi top : ℕ) → top ≡ suc hi → test hi ≡ some false → Fails lo hi → Fails lo top
  Fails-last lo hi top k e h j a b = elim (Bool-cases (j == hi)) [
    | inl same ↦ ap test (ground arith) ∙ e
    | inr other ↦ h j a (ground arith)
  ]

  Least-later :
      (lo hi : ℕ) (o : Option ℕ) → test lo ≡ some false → Least (suc lo) hi o → Least lo hi o
  Least-later lo hi none e h = Fails-first lo hi e h
  Least-later lo hi (some i) e (a, b, good, all) = (omega arith, b, good, Fails-first lo i e all)

  Greatest-earlier :
      (lo hi top : ℕ) (o : Option ℕ)
      → top ≡ suc hi
      → test hi ≡ some false
      → Greatest lo hi o
      → Greatest lo top o
  Greatest-earlier lo hi top none k e h = Fails-last lo hi top k e h
  Greatest-earlier lo hi top (some i) k e (a, b, good, all) =
      (a, omega arith, good, Fails-last (suc i) hi top k e all)

  -- The loop over the indices, on the answer to the first.
  abbrev Loops : List ℕ → (Option ℕ → Type 0) → Type 0
  Loops is P = (o : Option ℕ) × (first_index test is ≡ some o) × P o

  Loops-round :
      (i : ℕ) (is : List ℕ) (P R : Option ℕ → Type 0) (b : Bool)
      → test i ≡ some b
      → Loops is P
      → (b ≡ true → R (some i))
      → ((o : Option ℕ) → b ≡ false → P o → R o)
      → Loops (i ∷ is) R
  unfolding first_index
  Loops-round i is P R true e (o, found, h) here later = (some i, rw e refl, here refl)
  Loops-round i is P R false e (o, found, h) here later = (o, rw (e, found) refl, later o refl h)

  indices-last : (lo n : ℕ) → indices lo (suc n) ≡ indices lo n ++ (lo + n) ∷ []
  unfolding indices
  indices-last lo zero = ap (λ x. x ∷ []) (omega arith)
  indices-last lo (suc n) =
      ap (lo ∷◌) (indices-last (suc lo) n ∙ ap (λ x. indices (suc lo) n ++ x ∷ []) (omega arith))

  reverse-indices : (lo n : ℕ) → reverse (indices lo (suc n)) ≡ (lo + n) ∷ reverse (indices lo n)
  reverse-indices lo n =
      ap reverse (indices-last lo n) ∙ reverse-append (indices lo n) ((lo + n) ∷ [])

  module _ (total : (i : ℕ) → (b : Bool) × (test i ≡ some b)) where
    first_index-up : (lo n hi : ℕ) → hi ≡ lo + n → Loops (indices lo n) (Least lo hi)
    unfolding indices first_index
    first_index-up lo zero hi k = (none, refl, λ j a b. absurd (omega arith))
    first_index-up lo (suc n) hi k =
        let (b, e) = total lo in
        Loops-round lo (indices (suc lo) n) (Least (suc lo) hi) (Least lo hi) b e
          (first_index-up (suc lo) n hi (omega arith))
          (λ d. (omega arith, omega arith, e ∙ ap some d, λ j x y. absurd (omega arith)))
          λ o d h. Least-later lo hi o (e ∙ ap some d) h

    first_index-down : (lo n hi : ℕ) → hi ≡ lo + n → Loops (reverse (indices lo n)) (Greatest lo hi)
    unfolding indices first_index
    first_index-down lo zero hi k = (none, refl, λ j a b. absurd (omega arith))
    first_index-down lo (suc n) hi k =
        let (b, e) = total (lo + n) in
        rw (reverse-indices lo n) (
          Loops-round (lo + n) (reverse (indices lo n)) (Greatest lo (lo + n)) (Greatest lo hi) b e
            (first_index-down lo n (lo + n) refl)
            (λ d. (omega arith, omega arith, e ∙ ap some d, λ j x y. absurd (omega arith)))
            λ o d h. Greatest-earlier lo (lo + n) hi o (omega arith) (e ∙ ap some d) h)

-- The pattern matches the units from the index on, joined.
abbrev pub behind_matches : Text → List Text → ℕ → Option Bool
behind_matches pattern chars i = fnmatch_shell pattern (concat (drop i chars))

abbrev pub front_matches : Text → List Text → ℕ → Option Bool
front_matches pattern chars i = fnmatch_shell pattern (concat (take i chars))

-- The value less what stands from an index of its units on, or before it.
abbrev pub KeepsFront : Text → Option ℕ → Text → Type 0
KeepsFront value none result = result ≡ value
KeepsFront value (some i) result =
    (result ≡ concat (take i (shell_chars value)))
    × (result ++ concat (drop i (shell_chars value)) ≡ value)

abbrev pub KeepsBehind : Text → Option ℕ → Text → Type 0
KeepsBehind value none result = result ≡ value
KeepsBehind value (some i) result =
    (result ≡ concat (drop i (shell_chars value)))
    × (concat (take i (shell_chars value)) ++ result ≡ value)

module _ (test : ℕ → Option Bool) (total : (i : ℕ) → (b : Bool) × (test i ≡ some b)) where
  by_order :
      (lo n hi : ℕ) (up : Bool)
      → hi ≡ lo + n
      → Loops test
          (if up then indices lo n else reverse (indices lo n))
          (if up then Least test lo hi else Greatest test lo hi)
  by_order lo n hi true k = first_index-up test total lo n hi k
  by_order lo n hi false k = first_index-down test total lo n hi k

  by_order_down :
      (lo n hi : ℕ) (down : Bool)
      → hi ≡ lo + n
      → Loops test
          (if down then reverse (indices lo n) else indices lo n)
          (if down then Greatest test lo hi else Least test lo hi)
  by_order_down lo n hi true k = first_index-down test total lo n hi k
  by_order_down lo n hi false k = first_index-up test total lo n hi k

parts_of :
    (value : Text) (i : ℕ)
    → concat (take i (shell_chars value)) ++ concat (drop i (shell_chars value)) ≡ value
parts_of value i =
    sym (concat-append (take i (shell_chars value)) (drop i (shell_chars value)))
    ∙ ap concat (take-append-drop i (shell_chars value))
    ∙ concat-shell_chars value

front_kept :
    (value : Text) (found : Option (Option ℕ)) (o : Option ℕ)
    → found ≡ some o
    → (result : Text) × ((found >>= λ at_index. elim at_index [
      | none ↦ some value
      | some i ↦ some (concat (take i (shell_chars value)))
    ])
        ≡ some result)
      × KeepsFront value o result
front_kept value found none e = (value, rw e refl, refl)
front_kept value found (some i) e = (_, rw e refl, (refl, parts_of value i))

behind_kept :
    (value : Text) (found : Option (Option ℕ)) (o : Option ℕ)
    → found ≡ some o
    → (result : Text) × ((found >>= λ at_index. elim at_index [
      | none ↦ some value
      | some i ↦ some (concat (drop i (shell_chars value)))
    ])
        ≡ some result)
      × KeepsBehind value o result
behind_kept value found none e = (value, rw e refl, refl)
behind_kept value found (some i) e = (_, rw e refl, (refl, parts_of value i))

-- `trim_suffix` answers on every value and pattern. Greedy, it keeps what stands before the least index of
-- the units whose rest matches, else before the greatest such index, and the result with that rest is the
-- value; where no rest but perhaps the empty one matches, the result is the value.
pub trim_suffix-KeepsFront :
    (value pattern : Text) (greedy : Bool)
    → (o : Option ℕ) × (if greedy
          then Least (behind_matches pattern (shell_chars value)) 0 (length (shell_chars value))
          else Greatest (behind_matches pattern (shell_chars value)) 0 (length (shell_chars value)))
        o
      × (result : Text) × (trim_suffix value pattern greedy ≡ some result)
      × KeepsFront value o result
unfolding trim_suffix
trim_suffix-KeepsFront value pattern greedy =
    let n = length (shell_chars value) in
    let (o, found, chosen) =
      by_order (behind_matches pattern (shell_chars value)) (λ i. fnmatch_shell-total pattern _) 0 n
        n greedy (omega arith) in
    let (result, answer, keeps) = front_kept value _ o found in (o, chosen, result, answer, keeps)

-- `trim_prefix` answers on every value and pattern. Greedy, it keeps what stands behind the greatest number
-- of units, at least one, that match, else behind the least such number, and those units with the result
-- are the value; where none matches, the result is the value.
pub trim_prefix-KeepsBehind :
    (value pattern : Text) (greedy : Bool)
    → (o : Option ℕ) × (if greedy
          then Greatest
              (front_matches pattern (shell_chars value))
              1
              (1 + length (shell_chars value))
          else Least (front_matches pattern (shell_chars value)) 1 (1 + length (shell_chars value)))
        o
      × (result : Text) × (trim_prefix value pattern greedy ≡ some result)
      × KeepsBehind value o result
unfolding trim_prefix
trim_prefix-KeepsBehind value pattern greedy =
    let n = length (shell_chars value) in
    let (o, found, chosen) =
      by_order_down (front_matches pattern (shell_chars value)) (λ i. fnmatch_shell-total pattern _)
        1 n (1 + n) greedy refl in
    let (result, answer, keeps) = behind_kept value _ o found in (o, chosen, result, answer, keeps)
