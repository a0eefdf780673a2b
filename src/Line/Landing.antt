-- ===== src/Line/Landing.antt =====
-- What the vertical motions of src/line.rs share: newlines at their offsets, and where a motion ends.
use ish.Prelude.{
  ℕ, ◌+◌, ◌≡◌, refl, Bool, true, Option, some, [], ◌∷◌, ◌++◌, arith, ◌==◌, append_assoc, ◌∙◌, sym,
  ap, Bool-cases, Option-cases, inl, inr, ==_iff,
}
use ish.Utf8.{Str, len_utf8, len, find, rfind}
use ish.Utf8.Boundary.{len-append, len-cons}
use ish.Line.{LineBuffer}
use ish.Line.Grid.{line_start}
use ish.Line.Valid.{Boundary}

-- The motion gives an answer, and moves at most the cursor, to a boundary.
pub record Lands (lb : LineBuffer) (answer : Option (LineBuffer × Bool)) : Type 0 where
  pub cursor : ℕ
  pub moved : Bool
  pub is_answer : answer ≡ some (record lb { cursor = cursor }, moved)
  pub on_boundary : Boundary lb.buf cursor

abbrev pub newline : ℕ
newline = 10

pub len-newline : len (newline ∷ []) ≡ 1
unfolding len len_utf8
len-newline = refl

pub newline-len : len_utf8 newline ≡ 1
unfolding len_utf8
newline-len = refl

-- A newline that `rfind` or `find` reports stands at the reported offset.
pub record Found (s : Str) (i : ℕ) : Type 0 where
  pub before : Str
  pub after : Str
  pub parts : s ≡ before ++ newline ∷ after
  pub offset : i ≡ len before

Found-cons : (c : ℕ) (s : Str) (i : ℕ) → Found s i → Found (c ∷ s) (len_utf8 c + i)
Found-cons c s i f = record {
  before = c ∷ f.before;
  after = f.after;
  parts = ap (c ∷◌) f.parts;
  offset = ap (len_utf8 c +◌) f.offset ∙ sym (len-cons c f.before);
}

Found-here : (c : ℕ) (s : Str) → (c == newline) ≡ true → Found (c ∷ s) 0
unfolding len
Found-here c s h = record {
  before = [];
  after = s;
  parts = ap (λ d. d ∷ s) ((==_iff c newline).0 h);
  offset = refl;
}

Found-eq : {s : Str} {i j : ℕ} → i ≡ j → Found s i → Found s j
Found-eq e f = record {
  before = f.before;
  after = f.after;
  parts = f.parts;
  offset = sym e ∙ f.offset;
}

pub rfind-Found : (s : Str) (i : ℕ) → rfind newline s ≡ some i → Found s i
unfolding rfind
rfind-Found [] i h = cc
rfind-Found (c ∷ s) i h = elim (Option-cases (rfind newline s)) [
  | inl n ↦ elim (Bool-cases (c == newline)) [
    | inl here ↦ Found-eq (ground arith) (Found-here c s here)
    | inr other ↦ absurd (ground arith)
  ]
  | inr (j, e) ↦ Found-eq (ground arith) (Found-cons c s j (rfind-Found s j e))
]

pub find-Found : (s : Str) (i : ℕ) → find newline s ≡ some i → Found s i
unfolding find
find-Found [] i h = cc
find-Found (c ∷ s) i h = elim (Bool-cases (c == newline)) [
  | inl here ↦ Found-eq (ground arith) (Found-here c s here)
  | inr other ↦ elim (Option-cases (find newline s)) [
    | inl n ↦ absurd (ground arith)
    | inr (j, e) ↦ Found-eq (ground arith) (Found-cons c s j (find-Found s j e))
  ]
]

pub line_start-Boundary : (s : Str) → Boundary s (line_start (rfind newline s))
unfolding len
line_start-Boundary s = elim (Option-cases (rfind newline s)) [
  | inl e ↦ rw e (record { before = []; after = s; parts = refl; offset = refl })
  | inr (j, e) ↦
      let f = rfind-Found s j e in
      rw e (record {
        before = f.before ++ newline ∷ [];
        after = f.after;
        parts = f.parts ∙ sym (append_assoc f.before (newline ∷ []) f.after);
        offset = omega (arith, f.offset, len-append f.before (newline ∷ []), len-newline);
      })
]
