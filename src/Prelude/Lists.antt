-- ===== src/Prelude/Lists.antt =====
-- Lists measured and indexed by native numbers, under the library's names.
use Prim.Native.Nat.{ℕ, zero, suc, ◌+◌, ◌-◌, ◌≤◌, ◌<◌, min}
use mathlib.Core.Path.{◌≡◌, refl, ap, sym, ◌∙◌}
use mathlib.Core.Bool.{Bool}
use ish.Prelude.Tests.{if◌then◌else◌}
use mathlib.Core.Logic.{◌≢◌, ◌↔◌, ◌⊎◌, inl, inr}
use mathlib.Core.List.{List, [], ◌∷◌, ◌++◌, map, append_assoc, append-nil}
use mathlib.Core.Option
use mathlib.Core.Option.{Option, none, some}
use native.Mathlib.Nat.{zero-add, suc-add}
use native.Mathlib.Omega.{arith}

module _ {ℓ} {A : Type ℓ} where
  abbrev pub length : List A → ℕ
  length [] = 0
  length (x ∷ xs) = suc (length xs)

  abbrev pub get_elem? : List A → ℕ → Option A
  get_elem? [] i = none
  get_elem? (x ∷ xs) zero = some x
  get_elem? (x ∷ xs) (suc i) = get_elem? xs i

  -- A write out of bounds changes nothing.
  abbrev pub set : List A → ℕ → A → List A
  set [] i v = []
  set (x ∷ xs) zero v = v ∷ xs
  set (x ∷ xs) (suc i) v = x ∷ set xs i v

  pub length-append : (xs ys : List A) → length (xs ++ ys) ≡ length xs + length ys
  length-append [] ys = omega arith
  length-append (x ∷ xs) ys = omega (arith, length-append xs ys)

module _ {ℓ} {A : Type ℓ} where
  pub length-set : (xs : List A) (i : ℕ) (v : A) → length (set xs i v) ≡ length xs
  length-set [] i v = refl
  length-set (x ∷ xs) zero v = refl
  length-set (x ∷ xs) (suc i) v = ap suc (length-set xs i v)

  pub get_elem?-set_self :
      (xs : List A) (i : ℕ) (v : A) → i < length xs → get_elem? (set xs i v) i ≡ some v
  get_elem?-set_self [] i v h = elim h [ ]
  get_elem?-set_self (x ∷ xs) zero v h = refl
  get_elem?-set_self (x ∷ xs) (suc i) v h = get_elem?-set_self xs i v (omega arith)

  pub get_elem?-set_ne :
      (xs : List A) {i j : ℕ} (v : A) → i ≢ j → get_elem? (set xs i v) j ≡ get_elem? xs j
  get_elem?-set_ne [] v h = refl
  get_elem?-set_ne (x ∷ xs) {i = zero} {j = zero} v h = absurd (h refl)
  get_elem?-set_ne (x ∷ xs) {i = zero} {j = suc j} v h = refl
  get_elem?-set_ne (x ∷ xs) {i = suc i} {j = zero} v h = refl
  get_elem?-set_ne (x ∷ xs) {i = suc i} {j = suc j} v h = get_elem?-set_ne xs v (λ e. h (ap suc e))

module _ {ℓ} {A : Type ℓ} where
  abbrev pub get_or : List A → ℕ → A → A
  get_or [] i d = d
  get_or (x ∷ xs) zero d = x
  get_or (x ∷ xs) (suc i) d = get_or xs i d

  abbrev pub take : ℕ → List A → List A
  take zero xs = []
  take (suc n) [] = []
  take (suc n) (x ∷ xs) = x ∷ take n xs

  abbrev pub drop : ℕ → List A → List A
  drop zero xs = xs
  drop (suc n) [] = []
  drop (suc n) (x ∷ xs) = drop n xs

  abbrev pub replicate : ℕ → A → List A
  replicate zero a = []
  replicate (suc n) a = a ∷ replicate n a

  pub take-append-drop : (n : ℕ) (xs : List A) → take n xs ++ drop n xs ≡ xs
  take-append-drop zero xs = refl
  take-append-drop (suc n) [] = refl
  take-append-drop (suc n) (x ∷ xs) = rw (take-append-drop n xs)

  pub length-take : (n : ℕ) (xs : List A) → length (take n xs) ≡ min n (length xs)
  length-take zero xs = omega arith
  length-take (suc n) [] = omega arith
  length-take (suc n) (x ∷ xs) = omega (arith, length-take n xs)

  pub length-drop : (n : ℕ) (xs : List A) → length (drop n xs) ≡ length xs - n
  length-drop zero xs = omega arith
  length-drop (suc n) [] = omega arith
  length-drop (suc n) (x ∷ xs) = omega (arith, length-drop n xs)

  pub length-replicate : (n : ℕ) (a : A) → length (replicate n a) ≡ n
  length-replicate zero a = refl
  length-replicate (suc n) a = ap suc (length-replicate n a)

  pub length-map {κ} : {B : Type κ} (xs : List A) (f : A → B) → length (map f xs) ≡ length xs
  length-map [] f = refl
  length-map (x ∷ xs) f = ap suc (length-map xs f)

module _ {ℓ} {A : Type ℓ} where
  -- A change of the element at an index; out of bounds nothing changes.
  abbrev pub modify : List A → ℕ → (A → A) → List A
  modify [] i g = []
  modify (x ∷ xs) zero g = g x ∷ xs
  modify (x ∷ xs) (suc i) g = x ∷ modify xs i g

  pub length-modify : (xs : List A) (i : ℕ) (g : A → A) → length (modify xs i g) ≡ length xs
  length-modify [] i g = refl
  length-modify (x ∷ xs) zero g = refl
  length-modify (x ∷ xs) (suc i) g = ap suc (length-modify xs i g)

  pub get_elem?-modify_self :
      (xs : List A) (i : ℕ) (g : A → A) {x : A}
      → get_elem? xs i ≡ some x
      → get_elem? (modify xs i g) i ≡ some (g x)
  get_elem?-modify_self [] i g h = cc
  get_elem?-modify_self (y ∷ xs) zero g h = cc
  get_elem?-modify_self (y ∷ xs) (suc i) g h = get_elem?-modify_self xs i g h

  pub get_elem?-modify_ne :
      (xs : List A) (i j : ℕ) (g : A → A) → i ≢ j → get_elem? (modify xs i g) j ≡ get_elem? xs j
  get_elem?-modify_ne [] i j g h = refl
  get_elem?-modify_ne (x ∷ xs) zero zero g h = absurd (h refl)
  get_elem?-modify_ne (x ∷ xs) zero (suc j) g h = refl
  get_elem?-modify_ne (x ∷ xs) (suc i) zero g h = refl
  get_elem?-modify_ne (x ∷ xs) (suc i) (suc j) g h =
      get_elem?-modify_ne xs i j g (λ e. h (ap suc e))

  pub get_elem?-append_left :
      (xs ys : List A) (i : ℕ) → i < length xs → get_elem? (xs ++ ys) i ≡ get_elem? xs i
  get_elem?-append_left [] ys i h = elim h [ ]
  get_elem?-append_left (x ∷ xs) ys zero h = refl
  get_elem?-append_left (x ∷ xs) ys (suc i) h = get_elem?-append_left xs ys i (omega arith)

  pub get_elem?-append_right :
      (xs ys : List A) (i : ℕ) → get_elem? (xs ++ ys) (length xs + i) ≡ get_elem? ys i
  get_elem?-append_right [] ys i = rw zero-add
  get_elem?-append_right (x ∷ xs) ys i = rw suc-add (get_elem?-append_right xs ys i)

  pub lt-length_of_get_elem? :
      (xs : List A) (i : ℕ) {x : A} → get_elem? xs i ≡ some x → i < length xs
  lt-length_of_get_elem? [] i h = cc
  lt-length_of_get_elem? (y ∷ xs) zero h = omega arith
  lt-length_of_get_elem? (y ∷ xs) (suc i) h = omega (arith, lt-length_of_get_elem? xs i h)

module _ {ℓ} {A : Type ℓ} where
  pub modify_inv :
      (xs : List A) (k i : ℕ) (g : A → A) {y : A}
      → get_elem? (modify xs k g) i ≡ some y
      → ((k ≢ i) × (get_elem? xs i ≡ some y))
        ⊎ ((x : A) × (k ≡ i) × (get_elem? xs i ≡ some x) × (y ≡ g x))
  modify_inv [] k i g h = cc
  modify_inv (x ∷ xs) zero zero g h = inr (x, refl, refl, cc)
  modify_inv (x ∷ xs) zero (suc i) g h = inl (λ e. cc, h)
  modify_inv (x ∷ xs) (suc k) zero g h = inl (λ e. cc, h)
  modify_inv (x ∷ xs) (suc k) (suc i) g h = elim (modify_inv xs k i g h) [
    | inl (ne, e) ↦ inl (λ p. ne (cc), e)
    | inr (y, p, q, e) ↦ inr (y, ap suc p, q, e)
  ]

  pub snoc_inv :
      (xs : List A) (y : A) (i : ℕ) {z : A}
      → get_elem? (xs ++ y ∷ []) i ≡ some z
      → (get_elem? xs i ≡ some z) ⊎ ((i ≡ length xs) × (z ≡ y))
  snoc_inv [] y zero h = inr (refl, cc)
  snoc_inv [] y (suc i) h = cc
  snoc_inv (x ∷ xs) y zero h = inl h
  snoc_inv (x ∷ xs) y (suc i) h = elim (snoc_inv xs y i h) [
    | inl e ↦ inl e
    | inr (p, q) ↦ inr (ap suc p, q)
  ]

module _ {ℓ κ} {A : Type ℓ} {B : Type κ} where
  -- A change that keeps a view of the elements keeps the view of the list.
  pub map-get_elem?-modify :
      (f : A → B) (xs : List A) (k i : ℕ) (g : A → A)
      → ((x : A) → f (g x) ≡ f x)
      → Option.map f (get_elem? (modify xs k g) i) ≡ Option.map f (get_elem? xs i)
  map-get_elem?-modify f [] k i g h = refl
  map-get_elem?-modify f (x ∷ xs) zero zero g h = ap some (h x)
  map-get_elem?-modify f (x ∷ xs) zero (suc i) g h = refl
  map-get_elem?-modify f (x ∷ xs) (suc k) zero g h = refl
  map-get_elem?-modify f (x ∷ xs) (suc k) (suc i) g h = map-get_elem?-modify f xs k i g h

module _ {ℓ} {A : Type ℓ} where
  pub drop-append : (xs ys : List A) → drop (length xs) (xs ++ ys) ≡ ys
  drop-append [] ys = refl
  drop-append (x ∷ xs) ys = drop-append xs ys

  pub take-length : (xs : List A) → take (length xs) xs ≡ xs
  take-length [] = refl
  take-length (x ∷ xs) = rw (take-length xs)

  pub take-append_left : (n : ℕ) (xs ys : List A) → n ≤ length xs → take n (xs ++ ys) ≡ take n xs
  take-append_left zero xs ys h = refl
  take-append_left (suc n) [] ys h = elim h [ ]
  take-append_left (suc n) (x ∷ xs) ys h = rw (take-append_left n xs ys (omega arith))

  pub drop-append_left :
      (n : ℕ) (xs ys : List A) → n ≤ length xs → drop n (xs ++ ys) ≡ drop n xs ++ ys
  drop-append_left zero xs ys h = refl
  drop-append_left (suc n) [] ys h = elim h [ ]
  drop-append_left (suc n) (x ∷ xs) ys h = drop-append_left n xs ys (omega arith)

  pub get_elem?-length :
      (xs : List A) {y : A} (ys : List A) → get_elem? (xs ++ y ∷ ys) (length xs) ≡ some y
  get_elem?-length [] ys = refl
  get_elem?-length (x ∷ xs) ys = get_elem?-length xs ys

  -- An index at or past the length reads nothing.
  pub get_elem?-none_iff : (xs : List A) (i : ℕ) → (get_elem? xs i ≡ none) ↔ (length xs ≤ i)
  get_elem?-none_iff [] i = (λ _. omega arith, λ _. refl)
  get_elem?-none_iff (x ∷ xs) zero = (λ e. cc, λ h. elim h [ ])
  get_elem?-none_iff (x ∷ xs) (suc i) = (
    λ e. omega (arith, (get_elem?-none_iff xs i).0 e),
    λ h. (get_elem?-none_iff xs i).1 (omega arith),
  )

module _ {ℓ} {A : Type ℓ} where
  pub get_elem?-modify_absent :
      (xs : List A) (k i : ℕ) (g : A → A)
      → get_elem? xs i ≡ none
      → get_elem? (modify xs k g) i ≡ none
  get_elem?-modify_absent xs k i g h =
      (get_elem?-none_iff (modify xs k g) i).1
        (omega (arith, (get_elem?-none_iff xs i).0 h, length-modify xs k g))

  -- What a change leaves at an index: the element, or the changed one.
  pub get_elem?-modify_there :
      (xs : List A) (k i : ℕ) (g : A → A) {x : A}
      → get_elem? xs i ≡ some x
      → (y : A) × (get_elem? (modify xs k g) i ≡ some y) × ((y ≡ x) ⊎ (y ≡ g x))
  get_elem?-modify_there [] k i g h = cc
  get_elem?-modify_there (z ∷ xs) zero zero g {x} h = (g z, refl, inr (ap g (cc)))
  get_elem?-modify_there (z ∷ xs) zero (suc i) g {x} h = (x, h, inl refl)
  get_elem?-modify_there (z ∷ xs) (suc k) zero g {x} h = (x, h, inl refl)
  get_elem?-modify_there (z ∷ xs) (suc k) (suc i) g h = get_elem?-modify_there xs k i g h

pub List-cases {ℓ} :
    {A : Type ℓ} (xs : List A) → (xs ≡ []) ⊎ ((x : A) × (r : List A) × (xs ≡ x ∷ r))
List-cases [] = inl refl
List-cases (x ∷ r) = inr (x, r, refl)

module _ {ℓ κ} {A : Type ℓ} where
  abbrev pub All : (A → Type κ) → List A → Type κ
  All P [] = Unit
  All P (x ∷ xs) = P x × All P xs

  pub All-append : (P : A → Type κ) (xs ys : List A) → All P xs → All P ys → All P (xs ++ ys)
  All-append P [] ys h k = k
  All-append P (x ∷ xs) ys h k = (h.0, All-append P xs ys (h.1) k)

module _ {ℓ} {A : Type ℓ} where
  abbrev pub concat : List (List A) → List A
  concat [] = []
  concat (x ∷ xs) = x ++ concat xs

  pub concat-append : (xs ys : List (List A)) → concat (xs ++ ys) ≡ concat xs ++ concat ys
  concat-append [] ys = refl
  concat-append (x ∷ xs) ys =
      rw (concat-append xs ys) (sym (append_assoc x (concat xs) (concat ys)))

  abbrev pub filter : (A → Bool) → List A → List A
  filter p [] = []
  filter p (x ∷ xs) = let rest = filter p xs in if p x then x ∷ rest else rest

  drop_nil : (n : ℕ) → ◌≡◌ {A = List A} [] (drop n [])
  drop_nil zero = refl
  drop_nil (suc n) = refl

  pub drop-add : (m n : ℕ) (xs : List A) → drop (m + n) xs ≡ drop n (drop m xs)
  drop-add zero n xs = rw zero-add refl
  drop-add (suc m) n [] = rw suc-add (drop_nil n)
  drop-add (suc m) n (x ∷ xs) = rw suc-add (drop-add m n xs)

  pub replicate-add : (m n : ℕ) (a : A) → replicate (m + n) a ≡ replicate m a ++ replicate n a
  replicate-add zero n a = rw zero-add refl
  replicate-add (suc m) n a = rw suc-add (ap (a ∷◌) (replicate-add m n a))

  pub take-append_right :
      (xs ys : List A) (m : ℕ) → take (length xs + m) (xs ++ ys) ≡ xs ++ take m ys
  take-append_right [] ys m = ap (λ k. take k ys) (zero-add m)
  take-append_right (x ∷ xs) ys m =
      ap (λ k. take k (x ∷ (xs ++ ys))) (suc-add (length xs) m)
      ∙ ap (x ∷◌) (take-append_right xs ys m)

  pub drop_past : (xs : List A) (k : ℕ) → drop (length xs + k) xs ≡ []
  drop_past [] k = sym (drop_nil (0 + k))
  drop_past (x ∷ xs) k = ap (λ n. drop n (x ∷ xs)) (suc-add (length xs) k) ∙ drop_past xs k

  -- What is written at the end.
  pub take-append-past :
      (n k : ℕ) (xs ys : List A) → n ≡ length xs → take n xs ++ (ys ++ drop (n + k) xs) ≡ xs ++ ys
  take-append-past n k xs ys h =
      rw (h, take-length xs, drop_past xs k) (ap (λ zs. xs ++ zs) (append-nil ys))
