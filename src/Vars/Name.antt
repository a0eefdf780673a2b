-- ===== src/Vars/Name.antt =====
-- The comparison of names in the map of crates/epsh/src/var.rs.
use ish.Prelude.{
  ◌≡◌, refl, ap, ap₂, Bool, true, [], ◌∷◌, ◌&&◌, ◌==◌, arith, Bool-cases, inl, inr, if◌then◌else◌,
}
use ish.Utf8.{Str}
use ish.Vars.{same}

both_true : (a b : Bool) → (a && b) ≡ true → (a ≡ true) × (b ≡ true)
both_true a b h = ground arith

pub same→≡ : (a b : Str) → same a b ≡ true → a ≡ b
unfolding same
same→≡ [] [] h = refl
same→≡ [] (y ∷ b) h = absurd (ground arith)
same→≡ (x ∷ a) [] h = absurd (ground arith)
same→≡ (x ∷ a) (y ∷ b) h =
    let (first, rest) = both_true (x == y) (same a b) h in
    ap₂ (λ u v. u ∷ v) (ground arith) (same→≡ a b rest)

pub same_refl : (a : Str) → same a a ≡ true
unfolding same
same_refl [] = refl
same_refl (x ∷ a) = ground (arith, same_refl a)

-- A value at a name, where the names are the same.
pub if_same :
    {A B : Type 0} (f : Str → A) (g : A → B) (n name : Str) (b : B)
    → (if same n name then g (f n) else b) ≡ (if same n name then g (f name) else b)
if_same f g n name b = elim (Bool-cases (same n name)) [
  | inl equal ↦ ap (λ x. if same n name then g (f x) else b) (same→≡ n name equal)
  | inr apart ↦ rw apart refl
]
