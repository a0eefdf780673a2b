-- ===== src/History/Store/Order.antt =====
-- The order of the ids in a log of src/history/store.rs, and logs that are longer.
use ish.Prelude.{
  ℕ, ◌+◌, ◌≡◌, refl, sym, ap, ◌∙◌, Bool, true, false, ◌&&◌, List, [], ◌∷◌, ◌++◌, length,
  length-append, append_assoc, arith, Bool-cases, if_off, inl, inr,
}
use mathlib.Core.Path.{subst}
use ish.Int64.{signed_lt}
use ish.History.{Occurrence}
use ish.History.Log.Written.{Written, last_id_of, newer}

pub last_id_of-append :
    (last_id : ℕ) (os qs : List Occurrence)
    → last_id_of last_id (os ++ qs) ≡ last_id_of (last_id_of last_id os) qs
last_id_of-append last_id [] qs = refl
last_id_of-append last_id (o ∷ os) qs = last_id_of-append (o.id) os qs

Written-move :
    {m n : ℕ} (last_id : ℕ) (os : List Occurrence) {bs cs : List ℕ}
    → m ≡ n
    → bs ≡ cs
    → Written m last_id os bs
    → Written n last_id os cs
Written-move {n} last_id os {bs} h k w =
    subst (λ x. Written n last_id os x) k (subst (λ x. Written x last_id os bs) h w)

pub Written-append :
    (offset last_id : ℕ) (os qs : List Occurrence) (bs cs : List ℕ)
    → Written offset last_id os bs
    → Written (offset + length bs) (last_id_of last_id os) qs cs
    → Written offset last_id (os ++ qs) (bs ++ cs)
Written-append offset last_id [] qs bs cs h k =
    Written-move last_id qs (omega (arith, ap length h)) (ap (λ x. x ++ cs) (sym h)) k
Written-append offset last_id (o ∷ os) qs bs cs (frame, rest, e, fine, less, fits, parts, h) k = (
  frame,
  rest ++ cs,
  e,
  fine,
  less,
  fits,
  ap (λ x. x ++ cs) parts ∙ append_assoc frame rest cs,
  Written-append (offset + length frame) (o.id) os qs rest cs h (
      Written-move (last_id_of (o.id) os) qs
        (omega (arith, ap length parts, length-append frame rest)) refl k),
)

signed_trans : (a b c : ℕ) → signed_lt a b ≡ true → signed_lt c b ≡ false → signed_lt c a ≡ false
unfolding signed_lt
signed_trans a b c h k = ground arith

-- The ids only grow.
last_id-grows :
    (offset last_id : ℕ) (os : List Occurrence) (bs : List ℕ)
    → Written offset last_id os bs
    → (cutoff : ℕ) → signed_lt cutoff (last_id_of last_id os) ≡ false
    → signed_lt cutoff last_id ≡ false
last_id-grows offset last_id [] bs h cutoff e = e
last_id-grows offset last_id (o ∷ os) bs (frame, rest, _, _, less, _, _, h) cutoff e =
    signed_trans last_id (o.id) cutoff less
      (last_id-grows (offset + length frame) (o.id) os rest h cutoff e)

pub newer-old :
    (offset last_id : ℕ) (os : List Occurrence) (bs : List ℕ)
    → Written offset last_id os bs
    → (cutoff : ℕ) → signed_lt cutoff (last_id_of last_id os) ≡ false
    → newer cutoff os ≡ []
newer-old offset last_id [] bs h cutoff e = refl
newer-old offset last_id (o ∷ os) bs (frame, rest, _, _, less, _, _, h) cutoff e =
    if_off (signed_lt cutoff (o.id)) _ _
      (last_id-grows (offset + length frame) (o.id) os rest h cutoff e)
    ∙ newer-old (offset + length frame) (o.id) os rest h cutoff e

pub newer-append :
    (cutoff : ℕ) (os qs : List Occurrence)
    → newer cutoff (os ++ qs) ≡ newer cutoff os ++ newer cutoff qs
newer-append cutoff [] qs = refl
newer-append cutoff (o ∷ os) qs = elim (Bool-cases (signed_lt cutoff (o.id))) [
  | inl e ↦ rw e (ap (o ∷◌) (newer-append cutoff os qs))
  | inr e ↦ rw e (newer-append cutoff os qs)
]

pub all_but_last : (a b c d : Bool) → a ≡ true → b ≡ true → c ≡ true → (a && b && c && d) ≡ d
all_but_last a b c d h k l = ground arith
