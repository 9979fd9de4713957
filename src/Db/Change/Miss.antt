-- ===== src/Db/Change/Miss.antt =====
-- A statement that finds no row in a status that it starts from writes nothing.
use mathlib.Core.Path.{subst}
use notify_stream.Prelude.{
  ==_iff, ℕ, ◌≡◌, ◌≢◌, ◌⊎◌, refl, Bool, Bool-cases, true, false, inl, inr, Option, none, some, List,
  [], ◌∷◌, All, ◌==◌, arith,
}
use notify_stream.Domain.Types.{Notification, Status}
use notify_stream.Db.Tables.{status_in, IsNew, HasUniqueIds}
use notify_stream.Db.Change.{update_row}

other_id : (k id : ℕ) → k ≢ id → (k == id) ≡ false
other_id k id e = ground arith

-- The status of the row, if there is one, is none that the statement starts from.
abbrev pub IsOff : (Status → Bool) → Option Status → Type 0
IsOff from none = Unit
IsOff from (some s) = from s ≡ false

-- The statement starts from the status of a row, or it does not.
pub from-cases :
    (from : Status → Bool) (o : Option Status)
    → ((s : Status) × (o ≡ some s) × (from s ≡ true)) ⊎ IsOff from o
from-cases from none = inr tt
from-cases from (some s) = elim (Bool-cases (from s)) [
  | inl on ↦ inl (s, refl, on)
  | inr off ↦ inr off
]

module _ (from : Status → Bool) (set : Notification → Notification) (now id : ℕ) where
  update_row_new :
      (ns : List Notification) → All (λ n. n.id ≢ id) ns → update_row from set now id ns ≡ (ns, 0)
  unfolding update_row
  update_row_new [] h = refl
  update_row_new (n ∷ ns) (ne, h) = rw (other_id n.id id ne, update_row_new ns h) refl

  pub update_row_miss :
      (ns : List Notification)
      → HasUniqueIds ns
      → IsOff from (status_in id ns)
      → update_row from set now id ns ≡ (ns, 0)
  unfolding update_row status_in
  update_row_miss [] u h = refl
  update_row_miss (n ∷ ns) (new, u) h = elim (Bool-cases (n.id == id)) [
    | inl here ↦
        let same : n.id ≡ id = (==_iff n.id id).0 here in
        rw (here, (rw here at h), update_row_new ns (subst (λ k. IsNew k ns) same new)) refl
    | inr there ↦ rw (there, update_row_miss ns u (rw there at h)) refl
  ]
