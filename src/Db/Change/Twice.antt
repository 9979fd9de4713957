-- ===== src/Db/Change/Twice.antt =====
-- An update that is made twice changes nothing the second time.
use notify_stream.Prelude.{
  ℕ, ◌≡◌, refl, Bool, Bool-cases, true, false, inl, inr, List, [], ◌∷◌, All, ◌==◌, ◌&&◌,
}
use notify_stream.Domain.Types.{Notification}
use notify_stream.Db.Change.{Change, update_row, from_status, set_row}

both_off : (a b : Bool) → b ≡ false → (a && b) ≡ false
both_off true b h = h
both_off false b h = refl

module _ (c : Change) (id : ℕ) where
  -- The statement changes no row of the list.
  abbrev pub IsSpent : List Notification → Type 0
  IsSpent = All (λ n. (n.id == id && from_status c n.status) ≡ false)

  pub update_row-IsSpent :
      (now : ℕ) (ns : List Notification)
      → ((n : Notification) → from_status c (set_row c n).status ≡ false)
      → IsSpent (update_row (from_status c) (set_row c) now id ns).0
  unfolding update_row
  update_row-IsSpent now [] off = tt
  update_row-IsSpent now (n ∷ ns) off = elim (Bool-cases (n.id == id && from_status c n.status)) [
    | inl hit ↦ rw hit (both_off ((set_row c n).id == id) _ (off n), update_row-IsSpent now ns off)
    | inr miss ↦ rw miss (miss, update_row-IsSpent now ns off)
  ]

  pub update_row_spent :
      (now : ℕ) (ns : List Notification)
      → IsSpent ns
      → update_row (from_status c) (set_row c) now id ns ≡ (ns, 0)
  unfolding update_row
  update_row_spent now [] h = refl
  update_row_spent now (n ∷ ns) (miss, h) = rw (miss, update_row_spent now ns h) refl
