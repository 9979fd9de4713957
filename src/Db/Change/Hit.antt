-- ===== src/Db/Change/Hit.antt =====
-- A statement that finds its row in a status that it starts from, and the other rows.
use notify_stream.Prelude.{
  ℕ, suc, ◌≡◌, ◌≢◌, refl, ap, true, false, some, List, [], ◌∷◌, ◌==◌, ◌&&◌, Bool, Bool-cases, inl,
  inr, arith, if◌then◌else◌,
}
use notify_stream.Domain.Types.{Notification, Status}
use notify_stream.Db.Tables.{find_row, status_in}
use notify_stream.Db.Change.{Change, update_row, from_status, set_row}
use notify_stream.Db.Change.Lifecycle.{id-set_row}

same_flag : (f : Status → Bool) {u s : Status} → some u ≡ some s → f s ≡ true → f u ≡ true
same_flag f e h = cc

-- The row is written, and counted.
pub update_row_hit :
    (c : Change) (t : Status)
    → ((n : Notification) → (set_row c n).status ≡ t)
    → (now id : ℕ) (ns : List Notification) {s : Status} → status_in id ns ≡ some s
    → from_status c s ≡ true
    → let (rows, count) = update_row (from_status c) (set_row c) now id ns in
      (status_in id rows ≡ some t) × (k : ℕ) × (count ≡ suc k)
unfolding status_in update_row
update_row_hit c t sets now id [] e h = absurd (cc)
update_row_hit c t sets now id (n ∷ ns) e h = elim (Bool-cases (n.id == id)) [
  | inl here ↦
      let flag : from_status c n.status ≡ true = same_flag (from_status c) (rw here at e) h in
      rw (here, flag, id-set_row c n, here) (ap some (sets n), _, refl)
  | inr there ↦ rw (there, there) (update_row_hit c t sets now id ns (rw there at e) h)
]

-- The rows with other identifiers are as they were.
pub update_row_other :
    (c : Change) (now id j : ℕ) (ns : List Notification)
    → j ≢ id
    → find_row j (update_row (from_status c) (set_row c) now id ns).0 ≡ find_row j ns
unfolding find_row update_row
update_row_other c now id j [] ne = refl
update_row_other c now id j (n ∷ ns) ne = elim (Bool-cases (n.id == id && from_status c n.status)) [
  | inl hit ↦
      let other : (n.id == j) ≡ false = ground arith in
      rw (hit, id-set_row c n, other) (update_row_other c now id j ns ne)
  | inr miss ↦
      rw miss (ap (λ o. if n.id == j then some n else o) (update_row_other c now id j ns ne))
]
