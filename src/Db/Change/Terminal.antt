-- ===== src/Db/Change/Terminal.antt =====
-- A delivered, failed or cancelled notification is never written again.
use mathlib.Core.Path.{subst}
use notify_stream.Prelude.{
  ℕ, ◌≡◌, ◌⊎◌, inl, inr, sym, true, Bool, false, some, List, [], ◌∷◌, ◌++◌, ◌==◌, ◌&&◌, arith,
  Bool-cases,
}
use notify_stream.Domain.Types.{Notification, Status, delivered, failed, cancelled}
use notify_stream.Db.Tables.{Tables, find_row}
use notify_stream.Db.Change.{
  Change, release_sending, mark_sending, mark_delivered, mark_failed, mark_queued, cancel,
  insert_row, update_row, from_status, set_row, apply, run, key_taken, insert_unless,
}
use notify_stream.Db.Change.Lifecycle.{id-set_row}

abbrev pub IsTerminal : Status → Type 0
IsTerminal s = (s ≡ delivered) ⊎ ((s ≡ failed) ⊎ (s ≡ cancelled))

from_status_of_IsTerminal : (c : Change) (s : Status) → IsTerminal s → from_status c s ≡ false
unfolding from_status
from_status_of_IsTerminal c s h = ground arith

clash :
    (c : Change) (k : ℕ) (m : Notification) {n : Notification}
    → (m.id == k && from_status c m.status) ≡ true
    → some m ≡ some n
    → IsTerminal n.status
    → ⊥
clash c k m {n} hit e h =
    let same : m ≡ n = cc in
    let off : from_status c m.status ≡ false =
      from_status_of_IsTerminal c m.status (subst (λ x. IsTerminal x.status) (sym same) h) in
    ground arith

update_row-find_row :
    (c : Change) (now k id : ℕ) (ns : List Notification) {n : Notification}
    → find_row id ns ≡ some n
    → IsTerminal n.status
    → find_row id (update_row (from_status c) (set_row c) now k ns).0 ≡ some n
unfolding find_row update_row
update_row-find_row c now k id [] e h = e
update_row-find_row c now k id (m ∷ ns) {n} e h =
    elim (Bool-cases (m.id == k && from_status c m.status)) [
      | inl hit ↦ elim (Bool-cases (m.id == id)) [
        | inl here ↦ absurd (clash c k m hit (rw here at e) h)
        | inr there ↦
            rw (hit, id-set_row c m, there) (update_row-find_row c now k id ns (rw there at e) h)
      ]
      | inr miss ↦ elim (Bool-cases (m.id == id)) [
        | inl here ↦ rw (miss, here) (rw here at e)
        | inr there ↦ rw (miss, there) (update_row-find_row c now k id ns (rw there at e) h)
      ]
    ]

pub find_row-append :
    (id : ℕ) (ns : List Notification) (m : Notification) {n : Notification}
    → find_row id ns ≡ some n
    → find_row id (ns ++ m ∷ []) ≡ some n
unfolding find_row
find_row-append id [] m e = cc
find_row-append id (x ∷ ns) m e = elim (Bool-cases (x.id == id)) [
  | inl here ↦ rw here (rw here at e)
  | inr there ↦ rw there (find_row-append id ns m (rw there at e))
]

insert_unless-find_row :
    (taken : Bool) (m : Notification) (id : ℕ) (db : Tables) {n : Notification}
    → find_row id db.notifications ≡ some n
    → find_row id (insert_unless taken m db).0.notifications ≡ some n
unfolding insert_unless
insert_unless-find_row true m id db e = e
insert_unless-find_row false m id db e = find_row-append id db.notifications m e

apply-find_row :
    (c : Change) (now id : ℕ) (db : Tables) {n : Notification}
    → find_row id db.notifications ≡ some n
    → IsTerminal n.status
    → find_row id (apply c now db).0.notifications ≡ some n
unfolding apply
apply-find_row (insert_row m) now id db e h =
    insert_unless-find_row (key_taken m.idempotency_key db.notifications) m id db e
apply-find_row (release_sending k) now id db e h =
    update_row-find_row (release_sending k) now k id db.notifications e h
apply-find_row (mark_sending k) now id db e h =
    update_row-find_row (mark_sending k) now k id db.notifications e h
apply-find_row (mark_delivered k mid) now id db e h =
    update_row-find_row (mark_delivered k mid) now k id db.notifications e h
apply-find_row (mark_failed k) now id db e h =
    update_row-find_row (mark_failed k) now k id db.notifications e h
apply-find_row (mark_queued k) now id db e h =
    update_row-find_row (mark_queued k) now k id db.notifications e h
apply-find_row (cancel k) now id db e h =
    update_row-find_row (cancel k) now k id db.notifications e h
apply-find_row _ now id db e h = e

-- Once a row is delivered, failed or cancelled, it is read back unchanged, in every field, after any
-- statements.
pub run-find_row :
    (cs : List (Change × ℕ)) (db : Tables) (id : ℕ) {n : Notification}
    → find_row id db.notifications ≡ some n
    → IsTerminal n.status
    → find_row id (run cs db).notifications ≡ some n
unfolding run
run-find_row [] db id e h = e
run-find_row ((c, now) ∷ cs) db id e h =
    run-find_row cs (apply c now db).0 id (apply-find_row c now id db e h) h
