-- ===== src/Db/Change/Constant.antt =====
-- What of a notification no statement changes.
use notify_stream.Prelude.{
  ℕ, ◌≡◌, inl, inr, refl, ap, ◌∙◌, true, Bool, false, none, some, List, [], ◌∷◌, ◌==◌, ◌&&◌, arith,
  Bool-cases,
}
use notify_stream.Domain.Types.{Notification, pending}
use notify_stream.Db.Tables.{Tables, find_row}
use notify_stream.Db.Change.{
  Change, release_sending, mark_sending, mark_delivered, mark_failed, mark_queued, cancel,
  insert_row, update_row, from_status, set_row, apply, run, key_taken, insert_unless,
}
use notify_stream.Db.Change.Lifecycle.{id-set_row}
use notify_stream.Db.Change.Terminal.{find_row-append}

-- A row but for its status, the provider's message and the time of the last change.
abbrev pub core : Notification → Notification
core n = record n { status = pending; provider_message_id = none; updated_at = 0 }

core-set_row :
    (c : Change) (now : ℕ) (n : Notification)
    → core (record (set_row c n) { updated_at = now }) ≡ core n
unfolding set_row
core-set_row c now n = ground arith

-- A row with the identifier is there, with the same core.
abbrev pub HasCore : ℕ → Notification → List Notification → Type 0
HasCore id n ns = (m : Notification) × (find_row id ns ≡ some m) × (core m ≡ core n)

first_core : (m : Notification) {n : Notification} → some m ≡ some n → core m ≡ core n
first_core m e = cc

find_row_first :
    (m : Notification) (ns : List Notification) (id : ℕ)
    → (m.id == id) ≡ true
    → find_row id (m ∷ ns) ≡ some m
unfolding find_row
find_row_first m ns id h = rw h refl

update_row-HasCore :
    (c : Change) (now k id : ℕ) (ns : List Notification) {n : Notification}
    → find_row id ns ≡ some n
    → HasCore id n (update_row (from_status c) (set_row c) now k ns).0
unfolding find_row update_row
update_row-HasCore c now k id [] e = absurd (cc)
update_row-HasCore c now k id (m ∷ ns) {n} e =
    elim (Bool-cases (m.id == k && from_status c m.status)) [
      | inl hit ↦ elim (Bool-cases (m.id == id)) [
        | inl here ↦ rw hit (
          record (set_row c m) { updated_at = now },
          find_row_first _ _ id (ap (λ u. u == id) (id-set_row c m) ∙ here),
          core-set_row c now m ∙ first_core m (rw here at e),
        )
        | inr there ↦
            rw (hit, id-set_row c m, there) (update_row-HasCore c now k id ns (rw there at e))
      ]
      | inr miss ↦ elim (Bool-cases (m.id == id)) [
        | inl here ↦ rw (miss, here) (m, refl, first_core m (rw here at e))
        | inr there ↦ rw (miss, there) (update_row-HasCore c now k id ns (rw there at e))
      ]
    ]

insert_unless-HasCore :
    (taken : Bool) (m : Notification) (id : ℕ) (db : Tables) {n : Notification}
    → find_row id db.notifications ≡ some n
    → HasCore id n (insert_unless taken m db).0.notifications
unfolding insert_unless
insert_unless-HasCore true m id db {n} e = (n, e, refl)
insert_unless-HasCore false m id db {n} e = (n, find_row-append id db.notifications m e, refl)

apply-HasCore :
    (c : Change) (now id : ℕ) (db : Tables) {n : Notification}
    → find_row id db.notifications ≡ some n
    → HasCore id n (apply c now db).0.notifications
unfolding apply
apply-HasCore (insert_row m) now id db e =
    insert_unless-HasCore (key_taken m.idempotency_key db.notifications) m id db e
apply-HasCore (release_sending k) now id db e =
    update_row-HasCore (release_sending k) now k id db.notifications e
apply-HasCore (mark_sending k) now id db e =
    update_row-HasCore (mark_sending k) now k id db.notifications e
apply-HasCore (mark_delivered k mid) now id db e =
    update_row-HasCore (mark_delivered k mid) now k id db.notifications e
apply-HasCore (mark_failed k) now id db e =
    update_row-HasCore (mark_failed k) now k id db.notifications e
apply-HasCore (mark_queued k) now id db e =
    update_row-HasCore (mark_queued k) now k id db.notifications e
apply-HasCore (cancel k) now id db e = update_row-HasCore (cancel k) now k id db.notifications e
apply-HasCore _ now id db {n} e = (n, e, refl)

-- A row that is there is still there after any statements, and nothing of it has changed but its
-- status, the provider's message identifier and the time of the last change.
pub run-HasCore :
    (cs : List (Change × ℕ)) (db : Tables) (id : ℕ) {n : Notification}
    → find_row id db.notifications ≡ some n
    → HasCore id n (run cs db).notifications
unfolding run
run-HasCore [] db id {n} e = (n, e, refl)
run-HasCore ((c, now) ∷ cs) db id e =
    let (m, f, s) = apply-HasCore c now id db e in
    let (m', f', s') = run-HasCore cs (apply c now db).0 id f in (m', f', s' ∙ s)
