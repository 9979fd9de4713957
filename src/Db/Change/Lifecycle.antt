-- ===== src/Db/Change/Lifecycle.antt =====
-- The life of a notification, whatever statements are run.
use mathlib.Core.Path.{subst}
use notify_stream.Prelude.{
  ℕ, ◌≡◌, ◌⊎◌, inl, inr, refl, sym, true, false, Bool, Option, none, some, List, [], ◌∷◌, ◌++◌,
  ◌==◌, arith, Bool-cases, ◌&&◌,
}
use notify_stream.Domain.Types.{
  Notification, Status, pending, queued, sending, delivered, failed, cancelled,
}
use notify_stream.Db.Tables.{Tables, status_in}
use notify_stream.Db.Change.{
  Change, release_sending, mark_sending, mark_delivered, mark_failed, mark_queued, cancel,
  insert_row, update_row, from_status, set_row, apply, run, key_taken, insert_unless,
}

-- The diagram of README.md, with the way back to `queued` of a worker that gives up its turn.
infix 40 ◌⟶◌
pub data ◌⟶◌ : Status → Status → Type 0 where
  publish : pending ⟶ queued
  claim_pending : pending ⟶ sending
  claim : queued ⟶ sending
  claim_again : sending ⟶ sending
  give_back : sending ⟶ queued
  deliver : sending ⟶ delivered
  fail_pending : pending ⟶ failed
  fail_queued : queued ⟶ failed
  fail : sending ⟶ failed
  cancel_pending : pending ⟶ cancelled
  cancel_queued : queued ⟶ cancelled

ruleset edges = (
  publish, claim_pending, claim, claim_again, give_back, deliver, fail_pending, fail_queued, fail,
  cancel_pending, cancel_queued,
)

-- A statement sets a status only along an edge.
set_row-⟶ :
    (c : Change) (n : Notification)
    → from_status c n.status ≡ true
    → n.status ⟶ (set_row c n).status
unfolding from_status set_row
set_row-⟶ c n h = grind (arith, edges)

-- Staying, or one edge.
abbrev pub Moves : Status → Status → Type 0
Moves s t = (s ≡ t) ⊎ (s ⟶ t)

-- The row of an identifier before and after a statement: one is there still, and its status moved.
abbrev pub MovedTo : Option Status → Option Status → Type 0
MovedTo none t = Unit
MovedTo (some s) none = ⊥
MovedTo (some s) (some t) = Moves s t

MovedTo-refl : (o : Option Status) → MovedTo o o
MovedTo-refl none = tt
MovedTo-refl (some s) = inl refl

pub id-set_row : (c : Change) (n : Notification) → (set_row c n).id ≡ n.id
unfolding set_row
id-set_row c n = ground arith

update_row-MovedTo :
    (c : Change) (now k id : ℕ) (ns : List Notification)
    → MovedTo (status_in id ns) (status_in id (update_row (from_status c) (set_row c) now k ns).0)
unfolding status_in update_row
update_row-MovedTo c now k id [] = tt
update_row-MovedTo c now k id (n ∷ ns) = elim (Bool-cases (n.id == k && from_status c n.status)) [
  | inl hit ↦ elim (Bool-cases (n.id == id)) [
    | inl here ↦ rw (hit, id-set_row c n, here) (inr (set_row-⟶ c n (ground arith)))
    | inr there ↦ rw (hit, id-set_row c n, there) (update_row-MovedTo c now k id ns)
  ]
  | inr miss ↦ elim (Bool-cases (n.id == id)) [
    | inl here ↦ rw (miss, here) (inl refl)
    | inr there ↦ rw (miss, there) (update_row-MovedTo c now k id ns)
  ]
]

status_in-append :
    (id : ℕ) (n : Notification) (ns : List Notification)
    → MovedTo (status_in id ns) (status_in id (ns ++ n ∷ []))
unfolding status_in
status_in-append id n [] = tt
status_in-append id n (m ∷ ns) = elim (Bool-cases (m.id == id)) [
  | inl here ↦ rw here (inl refl)
  | inr there ↦ rw there (status_in-append id n ns)
]

insert_unless-MovedTo :
    (taken : Bool) (n : Notification) (id : ℕ) (db : Tables)
    → MovedTo
        (status_in id db.notifications)
        (status_in id (insert_unless taken n db).0.notifications)
unfolding insert_unless
insert_unless-MovedTo true n id db = MovedTo-refl (status_in id db.notifications)
insert_unless-MovedTo false n id db = status_in-append id n db.notifications

-- A statement leaves every row in place, and moves its status along an edge or not at all.
pub apply-MovedTo :
    (c : Change) (now id : ℕ) (db : Tables)
    → MovedTo (status_in id db.notifications) (status_in id (apply c now db).0.notifications)
unfolding apply
apply-MovedTo (insert_row n) now id db =
    insert_unless-MovedTo (key_taken n.idempotency_key db.notifications) n id db
apply-MovedTo (release_sending k) now id db =
    update_row-MovedTo (release_sending k) now k id db.notifications
apply-MovedTo (mark_sending k) now id db =
    update_row-MovedTo (mark_sending k) now k id db.notifications
apply-MovedTo (mark_delivered k mid) now id db =
    update_row-MovedTo (mark_delivered k mid) now k id db.notifications
apply-MovedTo (mark_failed k) now id db =
    update_row-MovedTo (mark_failed k) now k id db.notifications
apply-MovedTo (mark_queued k) now id db =
    update_row-MovedTo (mark_queued k) now k id db.notifications
apply-MovedTo (cancel k) now id db = update_row-MovedTo (cancel k) now k id db.notifications
apply-MovedTo _ now id db = MovedTo-refl (status_in id db.notifications)

infix 40 ◌⟶*◌
pub data ◌⟶*◌ : Status → Status → Type 0 where
  here : {s : Status} → s ⟶* s
  step : {s t u : Status} → s ⟶ t → t ⟶* u → s ⟶* u

Moves-then : {s t u : Status} → Moves s t → t ⟶* u → s ⟶* u
Moves-then {u} (inl e) r = subst (λ x. x ⟶* u) (sym e) r
Moves-then (inr m) r = step m r

-- A row that is there is still there after any statements, by whatever processes and in whatever order,
-- and its status has followed the edges of the diagram.
pub run-⟶* :
    (cs : List (Change × ℕ)) (db : Tables) (id : ℕ) {s : Status}
    → status_in id db.notifications ≡ some s
    → (t : Status) × (status_in id (run cs db).notifications ≡ some t) × (s ⟶* t)
unfolding run
run-⟶* [] db id {s} e = (s, e, here)
run-⟶* ((c, now) ∷ cs) db id {s} e =
    let (u, e', m) = one_step (status_in id (apply c now db).0.notifications) refl in
    let (t, e'', r) = run-⟶* cs (apply c now db).0 id e' in (t, e'', Moves-then m r)
  where
    moved : MovedTo (some s) (status_in id (apply c now db).0.notifications)
    moved =
        subst (λ o. MovedTo o (status_in id (apply c now db).0.notifications)) e
          (apply-MovedTo c now id db)

    one_step :
        (o : Option Status)
        → status_in id (apply c now db).0.notifications ≡ o
        → (u : Status) × (status_in id (apply c now db).0.notifications ≡ some u) × Moves s u
    one_step none f = absurd (subst (MovedTo (some s)) f moved)
    one_step (some u) f = (u, f, subst (MovedTo (some s)) f moved)
