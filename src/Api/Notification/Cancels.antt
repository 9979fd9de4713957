-- ===== src/Api/Notification/Cancels.antt =====
-- What a request to cancel answers, and what it does to the row.
use notify_stream.Prelude.{
  ℕ, ◌≡◌, ◌≢◌, ◌⊎◌, refl, ap, ◌∙◌, Bool-cases, inl, inr, true, Option, some, none, List, arith, [],
  ◌∷◌, ◌==◌,
}
use notify_stream.Domain.Types.{Notification, Status, pending, queued, cancelled, status_eq}
use notify_stream.Db.Tables.{find_row, status_in, HasUniqueIds}
use notify_stream.Db.Change.{Change, from_status, set_row, apply, update_by}
use notify_stream.Db.Change.Hit.{update_row_hit}
use notify_stream.Db.Change.Miss.{IsOff, from-cases, update_row_miss}
use notify_stream.Db.Store.{execute, exec, cancel}
use notify_stream.Api.Create.{Item}
use notify_stream.Api.Notification.{shown, cancel_notification}
use notify_stream.Api.Answer.{Answer, good, conflict}
use notify_stream.World.{fine, Turn, World, arrive}

find_of_status :
    (id : ℕ) (ns : List Notification) {s : Status}
    → status_in id ns ≡ some s
    → (n : Notification) × (find_row id ns ≡ some n) × (n.status ≡ s)
unfolding status_in find_row
find_of_status id [] e = absurd (cc)
find_of_status id (n ∷ ns) {s} e = elim (Bool-cases (n.id == id)) [
  | inl here ↦ let same : some n.status ≡ some s = rw here at e in (n, rw here refl, cc)
  | inr there ↦ let (m, f, t) = find_of_status id ns (rw there at e) in (m, rw there f, t)
]

-- A row that is neither pending nor queued, or none.
abbrev pub IsClosed : Option Status → Type 0
IsClosed o = (o ≢ some pending) × (o ≢ some queued)

abbrev pub IsOpen : Option Status → Type 0
IsOpen o = (o ≡ some pending) ⊎ (o ≡ some queued)

-- A request is answered with the cancelled row, or refused; `old` is the status that it found.
abbrev pub Cancels :
    {Body : Type 0} → ℕ → Option Status → Answer Item → World Body → World Body → Type 0
Cancels id old a w w' =
    ((n : Notification) × (a ≡ good (shown n))
      × (n.status ≡ cancelled)
      × (find_row id w'.tables.notifications ≡ some n)
      × IsOpen old)
    ⊎ ((a ≡ conflict) × (w' ≡ w) × IsClosed old)

IsOff-IsClosed :
    (id : ℕ) (o : Option Status) → IsOff (from_status (Change.cancel id)) o → IsClosed o
unfolding from_status status_eq
IsOff-IsClosed id none h = (λ e. cc, λ e. cc)
IsOff-IsClosed id (some s) h = (λ e. ground arith, λ e. ground arith)

open_of_on :
    (id : ℕ) (s : Status) → from_status (Change.cancel id) s ≡ true → (s ≡ pending) ⊎ (s ≡ queued)
unfolding from_status status_eq
open_of_on id s h = ground arith

found-IsOpen :
    (o : Option Status) (s : Status) → o ≡ some s → (s ≡ pending) ⊎ (s ≡ queued) → IsOpen o
found-IsOpen o s e (inl f) = inl (e ∙ ap some f)
found-IsOpen o s e (inr f) = inr (e ∙ ap some f)

module _ {Body : Type 0} (env : ℕ → Turn) (id : ℕ) (w : World Body)
    (works : (env w.tick).fault ≡ fine)
    (ids : HasUniqueIds (arrive env w).tables.notifications) where
  -- A request to cancel that reaches the database cancels a row that is pending or queued and answers
  -- with it, and otherwise answers with a conflict and writes nothing.
  pub cancel_notification-Cancels :
      Cancels id
        (status_in id (arrive env w).tables.notifications)
        (cancel_notification env (some id) w).0
        (arrive env w)
        (cancel_notification env (some id) w).1
  unfolding cancel_notification cancel exec execute apply update_by
  cancel_notification-Cancels =
      let ns : List Notification = (arrive env w).tables.notifications in
      let now : ℕ = (env w.tick).now in
      elim (from-cases (from_status (Change.cancel id)) (status_in id ns)) [
        | inl (s, e, on) ↦
            let (t, k, count) =
              update_row_hit (Change.cancel id) cancelled (λ n. refl) now id ns e on in
            let (n, f, c) = find_of_status id _ t in
            inl (
              n,
              rw (works, count, f) refl,
              c,
              rw works f,
              found-IsOpen (status_in id ns) s e (open_of_on id s on),
            )
        | inr off ↦
            let none_hit =
              update_row_miss (from_status (Change.cancel id)) (set_row (Change.cancel id)) now id
                ns ids off in
            inr (
              rw (works, none_hit) refl,
              rw (works, none_hit) refl,
              IsOff-IsClosed id (status_in id ns) off,
            )
      ]
