-- ===== src/Api/Create/Undone.antt =====
-- The transaction of a request that fails: `CreateNotifications` of internal/api/handlers.go.
use notify_stream.Prelude.{
  ℕ, ◌≡◌, ◌≢◌, ◌⊎◌, refl, ◌∙◌, inl, inr, Bool, true, false, Option, List, [], ◌∷◌, Str, length, ltb,
  Bool-cases,
}
use notify_stream.Domain.Types.{CreateItem}
use notify_stream.Domain.Validate.{Problem}
use notify_stream.Amqp.Publish.{Wire}
use notify_stream.Db.Tables.{Tables}
use notify_stream.Db.Transaction.{commit, tx_commit, tx_rollback, begun, transact}
use notify_stream.Api.Create.{
  Item, Response, created, finish_request, store_all, committed, accept, or_invalid, problems,
  correlation_of, create_notifications,
}
use notify_stream.World.Quiet.{arrive_alone}
use notify_stream.World.{
  Fault, fine, lost_before, lost_after, refused, Turn, World, Result, ok, err, M, arrive,
}

abbrev pub is_created : Response → Bool
is_created (created batch ns hits) = true
is_created _ = false

abbrev Items : Type 0
Items = Option ℕ × List Item

module _ {Body : Type 0} (env : ℕ → Turn) (alone : (t : ℕ) → (env t).others ≡ [])
    (heard : (t : ℕ) → (env t).fault ≢ lost_after) where
  commit_fails :
      (f : Fault) (saved : Tables) (a : Items) (w : World Body)
      → f ≢ lost_after
      → ((b : Items) × ((commit f saved a w).0 ≡ ok b)) ⊎ ((commit f saved a w).1.tables ≡ saved)
  unfolding commit
  commit_fails fine saved a w h = inl (a, refl)
  commit_fails lost_before saved a w h = inr refl
  commit_fails refused saved a w h = inr refl
  commit_fails lost_after saved a w h = absurd (h refl)

  finish_fails :
      (saved : Tables) (r : Result Items) (w : World Body)
      → let (r', w') = finish_request env saved r w in
        ((b : Items) × (r' ≡ ok b)) ⊎ (w'.tables ≡ saved)
  unfolding finish_request tx_commit tx_rollback
  finish_fails saved (err e) w = inr (arrive_alone env alone (record w { tables = saved }) refl)
  finish_fails saved (ok a) w = elim (commit_fails (env w.tick).fault saved a w (heard w.tick)) [
    | inl done ↦ inl done
    | inr kept ↦ inr (arrive_alone env alone (commit (env w.tick).fault saved a w).1 kept)
  ]

  begun_fails :
      (f : Fault) (body : M Body (Result Items)) (w : World Body)
      → let (r, w') = begun env (finish_request env) f body w in
        ((b : Items) × (r ≡ ok b)) ⊎ (w'.tables ≡ w.tables)
  unfolding begun
  begun_fails fine body w = finish_fails w.tables (body w).0 (body w).1
  begun_fails lost_before body w = inr refl
  begun_fails lost_after body w = inr refl
  begun_fails refused body w = inr refl

  transact_fails :
      (body : ℕ → M Body (Result Items)) (w : World Body)
      → let (r, w') = transact env (finish_request env) body w in
        ((b : Items) × (r ≡ ok b)) ⊎ (w'.tables ≡ w.tables)
  unfolding transact
  transact_fails body w =
      elim (begun_fails (env w.tick).fault (body (env w.tick).now) (arrive env w)) [
        | inl done ↦ inl done
        | inr kept ↦ inr (kept ∙ arrive_alone env alone w refl)
      ]

module _ (wire : Wire) (env : ℕ → Turn) (alone : (t : ℕ) → (env t).others ≡ [])
    (heard : (t : ℕ) → (env t).fault ≢ lost_after) (mc : List (Str × Str)) where
  committed_fails :
      (r : Result Items) (db : Tables) (w : World wire.Body)
      → ((b : Items) × (r ≡ ok b)) ⊎ (w.tables ≡ db)
      → is_created (committed wire env mc r w).0 ≡ false
      → (committed wire env mc r w).1.tables ≡ db
  unfolding committed
  committed_fails (err e) db w (inl (b, done)) h = absurd (cc)
  committed_fails (err e) db w (inr kept) h = kept
  committed_fails (ok b) db w done h = absurd (cc)

  accept_fails :
      (metadata corr : Str) (its : List CreateItem) (w : World wire.Body)
      → is_created (accept wire env mc metadata corr its w).0 ≡ false
      → (accept wire env mc metadata corr its w).1.tables ≡ w.tables
  unfolding accept
  accept_fails metadata corr its w h =
      let body : ℕ → M wire.Body (Result Items) = store_all env metadata corr its in
      let (r, w1) = transact env (finish_request env) body w in
      committed_fails r w.tables w1 (transact_fails env alone heard body w) h

  or_invalid_fails :
      (ps : List (ℕ × Problem)) (act : M wire.Body Response) (w : World wire.Body)
      → (is_created (act w).0 ≡ false → (act w).1.tables ≡ w.tables)
      → is_created (or_invalid wire env mc ps act w).0 ≡ false
      → (or_invalid wire env mc ps act w).1.tables ≡ w.tables
  unfolding or_invalid
  or_invalid_fails [] act w h refuses = h refuses
  or_invalid_fails (p ∷ ps) act w h refuses = refl

  -- Nobody else acts, and no answer to a call is lost after the call took effect. Then a request that
  -- is not answered with the notifications leaves the tables as they were, whatever else fails: of a
  -- request that fails behind some of its rows, no row and no batch stays.
  pub create_notifications-tables :
      (request_id made_id metadata : Str) (its : List CreateItem) (w : World wire.Body)
      → let (r, w') = create_notifications wire env mc request_id made_id metadata its w in
        is_created r ≡ false → w'.tables ≡ w.tables
  unfolding create_notifications
  create_notifications-tables request_id made_id metadata [] w refuses = refl
  create_notifications-tables request_id made_id metadata (it ∷ its) w refuses =
      elim (Bool-cases (ltb 1000 (length (it ∷ its)))) [
        | inl many ↦ rw many refl
        | inr few ↦
            let corr = correlation_of request_id made_id in
            rw few (
              or_invalid_fails (problems 0 (it ∷ its)) (accept wire env mc metadata corr (it ∷ its))
                w (accept_fails metadata corr (it ∷ its) w) (rw few at refuses))
      ]
