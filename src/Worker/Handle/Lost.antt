-- ===== src/Worker/Handle/Lost.antt =====
-- An acknowledgement of `MarkDelivered` that is lost.
use notify_stream.Prelude.{
  ℕ, zero, suc, ◌+◌, leb, ◌≡◌, refl, ap, ◌∙◌, true, false, ◌||◌, Bool, Option, some, List, [],
}
use notify_stream.Domain.Types.{sending, delivered, status_eq}
use notify_stream.Db.Tables.{Tables, status_in}
use notify_stream.Db.Change.{Change, from_status, set_row, apply, update_by, run}
use notify_stream.Db.Change.Hit.{update_row_hit}
use notify_stream.Db.Change.Twice.{IsSpent, update_row-IsSpent, update_row_spent}
use notify_stream.Db.Store.{mark_delivered, exec, execute, affected}
use notify_stream.World.Quiet.{arrive_alone}
use notify_stream.World.{
  Fault, fine, lost_before, lost_after, refused, Turn, World, Error, db_error, Result, err, M,
  arrive, ask_done,
}
use notify_stream.Worker.Timing.{delivered_deadline}
use notify_stream.Worker.Handle.{
  deliver_attempts, mark_delivered_with_retry, attempt, after_attempt,
}

-- Where the tables are `db`, the code returns an error and leaves them.
abbrev pub Fails : {Body : Type 0} → Tables → M Body (Result (Unit {0})) → Type 0
Fails {Body} db m =
    (w : World Body) → w.tables ≡ db → ((e : Error) × ((m w).0 ≡ err e)) × ((m w).1.tables ≡ db)

module _ (id : ℕ) (mid : Option (List ℕ)) where
  -- The tables after the statement.
  abbrev written : ℕ → Tables → Tables
  written now db = (apply (Change.mark_delivered id mid) now db).0

  written-IsSpent :
      (now : ℕ) (db : Tables)
      → IsSpent (Change.mark_delivered id mid) id (written now db).notifications
  unfolding apply update_by from_status set_row status_eq
  written-IsSpent now db =
      update_row-IsSpent (Change.mark_delivered id mid) id now db.notifications (λ n. refl)

  apply_spent :
      (now : ℕ) (db : Tables)
      → IsSpent (Change.mark_delivered id mid) id db.notifications
      → apply (Change.mark_delivered id mid) now db ≡ (db, 0)
  unfolding apply update_by
  apply_spent now db spent =
      rw (update_row_spent (Change.mark_delivered id mid) id now db.notifications spent) refl

  written_hit :
      (now : ℕ) (db : Tables)
      → status_in id db.notifications ≡ some sending
      → status_in id (written now db).notifications ≡ some delivered
  unfolding apply update_by set_row from_status status_eq
  written_hit now db row =
      (update_row_hit (Change.mark_delivered id mid) delivered (λ n. refl) now id db.notifications
        row refl).0

module _ {Body : Type 0} (env : ℕ → Turn) (alone : (t : ℕ) → (env t).others ≡ []) (id : ℕ)
    (mid : Option (List ℕ)) where
  -- What is true of tables in which no row is being sent under the identifier.
  module _ (db : Tables) (spent : IsSpent (Change.mark_delivered id mid) id db.notifications) where
    execute_spent :
        (f : Fault) (now : ℕ) (w : World Body)
        → w.tables ≡ db
        → let (r, w') = execute f (Change.mark_delivered id mid) now w in
          ((e : Error) × (affected r ≡ err e)) × (w'.tables ≡ db)
    unfolding execute affected
    execute_spent fine now w h = rw (h, apply_spent id mid now db spent) ((_, refl), refl)
    execute_spent lost_before now w h = ((_, refl), h)
    execute_spent refused now w h = ((_, refl), h)
    execute_spent lost_after now w h = rw (h, apply_spent id mid now db spent) ((_, refl), refl)

    mark_spent : Fails {Body = Body} db (mark_delivered env id mid)
    unfolding mark_delivered exec
    mark_spent w h =
        execute_spent (env w.tick).fault (env w.tick).now (arrive env w)
          (arrive_alone env alone w h)

    after_spent :
        (left i : ℕ) (r : Result (Unit {0})) (rest : ℕ → M Body (Result (Unit {0}))) (e : Error)
        → r ≡ err e
        → ((d : ℕ) → Fails {Body = Body} db (rest d))
        → Fails {Body = Body} db (after_attempt env left i r rest)
    unfolding after_attempt ask_done
    after_spent zero i r rest e fails h w same = rw fails ((e, refl), same)
    after_spent (suc left) i r rest e fails h w same =
        rw fails (h _ (arrive env w) (arrive_alone env alone w same))

    attempt_spent :
        (left i : ℕ) (rest : ℕ → M Body (Result (Unit {0}))) (over : Bool)
        → ((d : ℕ) → Fails {Body = Body} db (rest d))
        → Fails {Body = Body} db (attempt env left i id mid rest over)
    unfolding attempt
    attempt_spent left i rest true h w same = ((_, refl), same)
    attempt_spent left i rest false h w same =
        let ((e, fails), same') = mark_spent w same in
        after_spent left i (mark_delivered env id mid w).0 rest e fails h
          (mark_delivered env id mid w).1 same'

    attempts_spent :
        (left i elapsed : ℕ) → Fails {Body = Body} db (deliver_attempts env left i elapsed id mid)
    unfolding deliver_attempts ask_done
    attempts_spent zero i elapsed w same = ((_, refl), same)
    attempts_spent (suc left) i elapsed w same =
        attempt_spent left i (λ d. deliver_attempts env left (suc i) (elapsed + d) id mid)
          ((env w.tick).done || leb delivered_deadline elapsed)
          (λ d. attempts_spent left (suc i) (elapsed + d)) (arrive env w)
          (arrive_alone env alone w same)

  -- The statement took effect, but its answer is lost.
  mark_lost :
      (w : World Body)
      → (env w.tick).fault ≡ lost_after
      → let (r, w') = mark_delivered env id mid w in
        (r ≡ err db_error) × (w'.tables ≡ written id mid (env w.tick).now w.tables)
  unfolding mark_delivered exec execute affected arrive run
  mark_lost w lost = rw (lost, alone w.tick) (refl, refl)

  -- The first attempt is made, and its answer is lost: the others follow it.
  attempt_lost :
      (left i : ℕ) (rest : ℕ → M Body (Result (Unit {0}))) (w : World Body)
      → (env w.tick).fault ≡ lost_after
      → let db = written id mid (env w.tick).now w.tables in
        ((d : ℕ) → Fails {Body = Body} db (rest d))
        → ((e : Error) × ((attempt env left i id mid rest false w).0 ≡ err e))
          × ((attempt env left i id mid rest false w).1.tables ≡ db)
  unfolding attempt
  attempt_lost left i rest w lost h =
      let (fails, same) = mark_lost w lost in
      let db : Tables = written id mid (env w.tick).now w.tables in
      after_spent db (written-IsSpent id mid (env w.tick).now w.tables) left i
        (mark_delivered env id mid w).0 rest db_error fails h (mark_delivered env id mid w).1 same

  -- Nobody else acts, the fresh context of markDeliveredWithRetry is not done at its first check, and
  -- the answer to the first `MarkDelivered` of a row that is being sent is lost after the statement
  -- took effect. Then the row is delivered, and markDeliveredWithRetry returns an error, whatever else
  -- fails, and whenever a context is done or the timeout runs out afterwards.
  pub mark_delivered_with_retry_lost :
      (w : World Body)
      → (env w.tick).done ≡ false
      → (env (suc w.tick)).fault ≡ lost_after
      → status_in id w.tables.notifications ≡ some sending
      → let (r, w') = mark_delivered_with_retry env id mid w in
        ((e : Error) × (r ≡ err e)) × (status_in id w'.tables.notifications ≡ some delivered)
  unfolding mark_delivered_with_retry deliver_attempts ask_done
  mark_delivered_with_retry_lost w starts lost row =
      let w' : World Body = arrive env w in
      let now : ℕ = (env w'.tick).now in
      let db : Tables = written id mid now w'.tables in
      let rest : ℕ → M Body (Result (Unit {0})) = λ d. deliver_attempts env 29 1 (0 + d) id mid in
      let (fails, same) =
        attempt_lost 29 0 rest w' lost
          (λ d. attempts_spent db (written-IsSpent id mid now w'.tables) 29 1 (0 + d)) in
      let row' : status_in id w'.tables.notifications ≡ some sending =
        ap (λ t. status_in id t.notifications) (arrive_alone env alone w refl) ∙ row in
      rw starts
        (fails, ap (λ t. status_in id t.notifications) same ∙ written_hit id mid now w'.tables row')
