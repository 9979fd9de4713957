-- ===== src/Runner/Drained.antt =====
-- A tick of the relay empties the outbox.
use mathlib.Core.Path.{subst}
use notify_stream.Prelude.{
  ℕ, zero, suc, ◌≤◌, ◌≡◌, refl, sym, ap, ◌∙◌, Bool, Bool-cases, inl, inr, some, List, [], ◌∷◌, Str,
  All, ◌==◌, ◌&&◌, arith, if◌then◌else◌,
}
use notify_stream.Prelude.Int.{pos}
use notify_stream.Prelude.Sort.Members.{IsIn-All}
use notify_stream.Domain.Types.{Notification}
use notify_stream.Amqp.Publish.{Wire, Message, message_of}
use notify_stream.Db.Tables.{OutboxRow, Tables, find_row}
use notify_stream.Db.Change.{is_null, publish_row, run}
use notify_stream.Db.Change.Constant.{run-HasCore}
use notify_stream.Db.Claims.{claim_outbox_batch}
use notify_stream.Runner.{
  process_outbox_entry, relay_claimed, unless_failed, relay_claim, relay_round, relay_rounds,
  relay_tick,
}
use notify_stream.Prelude.Sort.All.{All-map}
use notify_stream.Runner.Quiet.{Relayed, process_outbox_entry-Relayed}
use notify_stream.World.{Turn, World, arrive}
use notify_stream.World.Quiet.{IsQuiet}
use notify_stream.Runner.Waiting.{unpublished, nobody, publish_row_one, claim-Claims}

-- The notification of each entry is there (a foreign key).
abbrev pub HasNotifications : Tables → Type 0
HasNotifications db =
    All (λ e. (n : Notification) × (find_row e.notification_id db.notifications ≡ some n)) db.outbox

pub publish_row-All :
    (P : ℕ → Type 0) (now id : ℕ) (es : List OutboxRow)
    → All (λ e. P e.notification_id) es
    → All (λ e. P e.notification_id) (publish_row now id es).0
unfolding publish_row
publish_row-All P now id [] h = tt
publish_row-All P now id (e ∷ es) (p, h) =
    elim (Bool-cases (e.id == id && is_null e.published_at)) [
      | inl hit ↦ rw hit (p, publish_row-All P now id es h)
      | inr miss ↦ rw miss (p, publish_row-All P now id es h)
    ]

Relayed-HasNotifications :
    (now : ℕ) (e : OutboxRow) (db db' : Tables)
    → Relayed now e db db'
    → HasNotifications db
    → HasNotifications db'
Relayed-HasNotifications now e db db' r h =
    let rows : All
        (λ f. (n : Notification) × (find_row f.notification_id db'.notifications ≡ some n))
        db.outbox =
      All-map (λ f. (n : Notification) × (find_row f.notification_id db.notifications ≡ some n))
        (λ f. (n : Notification) × (find_row f.notification_id db'.notifications ≡ some n))
        db.outbox
        (λ f (n, row).
          let (m, row', same) = run-HasCore r.statements db f.notification_id row in
          (m, ap (λ t. find_row f.notification_id t.notifications) r.tables_run ∙ row'))
        h in
    subst
      (λ es.
        All (λ f. (n : Notification) × (find_row f.notification_id db'.notifications ≡ some n)) es)
      (sym r.outbox)
      (publish_row-All (λ k. (n : Notification) × (find_row k db'.notifications ≡ some n)) now e.id
        db.outbox rows)

module _ (wire : Wire) (env : ℕ → Turn) (q : IsQuiet env) (mc : List (Str × Str))
    (total : (n : Notification) → (m : Message wire.Body) × (message_of wire mc n ≡ some m)) where
  abbrev later : World wire.Body → World wire.Body
  later w = record w { tick = suc (suc w.tick) }

  round_quiet :
      (w : World wire.Body)
      → relay_round wire env mc nobody w
        ≡ relay_claimed wire env mc
            (env w.tick).now
            (claim_outbox_batch nobody (pos 1) w.tables)
            (later w)
  unfolding relay_round relay_claim unless_failed arrive run
  round_quiet w =
      rw (q.works w.tick, q.works (suc w.tick), q.alone w.tick, q.alone (suc w.tick)) refl

  -- What is left of the rounds, after one that claimed `got`.
  abbrev go_on : ℕ → Bool × World wire.Body → World wire.Body
  go_on left (more, w) = if more then (relay_rounds wire env mc nobody left w).1 else w

  rounds_step :
      (left : ℕ) (w : World wire.Body)
      → (relay_rounds wire env mc nobody (suc left) w).1
        ≡ go_on left (relay_round wire env mc nobody w)
  unfolding relay_rounds
  rounds_step left w = elim (Bool-cases (relay_round wire env mc nobody w).0) [
    | inl more ↦ rw more refl
    | inr over ↦ rw over refl
  ]

  rounds_drain :
      (left : ℕ) (w : World wire.Body)
      → HasNotifications w.tables
      → unpublished w.tables.outbox ≤ left
      → unpublished (relay_rounds wire env mc nobody left w).1.tables.outbox ≡ 0
  unfolding relay_claimed relay_rounds
  rounds_drain zero w h few = omega (arith, few)
  rounds_drain (suc left) w h few =
      let now : ℕ = (env w.tick).now in
      let step = rounds_step left w ∙ ap (go_on left) (round_quiet w) in
      elim (claim-Claims w.tables) [
        | inl (nothing, empty) ↦
            ap (λ v. unpublished v.tables.outbox)
              (step ∙ ap (λ got. go_on left (relay_claimed wire env mc now got (later w))) nothing)
            ∙ empty
        | inr (e, one, i, n) ↦
            let (m, row) =
              IsIn-All
                (λ f.
                  (n : Notification) × (find_row f.notification_id w.tables.notifications ≡ some n))
                e w.tables.outbox h i in
            let w' : World wire.Body = (process_outbox_entry wire env mc now e (later w)).1 in
            let r = process_outbox_entry-Relayed wire env q mc total now e (later w) row in
            let less = publish_row_one now e w.tables.outbox n i in
            ap (λ v. unpublished v.tables.outbox)
              (step ∙ ap (λ got. go_on left (relay_claimed wire env mc now got (later w))) one)
            ∙ rounds_drain left w' (Relayed-HasNotifications now e w.tables w'.tables r h)
                (omega (arith, less, ap unpublished r.outbox))
      ]

  -- Where nothing fails and nobody interferes, every notification can be marshalled and that of every
  -- entry is there, a tick of the relay leaves no entry of an outbox with at most 25 unpublished ones.
  pub relay_tick_drains :
      (w : World wire.Body)
      → HasNotifications w.tables
      → unpublished w.tables.outbox ≤ 25
      → unpublished (relay_tick wire env mc nobody w).1.tables.outbox ≡ 0
  unfolding relay_tick
  relay_tick_drains w h few = rounds_drain 25 w h few
