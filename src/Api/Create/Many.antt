-- ===== src/Api/Create/Many.antt =====
-- The response to a request of any number of items, when nothing fails and nobody interferes.
use notify_stream.Prelude.{
  ℕ, suc, ◌≤◌, ◌≡◌, refl, false, Option, some, List, [], ◌∷◌, Str, All, length, ltb, map, arith,
}
use notify_stream.Prelude.Pick.{IsDistinct}
use notify_stream.Domain.Types.{Notification, CreateItem}
use notify_stream.Domain.Validate.Sound.{validate_iff}
use notify_stream.Amqp.Publish.{Wire, Message, message_of}
use notify_stream.Api.Create.{finish_request}
use notify_stream.Db.Transaction.Fine.{transact_quiet}
use notify_stream.Api.Create.{
  created, problems, with_problem, or_invalid, correlation_of, store_all, committed, accept,
  create_notifications, idempotent_hits,
}
use notify_stream.Api.Create.Stored.{IsPlain}
use notify_stream.Api.Create.Rows.{fresh}
use notify_stream.Api.Create.Sent.{IsDue, sent_all, queued_item, publish_all_quiet}
use notify_stream.World.{Turn, World, ok}
use notify_stream.World.Quiet.{IsQuiet}

no_problems : (i : ℕ) (its : List CreateItem) → All IsPlain its → problems i its ≡ []
unfolding problems with_problem
no_problems i [] h = refl
no_problems i (it ∷ its) (p, h) =
    rw ((validate_iff it).1 p.acceptable, no_problems (suc i) its h) refl

no_hits : (ns : List Notification) → idempotent_hits (map fresh ns) ≡ 0
unfolding idempotent_hits
no_hits [] = refl
no_hits (n ∷ ns) = no_hits ns

not_many : (n : ℕ) → n ≤ 1000 → ltb 1000 n ≡ false
not_many n h = ground arith

module _ (wire : Wire) (env : ℕ → Turn) (q : IsQuiet env) (mc : List (Str × Str))
    (total : (n : Notification) → (m : Message wire.Body) × (message_of wire mc n ≡ some m)) where
  -- What the response and the world are.
  pub create_many_quiet :
      (request_id made_id metadata : Str) (it : CreateItem) (its : List CreateItem)
      (w w' : World wire.Body) (batch : Option ℕ) (rows : List Notification)
      → let corr = correlation_of request_id made_id in
        All IsPlain (it ∷ its)
        → length (it ∷ its) ≤ 1000
        → store_all env metadata corr (it ∷ its) (env w.tick).now (record w { tick = suc w.tick })
          ≡ (ok (batch, map fresh rows), w')
        → All (IsDue w'.tables) rows
        → IsDistinct (λ n. n.id) rows
        → create_notifications wire env mc request_id made_id metadata (it ∷ its) w ≡ (
          created batch (map (queued_item wire env q mc total) rows) 0,
          sent_all wire env q mc total rows (record w' { tick = suc w'.tick }),
        )
  unfolding create_notifications or_invalid accept committed finish_request
  create_many_quiet request_id made_id metadata it its w w' batch rows plain few stored due d =
      let corr = correlation_of request_id made_id in
      let w0 : World wire.Body = record w' { tick = suc w'.tick } in
      rw
        (
          not_many (length (it ∷ its)) few,
          no_problems 0 (it ∷ its) plain,
          transact_quiet env q (finish_request env) (λ s a v. refl)
              (store_all env metadata corr (it ∷ its)) w stored,
          publish_all_quiet wire env q mc total (env w0.tick).now rows w0 due d,
          no_hits rows,
        )
        refl
