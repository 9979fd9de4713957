-- ===== src/Delivery/Webhook.antt =====
-- `Webhook.Post` of internal/delivery/delivery.go, with `IsPermanent` and `IsTransient`. A fault of the
-- turn that is lost is an error of `Client.Do`; `refused` is one of `json.Marshal` or of
-- `http.NewRequestWithContext`. The texts of the errors are left out.
pub mod Evolves
use notify_stream.Prelude.{
  ℕ, suc, Bool, true, false, ◌&&◌, Option, none, some, [], ◌∷◌, ◌++◌, Str, is_empty, ltb, leb, ◌==◌,
  if◌then◌else◌,
}
use notify_stream.Amqp.Publish.{Envelope}
use notify_stream.Delivery.Outbound.{Outbound, outbound_of, non_empty}
use notify_stream.World.{
  Fault, fine, lost_before, lost_after, refused, Reply, Turn, World, Error, transient, permanent,
  unexpected, Result, ok, err, M, arrive,
}

unfoldable pub is_permanent : Error → Bool
is_permanent Error.permanent = true
is_permanent _ = false

unfoldable pub is_transient : Error → Bool
is_transient Error.transient = true
is_transient _ = false

-- The `switch` on the status code. The message identifier is "" where the response has none.
unfoldable pub classify : Reply → Result (Option Str)
unfolding non_empty
classify r =
    if leb 200 r.code && ltb r.code 300
    then ok (non_empty r.message_id)
    else if r.code == 429
    then err transient
    else if leb 400 r.code && ltb r.code 500
    then err permanent
    else err transient

module _ {Body : Type 0} where
  unfoldable pub deliver : Fault → Reply → Outbound → M Body (Result (Option Str))
  deliver fine r o w = (classify r, record w { posts = w.posts ++ o ∷ [] })
  deliver lost_before r o w = (err transient, w)
  deliver lost_after r o w = (err transient, record w { posts = w.posts ++ o ∷ [] })
  deliver refused r o w = (err unexpected, w)

module _ {Body : Type 0} (env : ℕ → Turn) where
  unfoldable pub post : Envelope → M Body (Result (Option Str))
  unfolding deliver arrive outbound_of
  post e w = let t = env w.tick in deliver t.fault t.reply (outbound_of e) (arrive env w)
