-- ===== src/Amqp/Client/Consume/Settled.antt =====
-- Every delivery that the broker hands out is settled.
use notify_stream.Prelude.{ℕ, suc, ◌≡◌, refl, ap, false, List, [], ◌∷◌, length}
use notify_stream.Amqp.Publish.{Message}
use notify_stream.Amqp.Client.Consume.{
  Verdict, acked, requeued, dropped, ack_lost, settle, handled, taken, consume,
}
use notify_stream.World.{fine, Turn, World, amqp_error, Result, M, ask_done, arrive}
use notify_stream.World.Quiet.{IsQuiet}

kept : (v : Verdict) → ack_lost v fine ≡ false
unfolding ack_lost
kept acked = refl
kept requeued = refl
kept dropped = refl

module _ {Body : Type 0} (env : ℕ → Turn) (q : IsQuiet env) (judge : Result (Unit {0}) → Verdict)
    (handler : Message Body → M Body (Result (Unit {0}))) where
  -- While the context runs and the broker can be reached, whatever the handler returns, the loop gives
  -- every delivery one verdict and ends only when the broker closes the channel.
  pub consume-length :
      (ds : List (Message Body)) (w : World Body)
      → let ((vs, e), w') = consume env judge handler ds w in
        (length vs ≡ length ds) × (e ≡ amqp_error)
  unfolding consume ask_done taken handled settle
  consume-length [] w = (refl, refl)
  consume-length (d ∷ ds) w =
      let w1 : World Body = arrive env w in
      let (r, w2) = handler d w1 in
      let (n, e) = consume-length ds (arrive env w2) in
      rw (q.running w.tick, q.works w2.tick, kept (judge r)) (ap suc n, e)
