-- ===== src/Amqp/Connection/Owned.antt =====
-- Any methods of a client, one after the other.
use notify_stream.Prelude.{ℕ, ◌≡◌, refl, Option, none, some, List, [], ◌∷◌, Str, All}
use notify_stream.Domain.Types.{Channel}
use notify_stream.Amqp.Topology.{queue_by_channel}
use notify_stream.Amqp.Connection.{
  Call, Net, Client, new_client, no_net, live_conn, N, pure, ◌>>=◌, ◌>>◌, calls, connect,
  close_client, on_queue, ask_context, ping, consume_status, consume_channel,
}
use notify_stream.Amqp.Connection.Within.{Within, next-Within, calls-Within}
use notify_stream.Amqp.Connection.Kept.{
  one_of, IsKept, client_after, connect-Connects, close_client-Within, on_conn-Within,
}

-- The methods; a consumer loop makes one call for each delivery, up to the first that fails.
pub data Method : Type 0 where
  connects closes pings : Method
  reads_status : List ℕ → Method
  reads : Channel → List ℕ → Method

module _ (env : ℕ → Call) where
  unfoldable pub run_method : Method → Client → N Client
  unfolding connect close_client ping consume_status consume_channel calls
  run_method connects c = do r ← connect env c; pure (client_after c r)
  run_method closes c = do r ← close_client env c; pure r.1
  run_method pings c = do ping env c; pure c
  run_method (reads_status ds) c = do consume_status env (calls env ds) c; pure c
  run_method (reads ch ds) c = do consume_channel env ch (calls env ds) c; pure c

  unfoldable pub run_methods : List Method → Client → N Client
  unfolding run_method
  run_methods [] c = pure c
  run_methods (m ∷ ms) c = do c' ← run_method m c; run_methods ms c'

  ask_context-Within :
      (ks : List ℕ) (hs : List (ℕ × ℕ)) (n : Net)
      → Within ks hs n
      → Within ks hs (ask_context env n).1
  unfolding ask_context
  ask_context-Within ks hs n w = next-Within env ks hs n w

  on_queue-Within :
      (ds : List ℕ) (q : Option Str) (o : Option ℕ) (ks : List ℕ) (hs : List (ℕ × ℕ)) (n : Net)
      → Within ks hs n
      → Within ks hs (on_queue env (calls env ds) q o n).1
  unfolding on_queue
  on_queue-Within ds q none ks hs n w = w
  on_queue-Within ds none (some k) ks hs n w = w
  on_queue-Within ds (some q) (some k) ks hs n w =
      on_conn-Within env ks hs (1 ∷ 2 ∷ []) (calls env ds) (calls-Within env ds ks) (some k) n w

  run_method-IsKept :
      (m : Method) (c : Client) (n : Net)
      → IsKept c n
      → IsKept (run_method m c n).0 (run_method m c n).1
  unfolding run_method ping consume_status consume_channel
  run_method-IsKept connects c n w = connect-Connects env c n w
  run_method-IsKept closes c n w = close_client-Within env c n w
  run_method-IsKept pings c n w =
      on_conn-Within env (one_of c.conn) (one_of c.ch) [] (ask_context env)
        (ask_context-Within (one_of c.conn)) (live_conn c.conn n) n w
  run_method-IsKept (reads_status ds) c n w =
      on_conn-Within env (one_of c.conn) (one_of c.ch) (1 ∷ 2 ∷ 3 ∷ []) (calls env ds)
        (calls-Within env ds (one_of c.conn)) (live_conn c.conn n) n w
  run_method-IsKept (reads ch ds) c n w =
      on_queue-Within ds (queue_by_channel ch) (live_conn c.conn n) (one_of c.conn) (one_of c.ch) n
        w

  run_methods-IsKept :
      (ms : List Method) (c : Client) (n : Net)
      → IsKept c n
      → IsKept (run_methods ms c n).0 (run_methods ms c n).1
  unfolding run_methods
  run_methods-IsKept [] c n w = w
  run_methods-IsKept (m ∷ ms) c n w =
      run_methods-IsKept ms (run_method m c n).0 (run_method m c n).1 (run_method-IsKept m c n w)

  nothing : {A : Type 0} (P : A → Type 0) (xs : List A) → ((x : A) → P x → ⊥) → All P xs → xs ≡ []
  nothing P [] f h = refl
  nothing P (x ∷ xs) f (px, h) = absurd (f x px)

  -- From a new client on, whatever methods were called and whatever failed or was lost: every open
  -- connection and every open channel is the client's own, and closing the client leaves nothing open.
  pub run_methods_owned :
      (ms : List Method)
      → let (c, n) = run_methods ms new_client no_net in
        let n' = (close_client env c n).1 in IsKept c n × (n'.conns ≡ []) × (n'.chans ≡ [])
  run_methods_owned ms =
      let (c, n) = run_methods ms new_client no_net in
      let w = run_methods-IsKept ms new_client no_net (record { conns = tt; chans = tt }) in
      let v = close_client-Within env c n w in
      (w, nothing _ _ (λ k i. i) v.conns, nothing _ _ (λ h (i, o). i) v.chans)
