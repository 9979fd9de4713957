-- ===== src/Amqp/Connection/Kept.antt =====
-- What is open belongs to the client.
use notify_stream.Prelude.{
  ℕ, Bool, true, false, ◌≡◌, ==_iff, refl, inl, inr, Bool-cases, Option, none, some, List, [], ◌∷◌,
  IsIn, All,
}
use notify_stream.Amqp.Topology.{topology}
use notify_stream.Amqp.Connection.{
  Call, Net, Client, contains, live_conn, Ended, ended, N, next, call, dial, open_chan, calls,
  set_up, after_topology, opened, dialled, connect_unless, connect, close_ch, close_conn,
  close_client, run_loop, on_chan, on_conn,
}
use notify_stream.Amqp.Connection.Within.{
  Within, weaken, none_open, next-Within, drop_conn-Within, drop_chan-Within, calls-Within,
  IsDialled, dial-IsDialled, IsOpened, open_chan-IsOpened,
}

abbrev pub one_of : {A : Type 0} → Option A → List A
one_of none = []
one_of (some a) = a ∷ []

-- Every connection that is open is the client's, and every channel.
abbrev pub IsKept : Client → Net → Type 0
IsKept c n = Within (one_of c.conn) (one_of c.ch) n

-- The client after `Connect`.
abbrev pub client_after : Client → Ended Client → Client
client_after c (ended c') = c'
client_after c _ = c

abbrev pub Connects : Client → Ended Client × Net → Type 0
Connects c (r, n) = IsKept (client_after c r) n

module _ (env : ℕ → Call) (c : Client) where
  set_up-Connects :
      (k : ℕ) (h : ℕ × ℕ) (r : Bool) (n : Net)
      → Within (k ∷ []) (h ∷ []) n
      → Connects c (set_up env k h r n)
  unfolding set_up
  set_up-Connects k h true n w = w
  set_up-Connects k h false n w =
      weaken (one_of c.conn) (one_of c.ch) _
        (drop_conn-Within env k _ (drop_chan-Within env h (k ∷ []) [] n w))

  qos-Connects :
      (k : ℕ) (h : ℕ × ℕ) (r : Bool) (n : Net)
      → Within (k ∷ []) (h ∷ []) n
      → Connects c (after_topology env k h r n)
  unfolding after_topology call
  qos-Connects k h true n w =
      set_up-Connects k h (env n.tick).works (next env n) (next-Within env (k ∷ []) (h ∷ []) n w)
  qos-Connects k h false n w = set_up-Connects k h false n w

  opened-Connects :
      (k : ℕ) (r : Option (ℕ × ℕ)) (n : Net)
      → IsOpened env (k ∷ []) [] r n
      → Connects c (opened env k r n)
  unfolding opened
  opened-Connects k none n w = weaken (one_of c.conn) (one_of c.ch) _ (drop_conn-Within env k n w)
  opened-Connects k (some h) n w =
      qos-Connects k h (calls env topology n).0 (calls env topology n).1
        (calls-Within env topology (k ∷ []) (h ∷ []) n w)

  dialled-Connects : (r : Option ℕ) (n : Net) → IsDialled env r n → Connects c (dialled env r n)
  unfolding dialled
  dialled-Connects none n w = weaken (one_of c.conn) (one_of c.ch) n w
  dialled-Connects (some k) n w =
      opened-Connects k (open_chan env k n).0 (open_chan env k n).1
        (open_chan-IsOpened env k (k ∷ []) [] n w)

-- A client without a live connection has nothing open.
contains_first :
    (k : ℕ) (m : ℕ) (ms : List ℕ) → All (λ l. IsIn l (k ∷ [])) (m ∷ ms) → contains k (m ∷ ms) ≡ true
contains_first k m ms (inl e, h) = rw ((==_iff m k).1 e) refl
contains_first k m ms (inr i, h) = absurd i

none_left :
    (k : ℕ) (ms : List ℕ)
    → contains k ms ≡ false
    → All (λ l. IsIn l (k ∷ [])) ms
    → All (λ l. IsIn l []) ms
none_left k [] e w = tt
none_left k (m ∷ ms) e w = absurd (cc (e, contains_first k m ms w))

not_live :
    (o : Option ℕ) (hs : List (ℕ × ℕ)) (n : Net)
    → live_conn o n ≡ none
    → Within (one_of o) hs n
    → Within [] [] n
unfolding live_conn
not_live none hs n e w = none_open hs n w
not_live (some k) hs n e w = none_open hs n (record {
  conns =
      none_left k n.conns
        (elim (Bool-cases (contains k n.conns)) [
          | inl on ↦ absurd (let f = (rw on at e) in cc)
          | inr off ↦ off
        ])
        w.conns;
  chans = w.chans;
})

module _ (env : ℕ → Call) where
  connect_unless-Connects :
      (c : Client) (o : Option ℕ) (n : Net)
      → live_conn c.conn n ≡ o
      → IsKept c n
      → Connects c (connect_unless env c o n)
  unfolding connect_unless
  connect_unless-Connects c (some k) n e w = w
  connect_unless-Connects c none n e w =
      dialled-Connects env c (dial env n).0 (dial env n).1
        (dial-IsDialled env n (not_live c.conn (one_of c.ch) n e w))

  pub connect-Connects : (c : Client) (n : Net) → IsKept c n → Connects c (connect env c n)
  unfolding connect
  connect-Connects c n w = connect_unless-Connects c (live_conn c.conn n) n refl w

  close_ch-Within :
      (o : Option (ℕ × ℕ)) (ks : List ℕ) (n : Net)
      → Within ks (one_of o) n
      → Within ks [] (close_ch env o n).1
  unfolding close_ch
  close_ch-Within none ks n w = w
  close_ch-Within (some h) ks n w = drop_chan-Within env h ks [] n w

  close_conn-Within :
      (o : Option ℕ) (n : Net) → Within (one_of o) [] n → Within [] [] (close_conn env o n).1
  unfolding close_conn
  close_conn-Within none n w = w
  close_conn-Within (some k) n w = drop_conn-Within env k n w

  pub close_client-Within :
      (c : Client) (n : Net) → IsKept c n → Within [] [] (close_client env c n).1
  unfolding close_client
  close_client-Within c n w =
      close_conn-Within c.conn (close_ch env c.ch n).1 (close_ch-Within c.ch (one_of c.conn) n w)

  module _ (ks : List ℕ) (hs : List (ℕ × ℕ)) {A : Type 0} (set_up_calls : List ℕ) (loop : N A)
      (holds : (gs : List (ℕ × ℕ)) (n : Net) → Within ks gs n → Within ks gs (loop n).1) where
    run_loop-Within :
        (gs : List (ℕ × ℕ)) (r : Bool) (n : Net)
        → Within ks gs n
        → Within ks gs (run_loop env loop r n).1
    unfolding run_loop
    run_loop-Within gs true n w = holds gs n w
    run_loop-Within gs false n w = w

    on_chan-Within :
        (r : Option (ℕ × ℕ)) (n : Net)
        → IsOpened env ks hs r n
        → Within ks hs (on_chan env set_up_calls loop r n).1
    unfolding on_chan
    on_chan-Within none n w = w
    on_chan-Within (some h) n w = drop_chan-Within env h ks hs _ (
        run_loop-Within (h ∷ hs) (calls env set_up_calls n).0 (calls env set_up_calls n).1
          (calls-Within env set_up_calls ks (h ∷ hs) n w))

    pub on_conn-Within :
        (o : Option ℕ) (n : Net)
        → Within ks hs n
        → Within ks hs (on_conn env set_up_calls loop o n).1
    unfolding on_conn
    on_conn-Within none n w = w
    on_conn-Within (some k) n w =
        on_chan-Within (open_chan env k n).0 (open_chan env k n).1
          (open_chan-IsOpened env k ks hs n w)
