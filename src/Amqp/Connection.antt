-- ===== src/Amqp/Connection.antt =====
-- `Connect`, `Close`, `Ping` and the channels of `Consume` and `ConsumeStatus`, internal/amqp/amqp.go:
-- which connections and channels are open. Each call of the client library takes a turn, which says
-- which connections were lost before it, whether it works, and the number of what it opens. A
-- connection that is lost or closed takes its channels with it, and a call that closes something leaves
-- it closed even if it reports an error.
pub mod Within
pub mod Kept
pub mod Owned
use notify_stream.Prelude.{
  ℕ, suc, Bool, true, false, not, ◌&&◌, ◌||◌, ◌==◌, Option, none, some, List, [], ◌∷◌, Str,
  if◌then◌else◌, is_some,
}
use notify_stream.Prelude.Sort.{filter}
use notify_stream.Domain.Types.{Channel}
use notify_stream.Amqp.Topology.{topology, queue_by_channel}

pub record Call : Type 0 where
  pub works : Bool
  pub made : ℕ
  pub lost : List ℕ
  pub done : Bool

-- The connections that are open, the channels with their connections, and the turns taken.
pub record Net : Type 0 where
  pub conns : List ℕ
  pub chans : List (ℕ × ℕ)
  pub tick : ℕ

-- `c.conn` and `c.ch`.
pub record Client : Type 0 where
  pub conn : Option ℕ
  pub ch : Option (ℕ × ℕ)

abbrev pub new_client : Client
new_client = record { conn = none; ch = none }

abbrev pub no_net : Net
no_net = record { conns = []; chans = []; tick = 0 }

abbrev pub contains : ℕ → List ℕ → Bool
contains k [] = false
contains k (m ∷ ms) = m == k || contains k ms

-- Connections are closed, with their channels.
unfoldable pub close_conns : List ℕ → Net → Net
unfolding filter
close_conns ks n = record n {
  conns = filter (λ c. not (contains c ks)) n.conns;
  chans = filter (λ h. not (contains h.0 ks)) n.chans;
}

unfoldable pub close_chan : ℕ × ℕ → Net → Net
unfolding filter
close_chan (k, c) n = record n { chans = filter (λ h. not (h.0 == k && h.1 == c)) n.chans }

-- `conn != nil && !conn.IsClosed()`
unfoldable pub live_conn : Option ℕ → Net → Option ℕ
live_conn none n = none
live_conn (some k) n = if contains k n.conns then some k else none

-- How a method ends.
pub data Ended (A : Type 0) : Type 0 where
  not_connected unknown_queue call_failed : Ended A
  ended : A → Ended A

abbrev pub N : Type 0 → Type 0
N A = Net → A × Net

module _ {A : Type 0} where
  abbrev pub pure : A → N A
  pure a n = (a, n)

module _ {A B : Type 0} where
  infixl 5 ◌>>=◌ ◌>>◌
  abbrev pub ◌>>=◌ : N A → (A → N B) → N B
  ◌>>=◌ m f n = let (a, n') = m n in f a n'

  abbrev pub ◌>>◌ : N A → N B → N B
  m >> k = m >>= λ _. k

module _ (env : ℕ → Call) where
  unfoldable pub next : Net → Net
  unfolding close_conns
  next n = record (close_conns (env n.tick).lost n) { tick = suc n.tick }

  -- A call that opens and closes nothing.
  unfoldable pub call : N Bool
  unfolding next
  call n = ((env n.tick).works, next n)

  unfoldable pub dial : N (Option ℕ)
  unfolding next
  dial n =
      let t = env n.tick in
      let n' = next n in
      if t.works then (some t.made, record n' { conns = t.made ∷ n'.conns }) else (none, n')

  -- `conn.Channel()`, which fails on a connection that is closed.
  unfoldable pub open_chan : ℕ → N (Option (ℕ × ℕ))
  unfolding next
  open_chan k n =
      let t = env n.tick in
      let n' = next n in
      if t.works && contains k n'.conns
      then (some (k, t.made), record n' { chans = (k, t.made) ∷ n'.chans })
      else (none, n')

  -- `Close`, and whether it reports no error.
  unfoldable pub drop_chan : ℕ × ℕ → N Bool
  unfolding next close_chan
  drop_chan h n = ((env n.tick).works, close_chan h (next n))

  unfoldable pub drop_conn : ℕ → N Bool
  unfolding next close_conns
  drop_conn k n = ((env n.tick).works, close_conns (k ∷ []) (next n))

  -- Calls one after the other, up to the first that fails.
  unfoldable pub calls : {A : Type 0} → List A → N Bool
  unfolding call
  calls [] = pure true
  calls (a ∷ more) = do r ← call; if r then calls more else pure false

  -- A failure closes what was opened.
  unfoldable pub set_up : ℕ → ℕ × ℕ → Bool → N (Ended Client)
  unfolding drop_chan drop_conn
  set_up k h true = pure (ended (record { conn = some k; ch = some h }))
  set_up k h false = do drop_chan h; drop_conn k; pure call_failed

  -- `Qos`, after the topology was declared.
  unfoldable pub after_topology : ℕ → ℕ × ℕ → Bool → N (Ended Client)
  unfolding call set_up
  after_topology k h true = do q ← call; set_up k h q
  after_topology k h false = set_up k h false

  unfoldable pub opened : ℕ → Option (ℕ × ℕ) → N (Ended Client)
  unfolding drop_conn calls topology after_topology
  opened k none = do drop_conn k; pure call_failed
  opened k (some h) = do r ← calls topology; after_topology k h r

  unfoldable pub dialled : Option ℕ → N (Ended Client)
  unfolding open_chan opened
  dialled none = pure call_failed
  dialled (some k) = do h ← open_chan k; opened k h

  -- The client as it is afterwards.
  unfoldable pub connect_unless : Client → Option ℕ → N (Ended Client)
  unfolding dial dialled
  connect_unless c (some k) = pure (ended c)
  connect_unless c none = do r ← dial; dialled r

  unfoldable pub connect : Client → N (Ended Client)
  unfolding live_conn connect_unless
  connect c n = connect_unless c (live_conn c.conn n) n

  unfoldable pub close_ch : Option (ℕ × ℕ) → N Bool
  unfolding drop_chan
  close_ch none = pure true
  close_ch (some h) = drop_chan h

  unfoldable pub close_conn : Option ℕ → N Bool
  unfolding drop_conn
  close_conn none = pure true
  close_conn (some k) = drop_conn k

  -- Whether no error is reported, and the client afterwards.
  unfoldable pub close_client : Client → N (Bool × Client)
  unfolding close_ch close_conn
  close_client c = do
    no_error ← close_ch c.ch
    no_more ← close_conn c.conn
    pure (no_error && no_more, new_client)

  module _ {A : Type 0} (loop : N A) where
    unfoldable pub run_loop : Bool → N (Ended A)
    run_loop false = pure call_failed
    run_loop true = do a ← loop; pure (ended a)

  module _ {A : Type 0} (set_up_calls : List ℕ) (loop : N A) where
    -- `defer subCh.Close()`
    unfoldable pub on_chan : Option (ℕ × ℕ) → N (Ended A)
    unfolding calls run_loop drop_chan
    on_chan none = pure call_failed
    on_chan (some h) = do r ← calls set_up_calls; e ← run_loop loop r; drop_chan h; pure e

    -- A channel of its own on the connection of the client.
    unfoldable pub on_conn : Option ℕ → N (Ended A)
    unfolding open_chan on_chan
    on_conn none = pure not_connected
    on_conn (some k) = do h ← open_chan k; on_chan h

  -- Is the context done? It is an error then.
  unfoldable pub ask_context : N Bool
  unfolding next
  ask_context n = ((env n.tick).done, next n)

  unfoldable pub ping : Client → N (Ended Bool)
  unfolding live_conn on_conn ask_context
  ping c n = on_conn [] ask_context (live_conn c.conn n) n

  -- `QueueDeclare`, `QueueBind` and `Consume`; `loop` is the loop over the deliveries.
  unfoldable pub consume_status : {A : Type 0} → N A → Client → N (Ended A)
  unfolding live_conn on_conn
  consume_status loop c n = on_conn (1 ∷ 2 ∷ 3 ∷ []) loop (live_conn c.conn n) n

  -- An unknown channel has no queue; `Qos` and `Consume`.
  unfoldable pub on_queue : {A : Type 0} → N A → Option Str → Option ℕ → N (Ended A)
  unfolding on_conn
  on_queue loop q none = pure not_connected
  on_queue loop none (some k) = pure unknown_queue
  on_queue loop (some q) (some k) = on_conn (1 ∷ 2 ∷ []) loop (some k)

  unfoldable pub consume_channel : {A : Type 0} → Channel → N A → Client → N (Ended A)
  unfolding live_conn queue_by_channel on_queue
  consume_channel ch loop c n = on_queue loop (queue_by_channel ch) (live_conn c.conn n) n
