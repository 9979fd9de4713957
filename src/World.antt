-- ===== src/World.antt =====
-- What a handler of the program acts on, and how it calls out of its process. A call takes a turn of
-- the environment, which says what the other processes committed before it (any statements of
-- internal/db), the time, whether the call fails, and what a remote party answers. A failed call may
-- have taken effect all the same.
pub mod Evolves
pub mod Quiet
use notify_stream.Prelude.{ℕ, suc, Bool, Option, List, Str, ◌∷◌, [], ◌++◌}
use notify_stream.Domain.Types.{Status}
use notify_stream.Amqp.Publish.{Message}
use notify_stream.Delivery.Outbound.{Outbound}
use notify_stream.Db.Tables.{Tables}
use notify_stream.Db.Change.{Change, run}

-- A call that fails is lost before or after it took effect. `refused` is an error on the caller's own
-- side, such as a malformed URL.
pub data Fault : Type 0 where
  fine lost_before lost_after refused : Fault

-- The status code of a response, and the `messageId` of its body, if that is JSON.
pub record Reply : Type 0 where
  pub code : ℕ
  pub message_id : Option Str

pub record Turn : Type 0 where
  pub fault : Fault
  pub others : List (Change × ℕ)
  pub now : ℕ
  pub uuid : ℕ
  pub done : Bool
  pub reply : Reply

-- A status event of `emitStatus`.
pub record Event : Type 0 where
  pub notification_id : ℕ
  pub status : Status
  pub batch_id : Option ℕ
  pub correlation_id : Option Str

-- The tables, the messages on the topic exchange, the status events, the requests that the provider
-- received, and the turns taken.
pub record World (Body : Type 0) : Type 0 where
  pub tables : Tables
  pub published : List (Message Body)
  pub events : List Event
  pub posts : List Outbound
  pub tick : ℕ

pub data Error : Type 0 where
  db_error no_rows unique_violation bad_state amqp_error bad_message transient permanent unexpected
        requeue context_done :
      Error

pub data Result {ℓ} (A : Type ℓ) : Type ℓ where
  ok : A → Result A
  err : Error → Result A

abbrev pub M : Type 0 → Type 0 → Type 0
M Body A = World Body → A × World Body

module _ {Body A : Type 0} where
  abbrev pub pure : A → M Body A
  pure a w = (a, w)

module _ {Body A B : Type 0} where
  infixl 5 ◌>>=◌ ◌>>◌
  abbrev pub ◌>>=◌ : M Body A → (A → M Body B) → M Body B
  ◌>>=◌ m f w = let (a, w') = m w in f a w'

  abbrev pub ◌>>◌ : M Body A → M Body B → M Body B
  m >> n = m >>= λ _. n

module _ {Body : Type 0} (env : ℕ → Turn) where
  -- The other processes act, and the turn is over.
  unfoldable pub arrive : World Body → World Body
  arrive w = record w { tables = run (env w.tick).others w.tables; tick = suc w.tick }

  -- A question to a context: is it done? Time passes in a `select` with a timer.
  unfoldable pub ask_done : M Body Bool
  unfolding arrive
  ask_done w = ((env w.tick).done, arrive w)
