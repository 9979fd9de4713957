-- ===== src/Worker/Handle/Fate.antt =====
-- What the provider's answer and the retry count make of a delivery, and of its row.
use notify_stream.Prelude.{
  ℕ, ◌≡◌, Bool, true, false, ◌&&◌, List, [], ◌∷◌, not, arith, leb, ltb, ◌==◌, if◌then◌else◌,
}
use notify_stream.Prelude.Int.{ℤ, pos, ltb_ℤ}
use notify_stream.Domain.Types.{Notification, Status, sending, delivered, failed}
use notify_stream.Amqp.Headers.{clone_headers, republish_headers}
use notify_stream.Amqp.Publish.{Message}
use notify_stream.Delivery.Outbound.{non_empty}
use notify_stream.Delivery.Webhook.{classify}
use notify_stream.World.{Reply, Event, ok, err, transient, permanent}
use notify_stream.Worker.Handle.Quiet.{event_of}

pub data Fate : Type 0 where
  delivers fails retries : Fate

-- A 2xx answer delivers; another 4xx than 429 fails; anything else is retried until five retries are
-- spent, and then fails.
unfoldable pub fate : ℕ → ℤ → Fate
fate code rc =
    if leb 200 code && ltb code 300
    then delivers
    else if leb 400 code && ltb code 500 && not (code == 429)
    then fails
    else if ltb_ℤ rc (pos 5)
    then retries
    else fails

abbrev pub status_after : Fate → Status
status_after delivers = delivered
status_after fails = failed
status_after retries = sending

-- The status event of a fate.
abbrev pub events_after : Notification → Fate → List Event
events_after n delivers = event_of n delivered ∷ []
events_after n fails = event_of n failed ∷ []
events_after n retries = []

-- The delivery that is published again: the same, with the next retry count.
abbrev pub next_delivery : {Body : Type 0} → Message Body → Message Body
next_delivery d = record d { headers = republish_headers (clone_headers d.headers) }

abbrev pub messages_after : {Body : Type 0} → Message Body → Fate → List (Message Body)
messages_after d delivers = []
messages_after d fails = []
messages_after d retries = next_delivery d ∷ []

abbrev pub is_good : ℕ → Bool
is_good code = leb 200 code && ltb code 300

abbrev pub is_client : ℕ → Bool
is_client code = leb 400 code && ltb code 500 && not (code == 429)

pub classify_good : (r : Reply) → is_good r.code ≡ true → classify r ≡ ok (non_empty r.message_id)
unfolding classify
classify_good r h = rw h

pub fate_good : (code : ℕ) (rc : ℤ) → is_good code ≡ true → fate code rc ≡ delivers
unfolding fate
fate_good code rc h = rw h

pub classify_client :
    (r : Reply) → is_good r.code ≡ false → is_client r.code ≡ true → classify r ≡ err permanent
unfolding classify
classify_client r b h = ground arith

pub fate_client :
    (code : ℕ) (rc : ℤ) → is_good code ≡ false → is_client code ≡ true → fate code rc ≡ fails
unfolding fate
fate_client code rc b h = rw (b, h)

pub classify_other :
    (r : Reply) → is_good r.code ≡ false → is_client r.code ≡ false → classify r ≡ err transient
unfolding classify
classify_other r b h = ground arith

pub fate_other :
    (code : ℕ) (rc : ℤ)
    → is_good code ≡ false
    → is_client code ≡ false
    → fate code rc ≡ (if ltb_ℤ rc (pos 5) then retries else fails)
unfolding fate
fate_other code rc b h = rw (b, h)
