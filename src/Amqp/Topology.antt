-- ===== src/Amqp/Topology.antt =====
-- `declareTopology` and `queueByChannel` of internal/amqp/amqp.go: the exchanges, queues and bindings
-- in the order in which they are declared. Go iterates over `queueByChannel` in no fixed order; the
-- order here is one of them.
pub mod Routing
use notify_stream.Prelude.{
  ℕ, Bool, true, false, ◌&&◌, Option, none, some, List, [], ◌∷◌, ◌++◌, map, Str, codes, str_eq,
  if◌then◌else◌,
}
use notify_stream.Domain.Types.{Channel, Priority, sms, email, push, high, normal, low}

abbrev pub exchange_topic : Str
exchange_topic = codes "notifications.topic"

abbrev pub exchange_dlx : Str
exchange_dlx = codes "notifications.dlx"

abbrev pub exchange_status : Str
exchange_status = codes "notifications.status"

abbrev pub queue_dlq : Str
queue_dlq = codes "q.notify.dlq"

abbrev pub routing_dlq : Str
routing_dlq = codes "notify.dlq"

pub data Kind : Type 0 where
  direct topic fanout : Kind

-- The queue arguments; the first two fields are the dead-letter exchange and routing key.
pub record QueueArgs : Type 0 where
  pub dead_letter_exchange : Str
  pub dead_letter_routing_key : Str
  pub max_priority : ℕ

pub data Declaration : Type 0 where
  exchange : Str → Kind → Declaration
  queue : Str → Option QueueArgs → Declaration
  bind : Str → Str → Str → Declaration

unfoldable pub queue_by_channel : Channel → Option Str
queue_by_channel ch =
    if str_eq ch sms
    then some (codes "q.notify.sms")
    else if str_eq ch email
    then some (codes "q.notify.email")
    else if str_eq ch push
    then some (codes "q.notify.push")
    else none

abbrev pub queues : List (Channel × Str)
queues =
    (sms, codes "q.notify.sms")
    ∷ (email, codes "q.notify.email")
    ∷ (push, codes "q.notify.push")
    ∷ []

abbrev pub priorities : List Priority
priorities = high ∷ normal ∷ low ∷ []

-- `fmt.Sprintf("notify.%s.%s", …)`
abbrev pub routing_key : Channel → Priority → Str
routing_key ch pri = codes "notify." ++ (ch ++ codes "." ++ pri)

unfoldable pub work_args : QueueArgs
work_args = record {
  dead_letter_exchange = exchange_dlx;
  dead_letter_routing_key = routing_dlq;
  max_priority = 10;
}

unfoldable pub declare_queues : List (Channel × Str) → List Declaration
unfolding work_args
declare_queues [] = []
declare_queues ((ch, q) ∷ qs) = queue q (some work_args) ∷ declare_queues qs

unfoldable pub bind_priorities : Channel → Str → List Priority → List Declaration
bind_priorities ch q [] = []
bind_priorities ch q (p ∷ ps) = bind q (routing_key ch p) exchange_topic ∷ bind_priorities ch q ps

unfoldable pub bind_queues : List (Channel × Str) → List Declaration
unfolding bind_priorities
bind_queues [] = []
bind_queues ((ch, q) ∷ qs) = bind_priorities ch q priorities ++ bind_queues qs

unfoldable pub topology : List Declaration
unfolding declare_queues bind_queues
topology =
    exchange exchange_dlx direct
      ∷ queue queue_dlq none
      ∷ bind queue_dlq routing_dlq exchange_dlx
      ∷ exchange exchange_topic topic
      ∷ exchange exchange_status fanout
      ∷ declare_queues queues
    ++ bind_queues queues

-- The loop over the declarations stops at the first one that the broker refuses; the result tells
-- whether all were made.
unfoldable pub declare : (Declaration → Bool) → List Declaration → List Declaration × Bool
declare accepts [] = ([], true)
declare accepts (d ∷ ds) =
    let rest = declare accepts ds in
    elim (accepts d) [ true ↦ (d ∷ rest.0, rest.1) | false ↦ ([], false) ]

unfoldable pub declare_topology : (Declaration → Bool) → List Declaration × Bool
unfolding declare topology
declare_topology accepts = declare accepts topology

-- The queues that are bound to an exchange by this very key.
unfoldable pub bound_queues : List Declaration → Str → Str → List Str
bound_queues [] ex key = []
bound_queues (exchange n k ∷ ds) ex key = bound_queues ds ex key
bound_queues (queue q a ∷ ds) ex key = bound_queues ds ex key
bound_queues (bind q k e ∷ ds) ex key =
    let rest = bound_queues ds ex key in
    elim (str_eq e ex && str_eq k key) [ true ↦ q ∷ rest | false ↦ rest ]
