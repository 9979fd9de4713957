-- ===== src/Amqp/Topology/Routing.antt =====
-- A published notification reaches the queue of its channel, and no other.
use notify_stream.Prelude.{
  ◌≡◌, ◌⊎◌, refl, true, ◌||◌, some, List, [], ◌∷◌, Str, str_eq, str_eq_iff, is_empty, arith, inl,
  inr, sym, codes,
}
use mathlib.Core.Path.{subst}
use notify_stream.Amqp.Publish.{Wire, Message, message_of, or_normal}
use notify_stream.Domain.Types.{
  Notification, Channel, Priority, sms, email, push, high, normal, low, is_channel, is_priority,
}
use notify_stream.Amqp.Topology.{
  exchange_topic, routing_key, queue_by_channel, topology, bound_queues,
}

-- The queue of a channel is the one queue bound to the topic exchange by a key.
abbrev pub RoutedTo : Channel → Str → Type 0
RoutedTo ch key =
    (q : Str) × (queue_by_channel ch ≡ some q) × (bound_queues topology exchange_topic key ≡ q ∷ [])

channel-cases : (c : Channel) → is_channel c ≡ true → (c ≡ sms) ⊎ ((c ≡ email) ⊎ (c ≡ push))
unfolding is_channel
channel-cases c h = ground (arith, str_eq_iff c sms, str_eq_iff c email, str_eq_iff c push)

priority-cases : (p : Priority) → is_priority p ≡ true → (p ≡ high) ⊎ ((p ≡ normal) ⊎ (p ≡ low))
unfolding is_priority
priority-cases p h = ground (arith, str_eq_iff p high, str_eq_iff p normal, str_eq_iff p low)

-- The constant channels with the queue of each, under every constant priority.
abbrev Routed : Channel → Str → Type 0
Routed c q =
    (queue_by_channel c ≡ some q)
    × (bound_queues topology exchange_topic (routing_key c high) ≡ q ∷ [])
    × (bound_queues topology exchange_topic (routing_key c normal) ≡ q ∷ [])
    × (bound_queues topology exchange_topic (routing_key c low) ≡ q ∷ [])

sms-Routed : Routed sms (codes "q.notify.sms")
unfolding queue_by_channel topology bound_queues str_eq
sms-Routed = (refl, refl, refl, refl)

email-Routed : Routed email (codes "q.notify.email")
unfolding queue_by_channel topology bound_queues str_eq
email-Routed = (refl, refl, refl, refl)

push-Routed : Routed push (codes "q.notify.push")
unfolding queue_by_channel topology bound_queues str_eq
push-Routed = (refl, refl, refl, refl)

Routed-priority :
    (c : Channel) (p : Priority) {q : Str}
    → Routed c q
    → (p ≡ high) ⊎ ((p ≡ normal) ⊎ (p ≡ low))
    → RoutedTo c (routing_key c p)
Routed-priority c p {q} (e, h, n, l) (inl f) =
    subst (λ x. RoutedTo c (routing_key c x)) (sym f) (q, e, h)
Routed-priority c p {q} (e, h, n, l) (inr (inl f)) =
    subst (λ x. RoutedTo c (routing_key c x)) (sym f) (q, e, n)
Routed-priority c p {q} (e, h, n, l) (inr (inr f)) =
    subst (λ x. RoutedTo c (routing_key c x)) (sym f) (q, e, l)

Routed-channel : (c : Channel) → (c ≡ sms) ⊎ ((c ≡ email) ⊎ (c ≡ push)) → (q : Str) × Routed c q
Routed-channel c (inl e) = subst (λ x. (q : Str) × Routed x q) (sym e) (_, sms-Routed)
Routed-channel c (inr (inl e)) = subst (λ x. (q : Str) × Routed x q) (sym e) (_, email-Routed)
Routed-channel c (inr (inr e)) = subst (λ x. (q : Str) × Routed x q) (sym e) (_, push-Routed)

or_normal-cases :
    (p : Priority)
    → is_priority p || is_empty p ≡ true
    → (or_normal p ≡ high) ⊎ ((or_normal p ≡ normal) ⊎ (or_normal p ≡ low))
unfolding or_normal
or_normal-cases [] h = inr (inl refl)
or_normal-cases (c ∷ p) h = priority-cases (c ∷ p) (ground arith)

key-message_of :
    (wire : Wire) (mc : List (Str × Str)) (n : Notification) {m : Message wire.Body}
    → message_of wire mc n ≡ some m
    → m.routing_key ≡ routing_key n.channel (or_normal n.priority)
unfolding message_of
key-message_of wire mc n e = ground arith

-- A notification on a known channel, of a known priority or of none, is published with a routing key
-- that exactly one queue is bound by: the queue that `Consume` reads for this channel.
pub message_of-RoutedTo :
    (wire : Wire) (mc : List (Str × Str)) (n : Notification) {m : Message wire.Body}
    → is_channel n.channel ≡ true
    → is_priority n.priority || is_empty n.priority ≡ true
    → message_of wire mc n ≡ some m
    → RoutedTo n.channel m.routing_key
message_of-RoutedTo wire mc n c p e =
    let (q, routed) = Routed-channel n.channel (channel-cases n.channel c) in
    subst (λ k. RoutedTo n.channel k) (sym (key-message_of wire mc n e))
      (Routed-priority n.channel (or_normal n.priority) routed (or_normal-cases n.priority p))
