-- ===== src/Amqp/Trace/Carried.antt =====
-- What the publisher injects is what the consumer extracts.
use notify_stream.Prelude.{
  ◌≡◌, ◌≢◌, refl, sym, ap, ◌∙◌, Bool-cases, inl, inr, Option, none, some, List, [], ◌∷◌, Str,
  str_eq, str_eq_iff, arith, if◌then◌else◌,
}
use notify_stream.Domain.Types.{Notification}
use notify_stream.Amqp.Headers.{
  Table, field_string, header_retry, lookup, insert, clone_headers, republish_headers,
}
use notify_stream.Amqp.Headers.Retry.{lookup-insert, lookup-clone_headers}
use notify_stream.Amqp.Publish.{Wire, Message, add_trace, correlation_headers, message_of}
use notify_stream.Amqp.Trace.{carrier, text_of}

-- The value of a key that the propagator injected.
abbrev pub injected : Str → List (Str × Str) → Option Str
injected k [] = none
injected k ((j, v) ∷ mc) = if str_eq j k then some v else injected k mc

-- The keys of a Go map are unique.
abbrev pub HasUniqueTraceKeys : List (Str × Str) → Type 0
HasUniqueTraceKeys [] = Unit
HasUniqueTraceKeys ((j, v) ∷ mc) = (injected j mc ≡ none) × HasUniqueTraceKeys mc

-- A key that is not injected keeps its header.
pub lookup-kept :
    (mc : List (Str × Str)) (k : Str) (h : Table)
    → injected k mc ≡ none
    → lookup k (add_trace mc h) ≡ lookup k h
unfolding add_trace
lookup-kept [] k h e = refl
lookup-kept ((j, v) ∷ mc) k h e = elim (Bool-cases (str_eq j k)) [
  | inl same ↦ absurd (let f = (rw same at e) in cc)
  | inr other ↦
      lookup-kept mc k (insert j (field_string v) h) (rw other at e)
      ∙ lookup-insert j k (field_string v) h
      ∙ rw other refl
]

some_inj : {A : Type 0} {a b : A} → some a ≡ some b → a ≡ b
some_inj {A} {a} {b} e = cc

lookup-add_trace :
    (mc : List (Str × Str)) (k v : Str) (h : Table)
    → HasUniqueTraceKeys mc
    → injected k mc ≡ some v
    → lookup k (add_trace mc h) ≡ some (field_string v)
unfolding add_trace
lookup-add_trace [] k v h u e = absurd (cc)
lookup-add_trace ((j, w) ∷ mc) k v h (new, u) e = elim (Bool-cases (str_eq j k)) [
  | inl same ↦
      let there : j ≡ k = (str_eq_iff j k).0 same in
      let value : w ≡ v = some_inj (rw same at e) in
      lookup-kept mc k (insert j (field_string w) h) (ap (λ i. injected i mc) (sym there) ∙ new)
      ∙ lookup-insert j k (field_string w) h
      ∙ rw same (ap (λ x. some (field_string x)) value)
  | inr other ↦ lookup-add_trace mc k v (insert j (field_string w) h) u (rw other at e)
]

lookup-republish_headers :
    (h : Table) (k : Str) → k ≢ header_retry → lookup k (republish_headers h) ≡ lookup k h
unfolding republish_headers
lookup-republish_headers h k ne =
    rw lookup-insert (ground (arith, str_eq_iff header_retry k, lookup-clone_headers h k))

carrier_of_text :
    (h : Table) (k v : Str) → lookup k h ≡ some (field_string v) → carrier h k ≡ some v
unfolding carrier text_of
carrier_of_text h k v e = rw e refl

pub headers-message_of :
    (wire : Wire) (mc : List (Str × Str)) (n : Notification) {m : Message wire.Body}
    → message_of wire mc n ≡ some m
    → m.headers ≡ add_trace mc (correlation_headers n.correlation_id [])
unfolding message_of
headers-message_of wire mc n e = ground arith

module _ (wire : Wire) (mc : List (Str × Str)) where
  -- A text that the propagator injects into a message is what the consumer of the message finds under
  -- its key, and what the consumer finds after the message was published again for a retry, unless the
  -- key is that of the retry count.
  pub message_of-carrier :
      (n : Notification) (k v : Str) {m : Message wire.Body}
      → HasUniqueTraceKeys mc
      → injected k mc ≡ some v
      → k ≢ header_retry
      → message_of wire mc n ≡ some m
      → (carrier m.headers k ≡ some v)
        × (carrier (republish_headers (clone_headers m.headers)) k ≡ some v)
  message_of-carrier n k v {m} u e ne msg =
      let found : lookup k m.headers ≡ some (field_string v) =
        ap (lookup k) (headers-message_of wire mc n msg)
        ∙ lookup-add_trace mc k v (correlation_headers n.correlation_id []) u e in
      let again =
        lookup-republish_headers (clone_headers m.headers) k ne
        ∙ lookup-clone_headers m.headers k
        ∙ found in
      (
        carrier_of_text m.headers k v found,
        carrier_of_text (republish_headers (clone_headers m.headers)) k v again,
      )
