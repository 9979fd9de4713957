-- ===== src/Amqp/Trace.antt =====
-- `ExtractTraceCtx` of internal/amqp/amqp.go. A `propagation.MapCarrier` is a function of the key, and
-- `extract` is the `Extract` of the propagator.
pub mod Carried
use notify_stream.Prelude.{Option, none, some, [], ◌∷◌, Str, ◌>>=◌}
use notify_stream.Amqp.Headers.{Field, Table, field_string, field_bytes, lookup}

abbrev pub Carrier : Type 0
Carrier = Str → Option Str

-- The `switch` on the type of a header.
unfoldable pub text_of : Field → Option Str
text_of (field_string s) = some s
text_of (field_bytes s) = some s
text_of _ = none

unfoldable pub carrier : Table → Carrier
unfolding lookup text_of
carrier h k = do v ← lookup k h; text_of v

unfoldable pub extract_trace_ctx : {Ctx : Type 0} → (Ctx → Carrier → Ctx) → Ctx → Table → Ctx
unfolding carrier
extract_trace_ctx extract ctx [] = ctx
extract_trace_ctx extract ctx (f ∷ h) = extract ctx (carrier (f ∷ h))
