-- ===== src/Tracing.antt =====
-- `Setup` of internal/tracing/tracing.go. `url.Parse` and the exporter are libraries: what they answer
-- is a parameter. A scheme of `url.Parse` is ASCII.
use notify_stream.Prelude.{
  ℕ, ◌+◌, Bool, true, false, ◌&&◌, ◌==◌, Option, none, some, [], ◌∷◌, Str, codes, is_empty, reverse,
  map, str_eq, trim_space, leb, if◌then◌else◌,
}

pub record Url : Type 0 where
  pub scheme : Str
  pub host : Str
  pub path : Str

-- `WithEndpoint` or `WithEndpointURL`.
pub data Endpoint : Type 0 where
  at_host at_url : Str → Endpoint

pub record Exporter : Type 0 where
  pub endpoint : Endpoint
  pub insecure : Bool
  pub service : Str

-- What `Setup` leaves: no export, an error, or an exporter.
pub data Tracer : Type 0 where
  off bad_url no_host bad_scheme no_exporter no_resource : Tracer
  exporting : Exporter → Tracer

-- What `url.Parse`, `otlptracehttp.New` and `resource.New` answer.
pub record Collector : Type 0 where
  pub parse : Str → Option Url
  pub exporter : Bool
  pub resource : Bool

abbrev slash : ℕ
slash = b'/'

unfoldable pub to_lower : ℕ → ℕ
to_lower c = if leb b'A' c && leb c b'Z' then c + 32 else c

abbrev drop_slash : Str → Str
drop_slash [] = []
drop_slash (c ∷ s) = if c == slash then s else c ∷ s

abbrev drop_slashes : Str → Str
drop_slashes [] = []
drop_slashes (c ∷ s) = let rest = drop_slashes s in if c == slash then rest else c ∷ s

-- `strings.TrimSuffix(s, "/")`
unfoldable pub trim_slash : Str → Str
trim_slash s = reverse (drop_slash (reverse s))

-- `strings.TrimRight(s, "/")`
unfoldable pub trim_slashes : Str → Str
trim_slashes s = reverse (drop_slashes (reverse s))

unfoldable pub service_or : Str → Str
service_or name = if is_empty (trim_space name) then codes "notifystream" else name

-- The first of the two variables that is not blank.
unfoldable pub collector_endpoint : (Str → Str) → Str
collector_endpoint env =
    let ep = trim_space (env (codes "OTEL_EXPORTER_OTLP_ENDPOINT")) in
    if is_empty ep then trim_space (env (codes "OTEL_EXPORTER_OTLP_TRACES_ENDPOINT")) else ep

unfoldable pub endpoint_of : Str → Url → Endpoint
unfolding trim_slash trim_slashes
endpoint_of ep u =
    if is_empty (trim_slash (trim_space u.path)) then at_host u.host else at_url (trim_slashes ep)

-- Whether the export is insecure, if the scheme is known.
unfoldable pub insecure_of : Str → Option Bool
unfolding to_lower
insecure_of scheme =
    let s = map to_lower scheme in
    if str_eq s (codes "http")
    then some true
    else if str_eq s (codes "https")
    then some false
    else none

unfoldable pub exporter_of : Collector → Exporter → Tracer
exporter_of k e =
    if k.exporter then (if k.resource then exporting e else no_resource) else no_exporter

unfoldable pub with_scheme : Collector → Str → Endpoint → Option Bool → Tracer
unfolding exporter_of
with_scheme k service at none = bad_scheme
with_scheme k service at (some insecure) =
    exporter_of k (record { endpoint = at; insecure = insecure; service = service })

unfoldable pub with_url : Collector → Str → Str → Option Url → Tracer
unfolding endpoint_of insecure_of with_scheme
with_url k service ep none = bad_url
with_url k service ep (some u) =
    if is_empty u.host
    then no_host
    else with_scheme k service (endpoint_of ep u) (insecure_of u.scheme)

unfoldable pub setup : Collector → (Str → Str) → Str → Tracer
unfolding collector_endpoint service_or with_url
setup k env name =
    let ep = collector_endpoint env in
    if is_empty ep then off else with_url k (service_or name) ep (k.parse ep)

-- `err == nil`
unfoldable pub is_set_up : Tracer → Bool
is_set_up off = true
is_set_up (exporting e) = true
is_set_up _ = false
