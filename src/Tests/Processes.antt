-- ===== src/Tests/Processes.antt =====
-- The processes, and a request to the API.
use notify_stream.Prelude.{
  ◌*◌, trim_space, is_space, ◌&&◌, ap, sym, ◌∙◌, Bool-cases, str_eq, str_eq_iff, arith,
  if◌then◌else◌, Bool, true, false, ◌≡◌, ◌↔◌, refl, inl, inr, none, some, List, [], ◌∷◌, Str, codes,
  IsIn,
}
use notify_stream.Prelude.Int.{ℤ, pos}
use notify_stream.Domain.Types.{sms, email, push}
use notify_stream.Tracing.{
  setup, exporting, at_host, collector_endpoint, service_or, with_url, endpoint_of, insecure_of,
  with_scheme, exporter_of, trim_slash, to_lower,
}
use notify_stream.Worker.Timing.{second}
use notify_stream.Db.Pool.{no_change}
use notify_stream.Process.{
  obtained, started, released, tracer, pool, bus, limiter, metrics_server, consumer, worker_main,
  end_of, Remote, worker, main_of, run_process,
}
use notify_stream.Process.Tidy.{IsTidy, main_of-IsTidy}
use notify_stream.Process.Exit.{IsReady, EndsWell, main_of-exit}
use notify_stream.Api.Router.{
  Method, get, post, other, Route, routes, Request, Found, status, route, Http, serve,
}
use notify_stream.Api.Router.Safe.{ReadsOnly, serve-ReadsOnly}
use notify_stream.World.{amqp_error}
use notify_stream.Tests.Fixtures.{plain_wire, quiet, start}
use notify_stream.Tests.Pages.{plain_codec}

abbrev variables : Str → Str
variables name = codes "v"

-- Everything works, and every consumer ends with an error.
abbrev remote : Remote
remote = record {
  collector = record {
    parse = λ s. some (record { scheme = codes "HTTP"; host = codes "h"; path = [] });
    exporter = true;
    resource = true;
  };
  migrator = record { source = true; instance_works = λ u. true; up = λ u. no_change };
  pgx = record { parses = λ u. true; connects = λ c. true };
  connects = λ u. true;
  is_redis_url = λ u. true;
  redis_answers = true;
  atoi = λ s. none;
  serve_fails = false;
  consume = λ ch. some amqp_error;
  wait = λ rs. (some amqp_error, true);
}

-- The scheme is read in any case, and a path that is a slash is none.
insecure_export :
    setup remote.collector variables (codes " ")
    ≡ exporting
        (record { endpoint = at_host (codes "h"); insecure = true; service = codes "notifystream" })
unfolding setup collector_endpoint service_or with_url endpoint_of insecure_of with_scheme
    exporter_of trim_slash to_lower trim_space is_space str_eq
insecure_export = refl

abbrev stuck : ℤ
stuck = pos (120 * second)

-- A worker whose consumers all fail.
worker_run : run_process (main_of variables remote worker) ≡ (
  0,
  obtained tracer
      ∷ started (metrics_server (codes "v"))
      ∷ obtained pool
      ∷ obtained bus
      ∷ obtained limiter
      ∷ started (consumer sms stuck)
      ∷ started (consumer email stuck)
      ∷ started (consumer push stuck)
      ∷ released limiter
      ∷ released bus
      ∷ released pool
      ∷ released tracer
      ∷ [],
)
unfolding run_process main_of worker_main end_of trim_space is_space str_eq
worker_run = refl

main_of-IsTidy_example : IsTidy (run_process (main_of variables remote worker))
main_of-IsTidy_example = main_of-IsTidy variables remote worker

main_of-exit_example :
    ((run_process (main_of variables remote worker)).0 ≡ 0)
    ↔ (IsReady variables remote worker × EndsWell variables remote worker)
main_of-exit_example = main_of-exit variables remote (λ rs. refl) worker

-- A multiplexer for paths without parameters.
same_method : Method → Method → Bool
same_method get get = true
same_method post post = true
same_method (other s) (other t) = str_eq s t
same_method _ _ = false

same_method_sound : (m n : Method) → same_method m n ≡ true → m ≡ n
unfolding same_method
same_method_sound get get h = refl
same_method_sound post post h = refl
same_method_sound (other s) (other t) h = ap other ((str_eq_iff s t).0 h)
same_method_sound get post h = cc
same_method_sound get (other t) h = cc
same_method_sound post get h = cc
same_method_sound post (other t) h = cc
same_method_sound (other s) get h = cc
same_method_sound (other s) post h = cc

find_route : List Route → Method → Str → Found
find_route [] m path = status 404
find_route (t ∷ ts) m path =
    if same_method t.method m && str_eq t.pattern path then route t [] else find_route ts m path

route_inj : {t u : Route} {i j : Str} → route t i ≡ route u j → t ≡ u
route_inj e = cc

find_route-IsIn :
    (ts : List Route) (m : Method) (path : Str) (t : Route) (id : Str)
    → find_route ts m path ≡ route t id
    → IsIn t ts × (t.method ≡ m)
unfolding find_route
find_route-IsIn [] m path t id e = cc
find_route-IsIn (u ∷ ts) m path t id e =
    elim (Bool-cases (same_method u.method m && str_eq u.pattern path)) [
      | inl hit ↦
          let same : u ≡ t = route_inj (rw hit at e) in
          (
            inl (sym same),
            sym (ap (λ x. x.method) same) ∙ same_method_sound u.method m (ground arith),
          )
      | inr miss ↦ let (i, s) = find_route-IsIn ts m path t id (rw miss at e) in (inr i, s)
    ]

abbrev http : Http
http = record {
  select = find_route;
  codec = plain_codec;
  bound = λ s. none;
  id_of = λ s. s;
  allowed_origins = [];
  upgrade = λ b. 101;
  metrics_code = 200;
  swagger_code = λ path. 301;
}

abbrev query : Request
query = record {
  method = get;
  path = codes "/v1/notifications";
  request_id = codes "r";
  origin = [];
  query = record { status = []; channel = []; from = []; to = []; limit = codes "5"; cursor = [] };
  notification_id = [];
  batch_id = [];
  notifications = none;
  template = none;
}

serve-ReadsOnly_example : ReadsOnly quiet start (serve plain_wire quiet [] http query true start).1
serve-ReadsOnly_example =
    serve-ReadsOnly plain_wire quiet [] http query (λ hub. find_route-IsIn (routes hub)) true start
      refl
