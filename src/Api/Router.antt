-- ===== src/Api/Router.antt =====
-- `NewRouter` of internal/api/router.go with the handlers behind it, `Readyz` and `writeJSON` of
-- internal/api/handlers.go. The multiplexer of chi, the decoders and the pages of libraries are
-- parameters.
pub mod Safe
use notify_stream.Prelude.{
  ℕ, Bool, true, false, ◌++◌, Option, none, some, List, [], ◌∷◌, Str, codes, is_empty, map,
  if◌then◌else◌,
}
use notify_stream.Domain.Types.{CreateItem, Template}
use notify_stream.Domain.Validate.{Problem}
use notify_stream.Amqp.Publish.{Wire}
use notify_stream.Api.Answer.{
  Reason, invalid_id, invalid_batch_id, invalid_from, invalid_to, invalid_limit, invalid_cursor,
  name_and_body, invalid_channel, Answer, good, bad_request, not_found, conflict, database_error,
}
use notify_stream.Api.Create.{
  Response, empty_request, too_many, server_error, invalid, created, create_notifications,
}
use notify_stream.Api.Cursor.{Codec}
use notify_stream.Api.Hub as Hub
use notify_stream.Api.Listing.{list_notifications}
use notify_stream.Api.Listing.Request as Listing
use notify_stream.Api.Notification.{get_notification, cancel_notification, list_batch_notifications}
use notify_stream.Api.Origin.{check_origin}
use notify_stream.Api.Response.{NotificationResponse, to_notification_json}
use notify_stream.Api.Template.{TemplateRequest, create_template}
use notify_stream.World.{Fault, fine, Turn, M, pure, ◌>>=◌, arrive}

pub data Method : Type 0 where
  get post : Method
  other : Str → Method

pub data Endpoint : Type 0 where
  healthz readyz metrics swagger create list show cancel batch templates ws : Endpoint

pub record Route : Type 0 where
  pub method : Method
  pub pattern : Str
  pub endpoint : Endpoint

abbrev pub on : Method → Str → Endpoint → Route
on m p e = record { method = m; pattern = p; endpoint = e }

abbrev pub ws_routes : Bool → List Route
ws_routes true = on get (codes "/v1/ws") ws ∷ []
ws_routes false = []

-- The routes, without that of the hub if there is none.
unfoldable pub routes : Bool → List Route
routes hub =
    on get (codes "/healthz") healthz
    ∷ on get (codes "/readyz") readyz
    ∷ on get (codes "/metrics") metrics
    ∷ on get (codes "/swagger/*") swagger
    ∷ on post (codes "/v1/notifications") create
    ∷ on get (codes "/v1/notifications") list
    ∷ on get (codes "/v1/notifications/{id}") show
    ∷ on post (codes "/v1/notifications/{id}/cancel") cancel
    ∷ on get (codes "/v1/batches/{batchId}/notifications") batch
    ∷ on post (codes "/v1/templates") templates
    ∷ ws_routes hub

-- What a handler reads of a request; a body that is not JSON is `none`.
pub record Request : Type 0 where
  pub method : Method
  pub path : Str
  pub request_id : Str
  pub origin : Str
  pub query : Listing.Query
  pub notification_id : Str
  pub batch_id : Str
  pub notifications : Option (Str × List CreateItem)
  pub template : Option TemplateRequest

-- What the multiplexer finds: a route, with the parameter of its pattern, or a status code.
pub data Found : Type 0 where
  status : ℕ → Found
  route : Route → Str → Found

pub data Content : Type 0 where
  nothing some_error library : Content
  plain error : Str → Content
  errors : List (ℕ × Problem) → Content
  item : NotificationResponse → Content
  items : List NotificationResponse → Content
  page : List NotificationResponse → Str → Content
  made : Option ℕ → List NotificationResponse → ℕ → Content
  template : Template → Content

-- The status code, the header `X-Request-ID`, and the body.
pub record Reply : Type 0 where
  pub code : ℕ
  pub request_id : Option Str
  pub content : Content

-- The libraries, and the variable `WEBSOCKET_ALLOWED_ORIGINS`.
pub record Http : Type 0 where
  pub select : List Route → Method → Str → Found
  pub codec : Codec
  pub bound : Str → Option ℕ
  -- `middleware.GetReqID` for the header of a request.
  pub id_of : Str → Str
  pub allowed_origins : Str
  -- `Upgrade`, which is told whether the origin is allowed: the status code.
  pub upgrade : Bool → ℕ
  -- The status codes of the pages of `promhttp` and, for a path, of `httpSwagger`.
  pub metrics_code : ℕ
  pub swagger_code : Str → ℕ

abbrev pub Written : Type 0
Written = ℕ × Content

unfoldable pub reason_text : Reason → Str
reason_text invalid_id = codes "invalid id"
reason_text invalid_batch_id = codes "invalid batch id"
reason_text invalid_from = codes "invalid from (RFC3339)"
reason_text invalid_to = codes "invalid to (RFC3339)"
reason_text invalid_limit = codes "invalid limit"
reason_text invalid_cursor = codes "invalid cursor"
reason_text name_and_body = codes "name and body are required"
reason_text invalid_channel = codes "invalid channel"

-- `writeJSON` of an answer; `taken` and `failed` are the texts of a conflict and of a failure.
unfoldable pub written : {A : Type 0} → ℕ → (A → Content) → Str → Str → Answer A → Written
unfolding reason_text
written code body_of taken failed (good a) = (code, body_of a)
written code body_of taken failed (bad_request r) = (400, error (reason_text r))
written code body_of taken failed not_found = (404, error (codes "not found"))
written code body_of taken failed conflict = (409, error taken)
written code body_of taken failed database_error = (500, error failed)

abbrev database_text : Str
database_text = codes "database error"

abbrev state_text : Str
state_text = codes "notification cannot be cancelled in current state"

unfoldable pub written_response : Response → Written
unfolding to_notification_json
written_response empty_request = (400, error (codes "notifications must not be empty"))
written_response too_many = (400, error (codes "at most 1000 notifications per request"))
written_response server_error = (500, some_error)
written_response (invalid ps) = (400, errors ps)
written_response (created b ns hits) = (201, made b (map to_notification_json ns) hits)

unfoldable pub invalid_json : Written
invalid_json = (400, error (codes "invalid json body"))

unfoldable pub upgraded : Http → Request → Hub.Query → Written
unfolding check_origin
upgraded k r Hub.refused = (400, some_error)
upgraded k r (Hub.subscribes n b) = (k.upgrade (check_origin k.allowed_origins r.origin), nothing)

abbrev is_fine : Fault → Bool
is_fine fine = true
is_fine _ = false

module _ {Body : Type 0} (env : ℕ → Turn) where
  -- `Ping` of the pool and of the client: a call of the other side that writes nothing.
  unfoldable pub ping : M Body Bool
  unfolding arrive
  ping w = (is_fine (env w.tick).fault, arrive env w)

  unfoldable pub ready_unless_amqp : Bool → M Body Written
  ready_unless_amqp true = pure (200, plain (codes "ok\n"))
  ready_unless_amqp false = pure (503, plain (codes "amqp: unavailable\n"))

  unfoldable pub ready_unless_database : Bool → M Body Written
  unfolding ping ready_unless_amqp
  ready_unless_database true = do b ← ping; ready_unless_amqp b
  ready_unless_database false = pure (503, plain (codes "database: unavailable\n"))

  unfoldable pub ready : M Body Written
  unfolding ping ready_unless_database
  ready = do b ← ping; ready_unless_database b

module _ (wire : Wire) (env : ℕ → Turn) (mc : List (Str × Str)) (k : Http) (r : Request) where
  -- What names a request that has no text in `X-Request-ID`: the middleware's identifier, or a new one.
  unfoldable pub made_id : ℕ → Str
  made_id uuid =
      let given = k.id_of r.request_id in if is_empty given then wire.uuid_string uuid else given

  unfoldable pub post_notifications : Option (Str × List CreateItem) → M wire.Body Written
  unfolding made_id create_notifications written_response invalid_json
  post_notifications none w = (invalid_json, w)
  post_notifications (some (metadata, its)) w =
      let made = made_id (env w.tick).uuid in
      let (a, w') = create_notifications wire env mc r.request_id made metadata its w in
      (written_response a, w')

  unfoldable pub post_template : Option TemplateRequest → M wire.Body Written
  unfolding create_template written invalid_json
  post_template none = pure invalid_json
  post_template (some t) = do
    a ← create_template env t
    pure (
        written 201 template (codes "template name already exists")
          (codes "could not create template") a)

  -- The handler of an endpoint, with the parameter of the path.
  unfoldable pub handle : Endpoint → Str → M wire.Body Written
  unfolding ready post_notifications list_notifications get_notification cancel_notification
      list_batch_notifications post_template upgraded written to_notification_json
  handle healthz id = pure (200, plain (codes "ok\n"))
  handle readyz id = ready env
  handle metrics id = pure (k.metrics_code, library)
  handle swagger id = pure (k.swagger_code r.path, library)
  handle create id = post_notifications r.notifications
  handle list id = do
    a ← list_notifications env k.codec k.bound r.query
    pure (written 200 (λ p. page (map to_notification_json p.0) p.1) [] database_text a)
  handle show id = do
    a ← get_notification env (k.codec.parse_uuid id)
    pure (written 200 (λ n. item (to_notification_json n)) [] database_text a)
  handle cancel id = do
    a ← cancel_notification env (k.codec.parse_uuid id)
    pure (written 200 (λ n. item (to_notification_json n)) state_text database_text a)
  handle batch id = do
    a ← list_batch_notifications env (k.codec.parse_uuid id)
    pure (written 200 (λ ns. items (map to_notification_json ns)) [] database_text a)
  handle templates id = post_template r.template
  handle ws id = pure (upgraded k r (Hub.query k.codec.parse_uuid r.notification_id r.batch_id))

  unfoldable pub dispatch : Found → M wire.Body Written
  unfolding handle
  dispatch (status code) = pure (code, nothing)
  dispatch (route t id) = handle t.endpoint id

  -- `requestIDToHeader`
  unfoldable pub with_id : Str → Written → Reply
  with_id id (code, content) = record {
    code = code;
    request_id = if is_empty id then none else some id;
    content = content;
  }

  -- A request to a process that has a hub, or has none.
  unfoldable pub serve : Bool → M wire.Body Reply
  unfolding routes dispatch with_id
  serve hub = do
    a ← dispatch (k.select (routes hub) r.method r.path)
    pure (with_id (k.id_of r.request_id) a)
