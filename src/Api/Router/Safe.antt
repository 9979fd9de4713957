-- ===== src/Api/Router/Safe.antt =====
-- What a request may change.
use notify_stream.Prelude.{
  ℕ, zero, suc, Bool, true, false, ◌≡◌, refl, ◌∙◌, Option, none, some, List, Str, All, IsIn,
}
use notify_stream.Prelude.Sort.Members.{IsIn-All}
use notify_stream.Amqp.Publish.{Wire}
use notify_stream.Db.Store.{get_by_id}
use notify_stream.Db.Store.Evolves.{read_same}
use notify_stream.Api.Answer.{Checked, refused, accepted}
use notify_stream.Api.Cursor.{Codec}
use notify_stream.Api.Listing.{query_page, list_checked, list_notifications}
use notify_stream.Api.Listing.Request.{PageRequest, read_query}
use notify_stream.Api.Notification.{query_rows, get_notification, list_batch_notifications}
use notify_stream.Api.Router.{
  Method, get, Endpoint, healthz, readyz, metrics, swagger, create, list, show, cancel, batch,
  templates, ws, Route, routes, Request, Found, status, route, Http, ping, ready, ready_unless_amqp,
  ready_unless_database, handle, dispatch, serve,
}
use notify_stream.World.{refused, Turn, World, arrive}

-- The others act for `k` turns.
abbrev pub elapse : {Body : Type 0} → (ℕ → Turn) → ℕ → World Body → World Body
elapse env zero w = w
elapse env (suc k) w = elapse env k (arrive env w)

-- Nothing happens but what the others do.
abbrev pub ReadsOnly : {Body : Type 0} → (ℕ → Turn) → World Body → World Body → Type 0
ReadsOnly env w w' = (k : ℕ) × (w' ≡ elapse env k w)

abbrev pub is_reading : Endpoint → Bool
is_reading create = false
is_reading cancel = false
is_reading templates = false
is_reading _ = true

abbrev Reads : Route → Type 0
Reads t = t.method ≡ get → is_reading t.endpoint ≡ true

routes-Reads : (hub : Bool) → All Reads (routes hub)
unfolding routes
routes-Reads true = (
  λ _. refl,
  (
    λ _. refl,
    (
      λ _. refl,
      (
        λ _. refl,
        (λ e. cc, (λ _. refl, (λ _. refl, (λ e. cc, (λ _. refl, (λ e. cc, (λ _. refl, tt))))))),
      ),
    ),
  ),
)
routes-Reads false = (
  λ _. refl,
  (
    λ _. refl,
    (
      λ _. refl,
      (λ _. refl, (λ e. cc, (λ _. refl, (λ _. refl, (λ e. cc, (λ _. refl, (λ e. cc, tt))))))),
    ),
  ),
)

module _ {Body : Type 0} (env : ℕ → Turn) where
  get_notification-ReadsOnly :
      (id : Option ℕ) (w : World Body) → ReadsOnly env w (get_notification env id w).1
  unfolding get_notification get_by_id
  get_notification-ReadsOnly none w = (0, refl)
  get_notification-ReadsOnly (some id) w = (1, read_same (env w.tick).fault _ (arrive env w))

  list_batch_notifications-ReadsOnly :
      (b : Option ℕ) (w : World Body) → ReadsOnly env w (list_batch_notifications env b w).1
  unfolding list_batch_notifications query_rows
  list_batch_notifications-ReadsOnly none w = (0, refl)
  list_batch_notifications-ReadsOnly (some b) w = (1, read_same (env w.tick).fault _ (arrive env w))

  list_checked-ReadsOnly :
      (k : Codec) (l : Checked PageRequest) (w : World Body)
      → ReadsOnly env w (list_checked env k l w).1
  unfolding list_checked query_page
  list_checked-ReadsOnly k (refused r) w = (0, refl)
  list_checked-ReadsOnly k (accepted (p, limit)) w =
      (1, read_same (env w.tick).fault _ (arrive env w))

  ready_amqp-ReadsOnly : (b : Bool) (w : World Body) → (ready_unless_amqp env b w).1 ≡ w
  unfolding ready_unless_amqp
  ready_amqp-ReadsOnly true w = refl
  ready_amqp-ReadsOnly false w = refl

  ready_database-ReadsOnly :
      (b : Bool) (w : World Body) → ReadsOnly env w (ready_unless_database env b w).1
  unfolding ready_unless_database ping
  ready_database-ReadsOnly true w = (1, ready_amqp-ReadsOnly _ (arrive env w))
  ready_database-ReadsOnly false w = (0, refl)

  ready-ReadsOnly : (w : World Body) → ReadsOnly env w (ready env w).1
  unfolding ready ping
  ready-ReadsOnly w = let (k, e) = ready_database-ReadsOnly _ (arrive env w) in (suc k, e)

module _ (wire : Wire) (env : ℕ → Turn) (mc : List (Str × Str)) (k : Http) (r : Request) where
  handle-ReadsOnly :
      (e : Endpoint) (id : Str) (w : World wire.Body)
      → is_reading e ≡ true
      → ReadsOnly env w (handle wire env mc k r e id w).1
  unfolding handle list_notifications
  handle-ReadsOnly healthz id w h = (0, refl)
  handle-ReadsOnly readyz id w h = ready-ReadsOnly env w
  handle-ReadsOnly metrics id w h = (0, refl)
  handle-ReadsOnly swagger id w h = (0, refl)
  handle-ReadsOnly create id w h = absurd (cc)
  handle-ReadsOnly list id w h =
      list_checked-ReadsOnly env k.codec (read_query k.codec k.bound r.query) w
  handle-ReadsOnly show id w h = get_notification-ReadsOnly env (k.codec.parse_uuid id) w
  handle-ReadsOnly cancel id w h = absurd (cc)
  handle-ReadsOnly batch id w h = list_batch_notifications-ReadsOnly env (k.codec.parse_uuid id) w
  handle-ReadsOnly templates id w h = absurd (cc)
  handle-ReadsOnly ws id w h = (0, refl)

  dispatch-ReadsOnly :
      (f : Found) (w : World wire.Body)
      → ((t : Route) (id : Str) → f ≡ route t id → is_reading t.endpoint ≡ true)
      → ReadsOnly env w (dispatch wire env mc k r f w).1
  unfolding dispatch
  dispatch-ReadsOnly (status code) w h = (0, refl)
  dispatch-ReadsOnly (route t id) w h = handle-ReadsOnly t.endpoint id w (h t id refl)

  -- If the multiplexer finds routes that it was given, for the method of the request alone, then a GET
  -- request, whatever its path and whatever fails, changes no table and sends nothing: the world is
  -- what the other processes make of it.
  pub serve-ReadsOnly :
      ((hub : Bool) (m : Method) (path : Str) (t : Route) (id : Str)
        → k.select (routes hub) m path ≡ route t id
        → IsIn t (routes hub) × (t.method ≡ m))
      → (hub : Bool) (w : World wire.Body) → r.method ≡ get
      → ReadsOnly env w (serve wire env mc k r hub w).1
  unfolding serve
  serve-ReadsOnly listed hub w m =
      dispatch-ReadsOnly (k.select (routes hub) r.method r.path) w (λ t id found.
        let (i, same) = listed hub r.method r.path t id found in
        IsIn-All Reads t (routes hub) (routes-Reads hub) i (same ∙ m))
