-- ===== src/Api/Hub.antt =====
-- `WSHub` of internal/api/ws.go. A connection is a number, the map of a registry is a function that is
-- empty where the map has no entry, and the set of an entry is a list. `decode` is the JSON decoder of
-- an event's identifiers and `parse_uuid` is `uuid.Parse`.
pub mod Subscribed
use notify_stream.Prelude.{
  ℕ, Bool, true, false, ◌||◌, Option, none, some, List, [], ◌∷◌, ◌++◌, Str, is_empty, ◌==◌,
  if◌then◌else◌,
}

abbrev pub Registry : Type 0
Registry = ℕ → List ℕ

pub record Hub : Type 0 where
  pub by_notif : Registry
  pub by_batch : Registry

abbrev pub new_hub : Hub
new_hub = record { by_notif = λ id. []; by_batch = λ id. [] }

unfoldable pub has : ℕ → List ℕ → Bool
has c [] = false
has c (d ∷ ds) = d == c || has c ds

-- `m[c] = struct{}{}`
unfoldable pub include : ℕ → List ℕ → List ℕ
unfolding has
include c ds = if has c ds then ds else c ∷ ds

-- `delete(m, c)`
unfoldable pub exclude : ℕ → List ℕ → List ℕ
exclude c [] = []
exclude c (d ∷ ds) = let rest = exclude c ds in if d == c then rest else d ∷ rest

-- `addNotif` and `addBatch` on their registry.
unfoldable pub add_to : ℕ → ℕ → Registry → Registry
unfolding include
add_to id c r j = if j == id then include c (r j) else r j

unfoldable pub add_notif : ℕ → ℕ → Hub → Hub
unfolding add_to
add_notif id c h = record h { by_notif = add_to id c h.by_notif }

unfoldable pub add_batch : ℕ → ℕ → Hub → Hub
unfolding add_to
add_batch id c h = record h { by_batch = add_to id c h.by_batch }

-- An entry that gets empty is deleted, which leaves its set empty.
unfoldable pub remove_conn : ℕ → Hub → Hub
unfolding exclude
remove_conn c h = record {
  by_notif = λ id. exclude c (h.by_notif id);
  by_batch = λ id. exclude c (h.by_batch id);
}

-- What `HandleWS` makes of the two parameters of a query.
pub data Query : Type 0 where
  refused : Query
  subscribes : Option ℕ → Option ℕ → Query

-- A parameter that is absent, or its parse.
unfoldable pub parameter : (Str → Option ℕ) → Str → Option (Option ℕ)
parameter parse_uuid s =
    if is_empty s then some none else elim (parse_uuid s) [ none ↦ none | some id ↦ some (some id) ]

unfoldable pub both : Option (Option ℕ) → Option (Option ℕ) → Query
both none b = refused
both (some n) none = refused
both (some none) (some none) = refused
both (some none) (some (some b)) = subscribes none (some b)
both (some (some n)) (some b) = subscribes (some n) b

unfoldable pub query : (Str → Option ℕ) → Str → Str → Query
unfolding parameter both
query parse_uuid n b = both (parameter parse_uuid n) (parameter parse_uuid b)

unfoldable pub add_some : (ℕ → Hub → Hub) → Option ℕ → Hub → Hub
add_some add none h = h
add_some add (some id) h = add id h

-- A connection that is opened for a query, or closed.
pub data Step : Type 0 where
  opens : Option ℕ → Option ℕ → ℕ → Step
  closes : ℕ → Step

unfoldable pub serve : Step → Hub → Hub
unfolding add_some add_notif add_batch remove_conn
serve (opens n b c) h = add_some (λ id. add_batch id c) b (add_some (λ id. add_notif id c) n h)
serve (closes c) h = remove_conn c h

unfoldable pub serve_all : List Step → Hub → Hub
unfolding serve
serve_all [] h = h
serve_all (s ∷ ss) h = serve_all ss (serve s h)

-- `writeToBatch`, for an event that names a batch.
unfoldable pub batch_receivers : (Str → Option ℕ) → Option Str → Hub → List ℕ
batch_receivers parse_uuid none h = []
batch_receivers parse_uuid (some b) h = elim (parse_uuid b) [ none ↦ [] | some id ↦ h.by_batch id ]

-- The connections that `run` writes an event to, in turn.
unfoldable pub receivers :
    {Msg : Type 0} → (Msg → Option (Str × Option Str)) → (Str → Option ℕ) → Msg → Hub → List ℕ
unfolding batch_receivers
receivers decode parse_uuid msg h = elim (decode msg) [
  | none ↦ []
  | some (n, b) ↦ elim (parse_uuid n) [
    | none ↦ []
    | some id ↦ h.by_notif id ++ batch_receivers parse_uuid b h
  ]
]
