-- ===== src/Api/Origin.antt =====
-- `websocketCheckOrigin` of internal/api/ws.go: `raw` is the value of `WEBSOCKET_ALLOWED_ORIGINS`, and
-- `origin` the header `Origin`, empty if it is missing.
pub mod Listed
use notify_stream.Prelude.{
  Bool, true, false, ◌||◌, List, [], ◌∷◌, Str, is_empty, trim_space, split, str_eq, if◌then◌else◌,
}

-- The parts that are not blank, trimmed.
unfoldable pub trimmed_parts : List Str → List Str
trimmed_parts [] = []
trimmed_parts (p ∷ ps) =
    let rest = trimmed_parts ps in let s = trim_space p in if is_empty s then rest else s ∷ rest

unfoldable pub allowed_origins : Str → List Str
unfolding trimmed_parts split
allowed_origins raw = trimmed_parts (split b',' raw)

unfoldable pub is_listed : List Str → Str → Bool
unfolding str_eq
is_listed [] origin = false
is_listed (a ∷ names) origin = str_eq origin a || is_listed names origin

-- An empty list allows every origin.
unfoldable pub allows : List Str → Str → Bool
unfolding is_listed
allows [] origin = true
allows (a ∷ names) origin = is_empty origin || is_listed (a ∷ names) origin

unfoldable pub check_origin : Str → Str → Bool
unfolding allowed_origins allows
check_origin raw origin =
    let s = trim_space raw in if is_empty s then true else allows (allowed_origins s) origin
