-- ===== src/Api/Listing/Request.antt =====
-- The parameters of `ListNotifications` of internal/api/handlers.go, as texts: one that is missing is
-- the empty text. `bound` is `time.Parse` with the layout `RFC3339`.
use notify_stream.Prelude.{
  ℕ, zero, suc, Option, none, some, Str, is_empty, trim_space, atoi, if◌then◌else◌,
}
use notify_stream.Prelude.Int.{ℤ, pos, negsuc}
use notify_stream.Db.Listing.{Cursor, ListParams}
use notify_stream.Api.Cursor.{Codec, decode_cursor}
use notify_stream.Api.Answer.{
  Reason, Checked, refused, accepted, invalid_from, invalid_to, invalid_limit, invalid_cursor,
  ◌>>=◌,
}

-- The parameters of the query.
pub record Query : Type 0 where
  pub status : Str
  pub channel : Str
  pub from : Str
  pub to : Str
  pub limit : Str
  pub cursor : Str

-- The parameters of `Store.List` but for the limit, and the limit.
abbrev pub PageRequest : Type 0
PageRequest = ListParams × ℕ

unfoldable pub or_refused : {A : Type 0} → Reason → Option A → Checked (Option A)
or_refused r none = refused r
or_refused r (some a) = accepted (some a)

-- A parameter that is blank is not given.
unfoldable pub optional : {A : Type 0} → (Str → Option A) → Reason → Str → Checked (Option A)
unfolding or_refused
optional parse r raw =
    let s = trim_space raw in if is_empty s then accepted none else or_refused r (parse s)

unfoldable pub filter_text : Str → Option Str
filter_text raw = let s = trim_space raw in if is_empty s then none else some s

-- `v < 1` is refused.
unfoldable pub at_least_one : ℤ → Option ℕ
at_least_one (pos zero) = none
at_least_one (pos (suc n)) = some (suc n)
at_least_one (negsuc n) = none

unfoldable pub limit_value : Str → Option ℕ
unfolding at_least_one
limit_value s = elim (atoi s) [ none ↦ none | some v ↦ at_least_one v ]

unfoldable pub or_twenty : Option ℕ → ℕ
or_twenty none = 20
or_twenty (some n) = n

-- The first parameter that is refused is the answer.
unfoldable pub assemble :
    Option Str
    → Option Str
    → Checked (Option ℕ)
    → Checked (Option ℕ)
    → Checked (Option ℕ)
    → Checked (Option Cursor)
    → Checked PageRequest
unfolding or_twenty
assemble status channel from? to? limit? cursor? = do
  from ← from?
  to ← to?
  limit ← limit?
  cursor ← cursor?
  accepted (
    record {
      status = status;
      channel = channel;
      from = from;
      to = to;
      cursor = cursor;
      limit = pos (or_twenty limit);
    },
    or_twenty limit,
  )

unfoldable pub read_query : Codec → (Str → Option ℕ) → Query → Checked PageRequest
unfolding optional filter_text limit_value assemble decode_cursor
read_query k bound q =
    assemble (filter_text q.status) (filter_text q.channel) (optional bound invalid_from q.from)
      (optional bound invalid_to q.to) (optional limit_value invalid_limit q.limit)
      (optional (decode_cursor k) invalid_cursor q.cursor)
