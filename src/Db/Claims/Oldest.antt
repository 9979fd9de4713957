-- ===== src/Db/Claims/Oldest.antt =====
-- A claim takes the oldest rows that are free.
use notify_stream.Prelude.{ℕ, zero, suc, ◌≤◌, Bool, not, leb, length, length-take, arith}
use notify_stream.Prelude.Int.{ℤ, pos, negsuc}
use notify_stream.Prelude.Sort.{sort_by, filter}
use notify_stream.Prelude.Sort.Filter.{IsOrder}
use notify_stream.Prelude.Sort.Members.{TakesFirst, take-TakesFirst}
use notify_stream.Db.Tables.{OutboxRow, Tables}
use notify_stream.Db.Change.{is_null}
use notify_stream.Db.Claims.{clamp, claim_outbox_batch, claim_due_scheduled, is_due, is_earlier}

clamp_most : (usual most : ℕ) (limit : ℤ) → usual ≤ most → clamp usual most limit ≤ most
unfolding clamp
clamp_most usual most (negsuc n) h = h
clamp_most usual most (pos zero) h = h
clamp_most usual most (pos (suc n)) h = ground arith

-- `ORDER BY id ASC`
abbrev pub by_id : OutboxRow → OutboxRow → Bool
by_id a b = leb a.id b.id

by_id-IsOrder : IsOrder by_id
by_id-IsOrder = record { total = λ a b h. ground arith; trans = λ a b c h k. ground arith }

is_earlier-IsOrder : IsOrder is_earlier
is_earlier-IsOrder = record { total = λ a b h. ground arith; trans = λ a b c h k. ground arith }

-- The relay claims 100 entries at most. Each is in the outbox, is not published and is not locked by
-- others, and every other entry of this kind has no smaller number.
pub claim_outbox_batch-TakesFirst :
    (locked : ℕ → Bool) (limit : ℤ) (db : Tables)
    → let got = claim_outbox_batch locked limit db in
      (length got ≤ 100)
      × TakesFirst by_id (λ e. is_null e.published_at) (λ e. not (locked e.id)) db.outbox got
unfolding claim_outbox_batch
claim_outbox_batch-TakesFirst locked limit db = (
  omega (
    arith,
    length-take (clamp 20 100 limit) (
        filter (λ e. not (locked e.id))
          (sort_by by_id (filter (λ e. is_null e.published_at) db.outbox))),
    clamp_most 20 100 limit (omega arith),
  ),
  take-TakesFirst by_id by_id-IsOrder (λ e. is_null e.published_at) (λ e. not (locked e.id))
      (clamp 20 100 limit) db.outbox,
)

-- The scheduler claims 200 rows at most. Each is in the table, is pending with a time that has come and
-- is not locked by others, and every other row of this kind has no earlier time, or the same and no
-- smaller identifier.
pub claim_due_scheduled-TakesFirst :
    (locked : ℕ → Bool) (now : ℕ) (limit : ℤ) (db : Tables)
    → let got = claim_due_scheduled locked now limit db in
      (length got ≤ 200)
      × TakesFirst is_earlier (is_due now) (λ n. not (locked n.id)) db.notifications got
unfolding claim_due_scheduled
claim_due_scheduled-TakesFirst locked now limit db = (
  omega (
    arith,
    length-take (clamp 50 200 limit) (
        filter (λ n. not (locked n.id))
          (sort_by is_earlier (filter (is_due now) db.notifications))),
    clamp_most 50 200 limit (omega arith),
  ),
  take-TakesFirst is_earlier is_earlier-IsOrder (is_due now) (λ n. not (locked n.id))
      (clamp 50 200 limit) db.notifications,
)
