-- ===== src/Amqp/Headers/Retry.antt =====
-- Copying keeps every header, and a republished delivery carries the next retry count.
use notify_stream.Prelude.{
  ℕ, ◌+◌, ◌<◌, ◌^◌, ◌≡◌, refl, some, [], ◌∷◌, Str, str_eq, str_eq_iff, arith, str_eq_refl, ap, ◌≢◌,
  if◌then◌else◌,
}
use notify_stream.Prelude.Int.{ℤ, pos, int32, int64, ◌+ℤ◌}
use notify_stream.Amqp.Headers.{
  Field, Table, header_retry, lookup, insert, count_of, retry_count, clone_headers,
  republish_headers, field_int32,
}

pub lookup-insert :
    (k j : Str) (v : Field) (h : Table)
    → lookup j (insert k v h) ≡ (if str_eq k j then some v else lookup j h)
unfolding lookup insert
lookup-insert k j v [] = refl
lookup-insert k j v ((i, w) ∷ h) =
    ground (arith, str_eq_iff k j, str_eq_iff i k, str_eq_iff i j, lookup-insert k j v h)

-- The copy of a header table has the value of every key.
pub lookup-clone_headers : (h : Table) (k : Str) → lookup k (clone_headers h) ≡ lookup k h
unfolding lookup clone_headers
lookup-clone_headers [] k = refl
lookup-clone_headers ((j, v) ∷ h) k =
    ground (arith, lookup-insert j k v (clone_headers h), lookup-clone_headers h k)

next_count : (n : ℕ) → n + 1 < 2 ^ 31 → int32 (int64 (pos n +ℤ pos 1)) ≡ pos (n + 1)
unfolding int32 int64 ◌+ℤ◌
next_count n h = ground arith

-- The copy has the retry count of the original.
pub retry_count-clone_headers : (h : Table) → retry_count (clone_headers h) ≡ retry_count h
unfolding retry_count
retry_count-clone_headers h = ap count_of (lookup-clone_headers h header_retry)

retry_count-insert : (h : Table) (n : ℤ) → retry_count (insert header_retry (field_int32 n) h) ≡ n
unfolding retry_count
retry_count-insert h n = rw (lookup-insert, str_eq_refl)

-- A delivery with a retry count below 2³¹ - 1 is republished with the next count, and every other
-- header is as it was.
pub republish_headers_lem :
    (h : Table) (n : ℕ)
    → retry_count h ≡ pos n
    → n + 1 < 2 ^ 31
    → (retry_count (republish_headers h) ≡ pos (n + 1))
      × ((k : Str) → k ≢ header_retry → lookup k (republish_headers h) ≡ lookup k h)
unfolding republish_headers
republish_headers_lem h n e small = (
  rw (retry_count-insert, retry_count-clone_headers h, e) (next_count n small),
  λ k ne. rw lookup-insert (ground (arith, str_eq_iff header_retry k, lookup-clone_headers h k)),
)
