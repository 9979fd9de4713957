-- ===== src/Amqp/Headers.antt =====
-- `RetryCount` of internal/amqp/amqp.go and the header tables that the worker copies and extends. An
-- `amqp091.Table` is a map, here an association list in which the first entry of a key counts; a nil
-- table and an empty one behave alike under a lookup.
pub mod Retry
use notify_stream.Prelude.{ℕ, Option, none, some, List, [], ◌∷◌, Str, codes, str_eq, if◌then◌else◌}
use notify_stream.Prelude.Int.{ℤ, pos, ◌+ℤ◌, int32, int64}

-- The types of a header value that the program tells apart.
pub data Field : Type 0 where
  field_int32 : ℤ → Field
  field_int64 : ℤ → Field
  field_int : ℤ → Field
  field_byte : ℕ → Field
  field_string : Str → Field
  field_bytes : Str → Field
  field_other : Field

abbrev pub Table : Type 0
Table = List (Str × Field)

abbrev pub header_retry : Str
header_retry = codes "x-retry-count"

unfoldable pub lookup : Str → Table → Option Field
lookup k [] = none
lookup k ((j, v) ∷ h) = if str_eq j k then some v else lookup k h

-- `h[k] = v`
unfoldable pub insert : Str → Field → Table → Table
insert k v [] = (k, v) ∷ []
insert k v ((j, w) ∷ h) = if str_eq j k then (k, v) ∷ h else (j, w) ∷ insert k v h

-- The `switch` on the type of the header.
unfoldable pub count_of : Option Field → ℤ
count_of none = pos 0
count_of (some (field_int32 n)) = n
count_of (some (field_int64 n)) = n
count_of (some (field_int n)) = n
count_of (some (field_byte n)) = pos n
count_of (some (field_string s)) = pos 0
count_of (some (field_bytes s)) = pos 0
count_of (some field_other) = pos 0

unfoldable pub retry_count : Table → ℤ
unfolding count_of
retry_count h = count_of (lookup header_retry h)

-- The copying loop of `cloneHeaders` and of `RepublishDelivery`. Go iterates in no fixed order.
unfoldable pub clone_headers : Table → Table
clone_headers [] = []
clone_headers ((k, v) ∷ h) = insert k v (clone_headers h)

-- The table that `RepublishDelivery` sends: the copied headers with the next retry count.
unfoldable pub republish_headers : Table → Table
republish_headers h =
    insert header_retry (field_int32 (int32 (int64 (retry_count (clone_headers h) +ℤ pos 1))))
      (clone_headers h)
