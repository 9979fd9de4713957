-- ===== src/Api/Cursor.antt =====
-- `encodeCursor` and `decodeCursor` of internal/api/handlers.go: the text form of a cursor. The
-- encodings of texts, times and UUIDs are those of libraries.
pub mod RoundTrip
use notify_stream.Prelude.{
  ℕ, ◌≡◌, ◌≢◌, Option, none, some, [], ◌∷◌, ◌++◌, Str, All, IsSolid, cut, ◌>>=◌,
}
use notify_stream.Db.Listing.{Cursor}

-- encoding/base64, package time with the layout `RFC3339Nano`, and github.com/google/uuid.
pub record Codec : Type 0 where
  pub encode_base64 : Str → Str
  pub decode_base64 : Str → Option Str
  pub format_time : ℕ → Str
  pub parse_time : Str → Option ℕ
  pub uuid_string : ℕ → Str
  pub parse_uuid : Str → Option ℕ

-- What is documented of them: what is printed is read back, a time is printed without a bar, and a text
-- of base64 has no white space and is empty for the empty text alone.
pub record IsCodec (k : Codec) : Type 0 where
  pub base64 : (s : Str) → k.decode_base64 (k.encode_base64 s) ≡ some s
  pub alphabet : (s : Str) → IsSolid (k.encode_base64 s)
  pub empty : k.decode_base64 [] ≡ some []
  pub time : (t : ℕ) → k.parse_time (k.format_time t) ≡ some t
  pub bar : (t : ℕ) → All (λ c. c ≢ b'|') (k.format_time t)
  pub uuid : (id : ℕ) → k.parse_uuid (k.uuid_string id) ≡ some id

module _ (k : Codec) where
  unfoldable pub encode_cursor : Cursor → Str
  encode_cursor (t, id) = k.encode_base64 (k.format_time t ++ b'|' ∷ k.uuid_string id)

  -- The two parts of `strings.SplitN`; without a bar there is one part.
  unfoldable pub decode_parts : Str × Option Str → Option Cursor
  decode_parts (time, none) = none
  decode_parts (time, some uuid) = do t ← k.parse_time time; id ← k.parse_uuid uuid; some (t, id)

  unfoldable pub decode_cursor : Str → Option Cursor
  unfolding decode_parts cut
  decode_cursor s = do raw ← k.decode_base64 s; decode_parts (cut b'|' raw)
