-- ===== src/Api/Cursor/RoundTrip.antt =====
-- A cursor that the API gives out is read back.
use notify_stream.Prelude.{◌≡◌, refl, some, cut-append}
use notify_stream.Db.Listing.{Cursor}
use notify_stream.Api.Cursor.{Codec, IsCodec, encode_cursor, decode_parts, decode_cursor}

module _ (k : Codec) (laws : IsCodec k) where
  -- If times, UUIDs and base64 are read back as they were printed and no printed time has a bar in it,
  -- every cursor is read back from its text.
  pub decode_cursor-encode_cursor : (c : Cursor) → decode_cursor k (encode_cursor k c) ≡ some c
  unfolding decode_cursor encode_cursor decode_parts
  decode_cursor-encode_cursor (t, id) =
      rw
        (
          laws.base64,
          cut-append b'|' (k.format_time t) (k.uuid_string id) (laws.bar t),
          laws.time,
          laws.uuid,
        )
        refl
