-- ===== src/Api/Listing/Next.antt =====
-- The next page: a request with the cursor of a response continues it.
use mathlib.Core.Path.{subst}
use notify_stream.Prelude.{
  ℕ, ◌≡◌, ◌≢◌, refl, sym, ap, ◌∙◌, inl, inr, true, false, Bool-cases, Option, none, some, List, [],
  ◌∷◌, ◌++◌, Str, is_empty, IsSolid, trim_space-IsSolid, map, arith,
}
use notify_stream.Domain.Types.{Notification}
use notify_stream.Db.Store.{read, found}
use notify_stream.Db.Listing.{Cursor, ListParams, last_of, page, cursor_of}
use notify_stream.Api.Create.{Item}
use notify_stream.Api.Cursor.{Codec, IsCodec, encode_cursor, decode_cursor}
use notify_stream.Api.Cursor.RoundTrip.{decode_cursor-encode_cursor}
use notify_stream.Api.Answer.{
  Reason, good, Checked, accepted, answer_or_fail, invalid_from, invalid_to, invalid_limit,
  invalid_cursor,
}
use notify_stream.Api.Notification.{shown}
use notify_stream.Api.Listing.{
  list_notifications, list_checked, query_page, shown_page, next_cursor,
}
use notify_stream.Api.Listing.Request.{
  Query, PageRequest, assemble, read_query, optional, or_refused, filter_text, limit_value,
}
use notify_stream.World.{
  Turn, World, Result, ok, err, arrive, Fault, fine, lost_before, lost_after, refused,
}

good-inj : {A : Type 0} {a b : A} → good a ≡ good b → a ≡ b
good-inj {A} {a} {b} e = cc

accepted-inj : {A : Type 0} {a b : A} → accepted a ≡ accepted b → a ≡ b
accepted-inj {A} {a} {b} e = cc

assemble-next :
    (st ch : Option Str) (from to limit : Checked (Option ℕ)) (cursor : Checked (Option Cursor))
    (p : ListParams) (n : ℕ) (c : Cursor)
    → assemble st ch from to limit cursor ≡ accepted (p, n)
    → assemble st ch from to limit (accepted (some c)) ≡ accepted (record p { cursor = some c }, n)
unfolding assemble
assemble-next st ch (Checked.refused r) to limit cursor p n c e = absurd (cc)
assemble-next st ch (accepted f) (Checked.refused r) limit cursor p n c e = absurd (cc)
assemble-next st ch (accepted f) (accepted t) (Checked.refused r) cursor p n c e = absurd (cc)
assemble-next st ch (accepted f) (accepted t) (accepted l) (Checked.refused r) p n c e = absurd (cc)
assemble-next st ch (accepted f) (accepted t) (accepted l) (accepted d) p n c e =
    ap (λ a. accepted (record a.0 { cursor = some c }, a.1)) (accepted-inj e)

-- The last row of a page.
last_of-append :
    (ns : List Notification) (c : Cursor)
    → last_of ns ≡ some c
    → (pre : List Notification) × (n : Notification) × (ns ≡ pre ++ n ∷ []) × (c ≡ cursor_of n)
unfolding last_of
last_of-append [] c e = absurd (cc)
last_of-append (n ∷ []) c e = ([], n, refl, cc)
last_of-append (n ∷ m ∷ ns) c e =
    let (pre, l, s, f) = last_of-append (m ∷ ns) c e in (n ∷ pre, l, ap (λ u. n ∷ u) s, f)

map-append_one :
    {A B : Type 0} (f : A → B) (xs : List A) (x : A) → map f (xs ++ x ∷ []) ≡ map f xs ++ f x ∷ []
map-append_one f [] x = refl
map-append_one f (y ∷ xs) x = ap (λ u. f y ∷ u) (map-append_one f xs x)

nil_of : (s : Str) → is_empty s ≡ true → s ≡ []
nil_of [] e = refl
nil_of (c ∷ s) e = absurd (cc)

append_cons : (s t : Str) (c : ℕ) → [] ≢ s ++ c ∷ t
append_cons [] t c e = cc
append_cons (d ∷ s) t c e = cc

module _ (k : Codec) (laws : IsCodec k) where
  -- A text with a bar in it is not encoded as the empty text.
  encode_cons :
      (raw : Str) (s t : Str) (c : ℕ) → raw ≡ s ++ c ∷ t → is_empty (k.encode_base64 raw) ≡ false
  encode_cons raw s t c e = elim (Bool-cases (is_empty (k.encode_base64 raw))) [
    | inr full ↦ full
    | inl empty ↦
        let nothing : k.encode_base64 raw ≡ [] = nil_of (k.encode_base64 raw) empty in
        let back : k.decode_base64 [] ≡ some raw = rw nothing at (laws.base64 raw) in
        absurd (append_cons s t c (cc))
  ]

  encode_cursor_full : (c : Cursor) → is_empty (encode_cursor k c) ≡ false
  unfolding encode_cursor
  encode_cursor_full (t, id) =
      encode_cons (k.format_time t ++ b'|' ∷ k.uuid_string id) (k.format_time t) (k.uuid_string id)
        b'|' refl

  encode_cursor-IsSolid : (c : Cursor) → IsSolid (encode_cursor k c)
  unfolding encode_cursor
  encode_cursor-IsSolid (t, id) = laws.alphabet (k.format_time t ++ b'|' ∷ k.uuid_string id)

  optional_cursor :
      (r : Reason) (c : Cursor)
      → optional (decode_cursor k) r (encode_cursor k c) ≡ accepted (some c)
  unfolding optional or_refused
  optional_cursor r (t, id) =
      rw
        (
          trim_space-IsSolid (encode_cursor k (t, id)) (encode_cursor-IsSolid (t, id)),
          encode_cursor_full (t, id),
          decode_cursor-encode_cursor k laws (t, id),
        )
        refl

  read_query_next :
      (bound : Str → Option ℕ) (q : Query) (p : ListParams) (limit : ℕ) (c : Cursor)
      → read_query k bound q ≡ accepted (p, limit)
      → read_query k bound (record q { cursor = encode_cursor k c })
        ≡ accepted (record p { cursor = some c }, limit)
  unfolding read_query
  read_query_next bound q p limit c h = rw (optional_cursor invalid_cursor c) (
      assemble-next (filter_text q.status) (filter_text q.channel)
        (optional bound invalid_from q.from) (optional bound invalid_to q.to)
        (optional limit_value invalid_limit q.limit)
        (optional (decode_cursor k) invalid_cursor q.cursor) p limit c h)

  -- The request that `next` answers is read as the one before, behind the last row that was shown.
  abbrev pub IsContinued : (Str → Option ℕ) → Query → List Item → Str → Type 0
  IsContinued bound q items next =
      (pre : List Item) × (n : Notification) × (p : ListParams) × (limit : ℕ) × (items
        ≡ pre ++ shown n ∷ [])
      × (read_query k bound q ≡ accepted (p, limit))
      × (read_query k bound (record q { cursor = next })
          ≡ accepted (record p { cursor = some (cursor_of n) }, limit))

  -- The page of a cursor ends with its row.
  page_last :
      (p : ListParams) (limit : ℕ) (ns : List Notification) (c : Cursor)
      → (page p limit ns).1 ≡ some c
      → last_of (page p limit ns).0 ≡ some c
  unfolding page
  page_last p limit ns c e = ground arith

  continued :
      (bound : Str → Option ℕ) (q : Query) (p : ListParams) (limit : ℕ) (out : List Notification)
      (c : Cursor)
      → read_query k bound q ≡ accepted (p, limit)
      → last_of out ≡ some c
      → IsContinued bound q (map shown out) (encode_cursor k c)
  continued bound q p limit out c h e =
      let (pre, n, s, f) = last_of-append out c e in
      (
        map shown pre,
        n,
        p,
        limit,
        ap (map shown) s ∙ map-append_one shown pre n,
        h,
        read_query_next bound q p limit c h
            ∙ ap (λ u. accepted (record p { cursor = some u }, limit)) f,
      )

  -- A page that is shown with a cursor.
  shown-IsContinued :
      (bound : Str → Option ℕ) (q : Query) (p : ListParams) (limit : ℕ)
      (r : Result (List Notification × Option Cursor)) (items : List Item) (next : Str)
      → ((out : List Notification) (c : Cursor) → r ≡ ok (out, some c) → last_of out ≡ some c)
      → read_query k bound q ≡ accepted (p, limit)
      → answer_or_fail (shown_page k r) ≡ good (items, next)
      → next ≢ []
      → IsContinued bound q items next
  unfolding answer_or_fail shown_page next_cursor
  shown-IsContinued bound q p limit (err e) items next l h a ne = absurd (cc)
  shown-IsContinued bound q p limit (ok (out, none)) items next l h a ne =
      let same : [] ≡ next = cc in absurd (ne (sym same))
  shown-IsContinued bound q p limit (ok (out, some c)) items next l h a ne =
      subst (λ u. IsContinued bound q u.0 u.1) (good-inj a)
        (continued bound q p limit out c h (l out c refl))

  -- A row set that was read with a cursor ends with its row.
  read_last :
      {Body : Type 0} (fault : Fault) (p : ListParams) (limit : ℕ) (w : World Body)
      (out : List Notification) (c : Cursor)
      → (read fault (λ db. some (page p limit db.notifications)) w).0 ≡ ok (out, some c)
      → last_of out ≡ some c
  unfolding read found
  read_last fine p limit w out c e =
      let same : page p limit w.tables.notifications ≡ (out, some c) = cc in
      ap (λ u. last_of u.0) (sym same)
      ∙ page_last p limit w.tables.notifications c (ap (λ u. u.1) same)
  read_last lost_before p limit w out c e = absurd (cc)
  read_last lost_after p limit w out c e = absurd (cc)
  read_last refused p limit w out c e = absurd (cc)

  checked-IsContinued :
      {Body : Type 0} (env : ℕ → Turn) (bound : Str → Option ℕ) (q : Query)
      (x : Checked PageRequest) (w : World Body) (items : List Item) (next : Str)
      → read_query k bound q ≡ x
      → (list_checked env k x w).0 ≡ good (items, next)
      → next ≢ []
      → IsContinued bound q items next
  unfolding list_checked query_page
  checked-IsContinued env bound q (Checked.refused r) w items next h a ne = absurd (cc)
  checked-IsContinued env bound q (accepted (p, limit)) w items next h a ne =
      shown-IsContinued bound q p limit (query_page env (p, limit) w).0 items next
        (read_last (env w.tick).fault p limit (arrive env w)) h a ne

  -- Where a response has a cursor, its page is not empty, and the same request with that cursor is
  -- accepted: it has the filters and the limit of the first, and starts behind the last row of the page.
  pub list_notifications-IsContinued :
      {Body : Type 0} (env : ℕ → Turn) (bound : Str → Option ℕ) (q : Query) (w : World Body)
      (items : List Item) (next : Str)
      → (list_notifications env k bound q w).0 ≡ good (items, next)
      → next ≢ []
      → IsContinued bound q items next
  unfolding list_notifications
  list_notifications-IsContinued env bound q w items next a ne =
      checked-IsContinued env bound q (read_query k bound q) w items next refl a ne
