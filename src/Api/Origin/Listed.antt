-- ===== src/Api/Origin/Listed.antt =====
-- Origins that are listed with commas between them.
use notify_stream.Prelude.{
  true, false, ◌≡◌, ◌≢◌, ◌⊎◌, ◌↔◌, refl, ap, ◌∙◌, List, [], ◌∷◌, ◌++◌, Str, All, IsIn, All-append,
  is_empty, split, str_eq_iff, IsSolid, trim_space-IsSolid, is_space, arith,
}
use notify_stream.Api.Origin.{trimmed_parts, allowed_origins, is_listed, allows, check_origin}

-- `strings.Join(names, ",")`
abbrev pub join : List Str → Str
join [] = []
join (n ∷ []) = n
join (n ∷ m ∷ ns) = n ++ b',' ∷ join (m ∷ ns)

-- A name has no comma and no white space, and is not empty.
abbrev pub IsOrigin : Str → Type 0
IsOrigin n = All (λ c. c ≢ b',') n × IsSolid n × (is_empty n ≡ false)

split_front : (s t : Str) → All (λ c. c ≢ b',') s → split b',' (s ++ b',' ∷ t) ≡ s ∷ split b',' t
unfolding split
split_front [] t h = refl
split_front (c ∷ s) t (ne, h) = ground (arith, split_front s t h)

split_whole : (s : Str) → All (λ c. c ≢ b',') s → split b',' s ≡ s ∷ []
unfolding split
split_whole [] h = refl
split_whole (c ∷ s) (ne, h) = ground (arith, split_whole s h)

split-join : (n : Str) (ns : List Str) → All IsOrigin (n ∷ ns) → split b',' (join (n ∷ ns)) ≡ n ∷ ns
split-join n [] ((h, _, _), _) = split_whole n h
split-join n (m ∷ ns) ((h, _, _), hs) =
    split_front n (join (m ∷ ns)) h ∙ ap (λ u. n ∷ u) (split-join m ns hs)

trimmed_parts_same : (ns : List Str) → All IsOrigin ns → trimmed_parts ns ≡ ns
unfolding trimmed_parts
trimmed_parts_same [] h = refl
trimmed_parts_same (n ∷ ns) ((_, solid, full), h) =
    rw (trim_space-IsSolid n solid, full, trimmed_parts_same ns h) refl

join-IsSolid : (ns : List Str) → All IsOrigin ns → IsSolid (join ns)
unfolding is_space
join-IsSolid [] h = tt
join-IsSolid (n ∷ []) ((_, solid, _), _) = solid
join-IsSolid (n ∷ m ∷ ns) ((_, solid, _), h) =
    All-append (λ c. is_space c ≡ false) n (b',' ∷ join (m ∷ ns)) solid
      (refl, join-IsSolid (m ∷ ns) h)

join_full : (n : Str) (ns : List Str) → is_empty n ≡ false → is_empty (join (n ∷ ns)) ≡ false
join_full n [] h = h
join_full [] (m ∷ ns) h = absurd (cc)
join_full (c ∷ n) (m ∷ ns) h = refl

is_listed_iff : (ns : List Str) (o : Str) → (is_listed ns o ≡ true) ↔ IsIn o ns
unfolding is_listed
is_listed_iff [] o = (λ e. cc, λ h. absurd h)
is_listed_iff (n ∷ ns) o = ground (arith, str_eq_iff o n, is_listed_iff ns o)

nil_iff : (o : Str) → (is_empty o ≡ true) ↔ (o ≡ [])
nil_iff [] = (λ e. refl, λ e. refl)
nil_iff (c ∷ o) = (λ e. cc, λ e. cc)

-- Where the variable lists origins with commas between them, a request is let in exactly if it names
-- none or one of them.
pub check_origin_iff :
    (n : Str) (ns : List Str) (o : Str)
    → All IsOrigin (n ∷ ns)
    → (check_origin (join (n ∷ ns)) o ≡ true) ↔ ((o ≡ []) ⊎ IsIn o (n ∷ ns))
unfolding check_origin allowed_origins allows
check_origin_iff n ns o h = ground (
  arith,
  trim_space-IsSolid (join (n ∷ ns)) (join-IsSolid (n ∷ ns) h),
  join_full n ns h.0.2,
  split-join n ns h,
  trimmed_parts_same (n ∷ ns) h,
  is_listed_iff (n ∷ ns) o,
  nil_iff o,
)
