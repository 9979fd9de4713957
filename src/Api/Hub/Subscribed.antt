-- ===== src/Api/Hub/Subscribed.antt =====
-- The registries hold the open connections that asked for an identifier, each once.
use notify_stream.Prelude.{
  ℕ, suc, ◌≡◌, refl, Bool, false, ◌&&◌, ◌||◌, not, Option, none, some, List, [], ◌∷◌, ◌==◌,
  if◌then◌else◌, arith,
}
use notify_stream.Api.Hub.{
  Registry, Hub, new_hub, has, include, exclude, add_to, add_notif, add_batch, remove_conn, Step,
  opens, closes, add_some, serve, serve_all,
}

-- How often a connection is in a set.
unfoldable pub times : ℕ → List ℕ → ℕ
times c [] = 0
times c (d ∷ ds) = let rest = times c ds in if d == c then suc rest else rest

abbrev pub once : Bool → ℕ
once b = if b then 1 else 0

abbrev pub names : Option ℕ → ℕ → Bool
names none id = false
names (some j) id = id == j

-- Whether `c` is open for the notification `id` behind a step, if `was` says so before it.
abbrev pub is_then : ℕ → ℕ → Step → Bool → Bool
is_then id c (opens n b d) was = was || d == c && names n id
is_then id c (closes d) was = was && not (d == c)

abbrev pub is_open : ℕ → ℕ → List Step → Bool → Bool
is_open id c [] was = was
is_open id c (s ∷ ss) was = is_open id c ss (is_then id c s was)

has-times : (c : ℕ) (ds : List ℕ) → has c ds ≡ not (times c ds == 0)
unfolding has times
has-times c [] = refl
has-times c (d ∷ ds) = ground (arith, has-times c ds)

times-include :
    (c d : ℕ) (ds : List ℕ) (b : Bool)
    → times c ds ≡ once b
    → times c (include d ds) ≡ once (b || d == c)
unfolding include times
times-include c d ds b h = ground (arith, has-times d ds, has-times c ds)

times-exclude :
    (c d : ℕ) (ds : List ℕ) → times c (exclude d ds) ≡ (if d == c then 0 else times c ds)
unfolding exclude times
times-exclude c d [] = ground arith
times-exclude c d (e ∷ ds) = ground (arith, times-exclude c d ds)

times-add_to :
    (c d id j : ℕ) (r : Registry) (was : Bool)
    → times c (r id) ≡ once was
    → times c (add_to j d r id) ≡ once (was || d == c && id == j)
unfolding add_to
times-add_to c d id j r was h = ground (arith, times-include c d (r id) was)

same_notif :
    (d : ℕ) (b : Option ℕ) (h : Hub) → (add_some (λ id. add_batch id d) b h).by_notif ≡ h.by_notif
unfolding add_some add_batch
same_notif d none h = refl
same_notif d (some id) h = refl

times-add_some :
    (c d id : ℕ) (n : Option ℕ) (h : Hub) (was : Bool)
    → times c (h.by_notif id) ≡ once was
    → times c ((add_some (λ j. add_notif j d) n h).by_notif id) ≡ once (was || d == c && names n id)
unfolding add_some add_notif
times-add_some c d id none h was e = ground arith
times-add_some c d id (some j) h was e = times-add_to c d id j h.by_notif was e

times-serve :
    (c id : ℕ) (s : Step) (h : Hub) (was : Bool)
    → times c (h.by_notif id) ≡ once was
    → times c ((serve s h).by_notif id) ≡ once (is_then id c s was)
unfolding serve remove_conn
times-serve c id (opens n b d) h was e =
    rw (same_notif d b (add_some (λ j. add_notif j d) n h)) (times-add_some c d id n h was e)
times-serve c id (closes d) h was e = ground (arith, times-exclude c d (h.by_notif id))

times-serve_all :
    (c id : ℕ) (ss : List Step) (h : Hub) (was : Bool)
    → times c (h.by_notif id) ≡ once was
    → times c ((serve_all ss h).by_notif id) ≡ once (is_open id c ss was)
unfolding serve_all
times-serve_all c id [] h was e = e
times-serve_all c id (s ∷ ss) h was e =
    times-serve_all c id ss (serve s h) (is_then id c s was) (times-serve c id s h was e)

-- After connections were opened and closed in any order, the set that an event for a notification is
-- written to holds a connection once if it is open and asked for that notification, and otherwise not.
pub serve_all-times :
    (c id : ℕ) (ss : List Step)
    → times c ((serve_all ss new_hub).by_notif id) ≡ once (is_open id c ss false)
unfolding times
serve_all-times c id ss = times-serve_all c id ss new_hub false refl
