-- ===== src/Db/Change/Keys.antt =====
-- The partial unique index on `idempotency_key`: no statement makes a second row with a key.
use notify_stream.Prelude.{
  ℕ, ◌≡◌, refl, true, false, Bool, Bool-cases, inl, inr, ◌&&◌, ◌==◌, Option, none, some, List, [],
  ◌∷◌, ◌++◌, Str, str_eq_iff, arith,
}
use notify_stream.Domain.Types.{Notification}
use notify_stream.Db.Tables.{Tables, has_key, find_key}
use notify_stream.Db.Change.{
  Change, release_sending, mark_sending, mark_delivered, mark_failed, mark_queued, cancel,
  insert_row, update_row, from_status, set_row, apply, run, key_taken, insert_unless,
}

-- No row of the list has this key, if it is not null.
abbrev pub IsFree : Option Str → List Notification → Type 0
IsFree none ns = Unit
IsFree (some k) ns = find_key k ns ≡ none

-- Two rows of the list have different keys, or one of them has none.
abbrev pub HasUniqueKeys : List Notification → Type 0
HasUniqueKeys [] = Unit
HasUniqueKeys (n ∷ ns) = IsFree n.idempotency_key ns × HasUniqueKeys ns

key-set_row : (c : Change) (n : Notification) → (set_row c n).idempotency_key ≡ n.idempotency_key
unfolding set_row
key-set_row c n = ground arith

find_key-update_row :
    (c : Change) (now id : ℕ) (k : Str) (ns : List Notification)
    → find_key k ns ≡ none
    → find_key k (update_row (from_status c) (set_row c) now id ns).0 ≡ none
unfolding find_key update_row
find_key-update_row c now id k [] h = refl
find_key-update_row c now id k (n ∷ ns) h = elim (Bool-cases (has_key k n.idempotency_key)) [
  | inl own ↦ absurd (ground arith)
  | inr other ↦ elim (Bool-cases (n.id == id && from_status c n.status)) [
    | inl hit ↦ rw (hit, key-set_row c n, other) (find_key-update_row c now id k ns (rw other at h))
    | inr miss ↦ rw (miss, other) (find_key-update_row c now id k ns (rw other at h))
  ]
]

IsFree-update_row :
    (c : Change) (now id : ℕ) (o : Option Str) (ns : List Notification)
    → IsFree o ns
    → IsFree o (update_row (from_status c) (set_row c) now id ns).0
IsFree-update_row c now id none ns h = tt
IsFree-update_row c now id (some k) ns h = find_key-update_row c now id k ns h

update_row-HasUniqueKeys :
    (c : Change) (now id : ℕ) (ns : List Notification)
    → HasUniqueKeys ns
    → HasUniqueKeys (update_row (from_status c) (set_row c) now id ns).0
unfolding update_row
update_row-HasUniqueKeys c now id [] h = tt
update_row-HasUniqueKeys c now id (n ∷ ns) (free, h) =
    let rest : HasUniqueKeys (update_row (from_status c) (set_row c) now id ns).0 =
      update_row-HasUniqueKeys c now id ns h in
    elim (Bool-cases (n.id == id && from_status c n.status)) [
      | inl hit ↦
          rw (hit, key-set_row c n) (IsFree-update_row c now id n.idempotency_key ns free, rest)
      | inr miss ↦ rw miss (IsFree-update_row c now id n.idempotency_key ns free, rest)
    ]

find_key-append :
    (k : Str) (ns : List Notification) (m : Notification)
    → find_key k ns ≡ none
    → has_key k m.idempotency_key ≡ false
    → find_key k (ns ++ m ∷ []) ≡ none
unfolding find_key
find_key-append k [] m h f = rw f refl
find_key-append k (n ∷ ns) m h f = ground (arith, find_key-append k ns m)

-- A row whose key no earlier row has is behind rows that it leaves free.
other_key :
    (o p : Option Str) {k j : Str}
    → o ≡ some k
    → p ≡ some j
    → has_key j o ≡ false
    → has_key k p ≡ false
unfolding has_key
other_key none p e f h = absurd (cc)
other_key (some a) none e f h = refl
other_key (some a) (some b) {k} {j} e f h =
    ground (arith, str_eq_iff a b, str_eq_iff b a, str_eq_iff a j, str_eq_iff b k)

IsFree-append :
    (o : Option Str) (ns : List Notification) (m : Notification)
    → IsFree o ns
    → ((k : Str) → o ≡ some k → has_key k m.idempotency_key ≡ false)
    → IsFree o (ns ++ m ∷ [])
IsFree-append none ns m h f = tt
IsFree-append (some k) ns m h f = find_key-append k ns m h (f k refl)

IsFree-nil : (o : Option Str) → IsFree o []
unfolding find_key
IsFree-nil none = tt
IsFree-nil (some k) = refl

key_taken_cons :
    (o : Option Str) (n : Notification) (ns : List Notification)
    → key_taken o (n ∷ ns) ≡ false
    → (key_taken o ns ≡ false) × ((k : Str) → n.idempotency_key ≡ some k → has_key k o ≡ false)
unfolding key_taken find_key has_key
key_taken_cons none n ns h = (refl, λ k e. refl)
key_taken_cons (some j) n ns h = elim (Bool-cases (has_key j n.idempotency_key)) [
  | inl own ↦ absurd (ground arith)
  | inr other ↦ (rw other at h, λ k e. other_key n.idempotency_key (some j) e refl other)
]

append-HasUniqueKeys :
    (ns : List Notification) (m : Notification)
    → key_taken m.idempotency_key ns ≡ false
    → HasUniqueKeys ns
    → HasUniqueKeys (ns ++ m ∷ [])
append-HasUniqueKeys [] m t h = (IsFree-nil m.idempotency_key, tt)
append-HasUniqueKeys (n ∷ ns) m t (free, h) =
    let (t', f) = key_taken_cons m.idempotency_key n ns t in
    (IsFree-append n.idempotency_key ns m free f, append-HasUniqueKeys ns m t' h)

insert_unless-HasUniqueKeys :
    (taken : Bool) (m : Notification) (db : Tables)
    → key_taken m.idempotency_key db.notifications ≡ taken
    → HasUniqueKeys db.notifications
    → HasUniqueKeys (insert_unless taken m db).0.notifications
unfolding insert_unless
insert_unless-HasUniqueKeys true m db t h = h
insert_unless-HasUniqueKeys false m db t h = append-HasUniqueKeys db.notifications m t h

apply-HasUniqueKeys :
    (c : Change) (now : ℕ) (db : Tables)
    → HasUniqueKeys db.notifications
    → HasUniqueKeys (apply c now db).0.notifications
unfolding apply
apply-HasUniqueKeys (insert_row m) now db h =
    insert_unless-HasUniqueKeys (key_taken m.idempotency_key db.notifications) m db refl h
apply-HasUniqueKeys (release_sending k) now db h =
    update_row-HasUniqueKeys (release_sending k) now k db.notifications h
apply-HasUniqueKeys (mark_sending k) now db h =
    update_row-HasUniqueKeys (mark_sending k) now k db.notifications h
apply-HasUniqueKeys (mark_delivered k mid) now db h =
    update_row-HasUniqueKeys (mark_delivered k mid) now k db.notifications h
apply-HasUniqueKeys (mark_failed k) now db h =
    update_row-HasUniqueKeys (mark_failed k) now k db.notifications h
apply-HasUniqueKeys (mark_queued k) now db h =
    update_row-HasUniqueKeys (mark_queued k) now k db.notifications h
apply-HasUniqueKeys (cancel k) now db h =
    update_row-HasUniqueKeys (cancel k) now k db.notifications h
apply-HasUniqueKeys _ now db h = h

-- If the rows have unique idempotency keys, they have them after any statements, insertions of
-- notifications with a key that is taken included.
pub run-HasUniqueKeys :
    (cs : List (Change × ℕ)) (db : Tables)
    → HasUniqueKeys db.notifications
    → HasUniqueKeys (run cs db).notifications
unfolding run
run-HasUniqueKeys [] db h = h
run-HasUniqueKeys ((c, now) ∷ cs) db h =
    run-HasUniqueKeys cs (apply c now db).0 (apply-HasUniqueKeys c now db h)
