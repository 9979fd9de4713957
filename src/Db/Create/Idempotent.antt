-- ===== src/Db/Create/Idempotent.antt =====
-- An idempotency key names one notification, however often it is sent.
use notify_stream.Prelude.{
  ℕ, suc, ◌≡◌, refl, ◌∙◌, true, false, Bool, Bool-cases, Option-cases, inl, inr, Option, none, some,
  List, [], ◌∷◌, ◌++◌, Str, str_eq_refl, arith,
}
use notify_stream.Domain.Types.{Notification, CreateItem}
use notify_stream.Db.Tables.{Tables, has_key, find_key}
use notify_stream.Db.Change.{apply, key_taken, insert_unless}
use notify_stream.Db.Transaction.{tx_exec, tx_execute, tx_read, tx_look}
use notify_stream.Db.Store.{found}
use notify_stream.Db.Create.{
  has_template, key_of, row_of, is_storable, by_key, settled, store_row, insert_notification, known,
}
use notify_stream.World.{fine, Turn, World, Result, ok}

find_key_added :
    (k : Str) (ns : List Notification) (m : Notification)
    → find_key k ns ≡ none
    → m.idempotency_key ≡ some k
    → find_key k (ns ++ m ∷ []) ≡ some m
unfolding find_key has_key
find_key_added k [] m h e = rw (e, str_eq_refl) refl
find_key_added k (n ∷ ns) m h e = elim (Bool-cases (has_key k n.idempotency_key)) [
  | inl own ↦ absurd (ground arith)
  | inr other ↦ rw other (find_key_added k ns m (rw other at h) e)
]

taken_of_found :
    (o : Option Str) (ns : List Notification) {k : Str} {n : Notification}
    → o ≡ some k
    → find_key k ns ≡ some n
    → key_taken o ns ≡ true
unfolding key_taken
taken_of_found o ns e f = rw (e, f) refl

free_of_missing :
    (o : Option Str) (ns : List Notification) {k : Str}
    → o ≡ some k
    → find_key k ns ≡ none
    → key_taken o ns ≡ false
unfolding key_taken
free_of_missing o ns e f = rw (e, f) refl

module _ {Body : Type 0} (env : ℕ → Turn) where
  -- A key that a row has: nothing is written, and that row is returned.
  pub store_row_known :
      (now : ℕ) (n : Notification) (w : World Body) {k : Str} {old : Notification}
      → is_storable n ≡ true
      → (env w.tick).fault ≡ fine
      → (env (suc w.tick)).fault ≡ fine
      → n.idempotency_key ≡ some k
      → find_key k w.tables.notifications ≡ some old
      → store_row env now n w ≡ (ok (old, false), record w { tick = suc (suc w.tick) })
  unfolding store_row tx_exec tx_execute apply insert_unless settled by_key tx_read tx_look known
      found
  store_row_known now n w s f g e h =
      let taken = taken_of_found n.idempotency_key w.tables.notifications e h in
      rw (s, taken, f, taken, e, g, h) refl

  -- A key that no row has: the row is appended and returned.
  pub store_row_new :
      (now : ℕ) (n : Notification) (w : World Body) {k : Str}
      → is_storable n ≡ true
      → (env w.tick).fault ≡ fine
      → n.idempotency_key ≡ some k
      → find_key k w.tables.notifications ≡ none
      → has_template n.template_id w.tables.templates ≡ true
      → store_row env now n w ≡ (
        ok (n, true),
        record w {
          tables = record w.tables { notifications = w.tables.notifications ++ n ∷ [] };
          tick = suc w.tick;
        },
      )
  unfolding store_row tx_exec tx_execute apply insert_unless settled
  store_row_new now n w s f e h there =
      let free = free_of_missing n.idempotency_key w.tables.notifications e h in
      rw (s, free, there, f, free) refl

-- The row of an item with the correlation can be stored, whatever its identifier, time and batch.
abbrev pub IsStorable : CreateItem → Option Str → Type 0
IsStorable item c = (id now : ℕ) (b : Option ℕ) → is_storable (row_of id now b item c) ≡ true

-- Where no row has the key, the template that the item names is in the table.
abbrev pub HasTemplate : Str → CreateItem → Tables → Type 0
HasTemplate k item db =
    find_key k db.notifications ≡ none → has_template item.template_id db.templates ≡ true

key-row_of :
    (id now : ℕ) (b : Option ℕ) (item : CreateItem) (c : Option Str)
    → (row_of id now b item c).idempotency_key ≡ key_of item.idempotency_key
unfolding row_of
key-row_of id now b item c = refl

-- A second insertion of the key finds what the first one returned.
abbrev pub Repeats :
    {Body : Type 0}
    → (env : ℕ → Turn) → Result (Notification × Bool)
    → World Body
    → Result (Notification × Bool)
    → World Body
    → Type 0
Repeats env r w r' w' =
    (n : Notification) × (b : Bool) × (r ≡ ok (n, b))
    × (r' ≡ ok (n, false))
    × (w'.tables ≡ w.tables)

module _ {Body : Type 0} (env : ℕ → Turn) (works : (t : ℕ) → (env t).fault ≡ fine) where
  -- An item whose key a row has.
  insert_known :
      (now : ℕ) (b : Option ℕ) (item : CreateItem) (c : Option Str) (w : World Body) {k : Str}
      {old : Notification}
      → IsStorable item c
      → key_of item.idempotency_key ≡ some k
      → find_key k w.tables.notifications ≡ some old
      → insert_notification env now b item c w
        ≡ (ok (old, false), record w { tick = suc (suc w.tick) })
  unfolding insert_notification
  insert_known now b item c w s e h =
      store_row_known env now (row_of (env w.tick).uuid now b item c) w (s (env w.tick).uuid now b)
        (works w.tick) (works (suc w.tick)) (key-row_of (env w.tick).uuid now b item c ∙ e) h

  insert_new :
      (now : ℕ) (b : Option ℕ) (item : CreateItem) (c : Option Str) (w : World Body) {k : Str}
      → IsStorable item c
      → key_of item.idempotency_key ≡ some k
      → find_key k w.tables.notifications ≡ none
      → has_template item.template_id w.tables.templates ≡ true
      → let n = row_of (env w.tick).uuid now b item c in
        insert_notification env now b item c w ≡ (
          ok (n, true),
          record w {
            tables = record w.tables { notifications = w.tables.notifications ++ n ∷ [] };
            tick = suc w.tick;
          },
        )
  unfolding insert_notification row_of
  insert_new now b item c w s e h there =
      store_row_new env now (row_of (env w.tick).uuid now b item c) w (s (env w.tick).uuid now b)
        (works w.tick) e h there

  -- Where the statements work, two items that have the same key, whatever else is in them, give one
  -- notification: the second insertion writes nothing and returns the row that the first one returned.
  -- The rows of the items are taken to be storable, and the template of the first one, where its row is
  -- inserted, to be in the table; that of the second one may be missing.
  pub insert_notification-Repeats :
      (now now' : ℕ) (b b' : Option ℕ) (item item' : CreateItem) (c c' : Option Str)
      (w : World Body) {k : Str}
      → IsStorable item c
      → IsStorable item' c'
      → HasTemplate k item w.tables
      → key_of item.idempotency_key ≡ some k
      → key_of item'.idempotency_key ≡ some k
      → let (r, w1) = insert_notification env now b item c w in
        let (r', w2) = insert_notification env now' b' item' c' w1 in Repeats env r w1 r' w2
  insert_notification-Repeats now now' b b' item item' c c' w {k} s s' there e e' =
      elim (Option-cases (find_key k w.tables.notifications)) [
        | inl missing ↦
            let n : Notification = row_of (env w.tick).uuid now b item c in
            let w1 : World Body = record w {
              tables = record w.tables { notifications = w.tables.notifications ++ n ∷ [] };
              tick = suc w.tick;
            } in
            rw
              (
                insert_new now b item c w s e missing (there missing),
                insert_known now' b' item' c' w1 s' e' (
                    find_key_added k w.tables.notifications n missing
                      (key-row_of (env w.tick).uuid now b item c ∙ e)),
              )
              (n, true, refl, refl, refl)
        | inr (old, present) ↦
            rw
              (
                insert_known now b item c w s e present,
                insert_known now' b' item' c' (record w { tick = suc (suc w.tick) }) s' e' present,
              )
              (old, false, refl, refl, refl)
      ]
