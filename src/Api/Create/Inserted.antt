-- ===== src/Api/Create/Inserted.antt =====
-- The rows that the transaction of a request inserts, when nothing fails and nobody interferes.
use notify_stream.Prelude.{
  ℕ, suc, ◌≡◌, refl, ap, sym, Bool-cases, inl, inr, false, Option, none, some, List, [], ◌∷◌, ◌++◌,
  Str, All, append-nil, append_assoc, length, ltb, map, is_some,
}
use notify_stream.Domain.Types.{Notification, CreateItem}
use notify_stream.Db.Change.{apply, insert_batch, key_taken}
use notify_stream.Db.Create.{has_nul, row_of, insert_notification, create_batch, returned_id}
use notify_stream.Db.Transaction.{tx_exec, tx_execute}
use notify_stream.Api.Create.{insert_all, inserted, collect, with_batch, in_batch, store_all}
use notify_stream.Api.Create.Quiet.{with_row, store_row_quiet}
use notify_stream.Api.Create.Stored.{IsPlain, AreFree, item_key, free_last, storable, needs_none}
use notify_stream.World.{Turn, World, ok}
use notify_stream.World.Quiet.{IsQuiet}
use notify_stream.Api.Create.Rows.{fresh, with_rows, ticks_after, made_rows}

module _ {Body : Type 0} (env : ℕ → Turn) (q : IsQuiet env) (now : ℕ) (corr : Str)
    (readable : has_nul corr ≡ false) where
  abbrev with_new : Option ℕ → CreateItem → World Body → World Body
  with_new batch it w = record w {
    tables = with_row (row_of (env w.tick).uuid now batch it (some corr)) w.tables;
    tick = suc w.tick;
  }

  insert_one_quiet :
      (batch : Option ℕ) (it : CreateItem) (w : World Body)
      → IsPlain it
      → key_taken (item_key it) w.tables.notifications ≡ false
      → insert_notification env now batch it (some corr) w
        ≡ (ok (fresh (row_of (env w.tick).uuid now batch it (some corr))), with_new batch it w)
  unfolding insert_notification row_of
  insert_one_quiet batch it w p free =
      store_row_quiet env q now (row_of (env w.tick).uuid now batch it (some corr)) w
        (storable (env w.tick).uuid now batch it corr p.acceptable p.clean readable) free
        (needs_none it.template_id w.tables.templates p.template)

  insert_all_quiet :
      (batch : Option ℕ) (its : List CreateItem) (w : World Body)
      → All IsPlain its
      → AreFree its w.tables.notifications
      → insert_all env now batch corr its w ≡ (
        ok (map fresh (made_rows env now batch corr its w.tick)),
        record w {
          tables = with_rows (made_rows env now batch corr its w.tick) w.tables;
          tick = ticks_after its w.tick;
        },
      )
  unfolding insert_all inserted collect row_of
  insert_all_quiet batch [] w h f =
      ap (λ ns. (ok [], record w { tables = record w.tables { notifications = ns } }))
        (sym (append-nil w.tables.notifications))
  insert_all_quiet batch (it ∷ its) w (p, h) (free, other, f) =
      let n : Notification = row_of (env w.tick).uuid now batch it (some corr) in
      rw
        (
          insert_one_quiet batch it w p free,
          insert_all_quiet batch its (with_new batch it w) h
              (free_last its w.tables.notifications n other f),
        )
        (ap
          (λ ns. (
            ok (fresh n ∷ map fresh (made_rows env now batch corr its (suc w.tick))),
            record w {
              tables = record w.tables { notifications = ns };
              tick = ticks_after its (suc w.tick);
            },
          ))
          (append_assoc w.tables.notifications (n ∷ [])
            (made_rows env now batch corr its (suc w.tick))))

-- The transaction inserted the rows of the items, under a batch if there are several, and sent nothing.
pub record IsStored {Body : Type 0} (env : ℕ → Turn) (now : ℕ) (corr : Str) (its : List CreateItem)
    (w w' : World Body) : Type 0 where
  pub batch : Option ℕ
  pub first : ℕ
  pub batched : is_some batch ≡ ltb 1 (length its)
  pub notifications :
      w'.tables.notifications ≡ w.tables.notifications ++ made_rows env now batch corr its first
  pub published : w'.published ≡ w.published
  pub events : w'.events ≡ w.events
  pub posts : w'.posts ≡ w.posts

-- What the transaction returns.
abbrev pub stored_rows :
    {Body : Type 0} {env : ℕ → Turn} {now : ℕ} {corr : Str} {its : List CreateItem}
    {w w' : World Body}
    → IsStored env now corr its w w'
    → List Notification
stored_rows {env} {now} {corr} {its} s = made_rows env now s.batch corr its s.first

module _ {Body : Type 0} (env : ℕ → Turn) (q : IsQuiet env) (metadata corr : Str)
    (readable : has_nul corr ≡ false) where
  pub store_all_quiet :
      (its : List CreateItem) (now : ℕ) (w : World Body)
      → All IsPlain its
      → AreFree its w.tables.notifications
      → (w' : World Body) × (s : IsStored env now corr its w w') × (store_all env metadata corr its
            now w
          ≡ (ok (s.batch, map fresh (stored_rows s)), w'))
  unfolding store_all in_batch with_batch create_batch tx_exec tx_execute apply returned_id
  store_all_quiet its now w h f = elim (Bool-cases (ltb 1 (length its))) [
    | inl many ↦
        let b : Option ℕ = some (env w.tick).uuid in
        let w1 : World Body = record w {
          tables =
              (apply
                (insert_batch (record {
                  id = (env w.tick).uuid;
                  metadata = metadata;
                  notification_count = length its;
                }))
                now w.tables).0;
          tick = suc w.tick;
        } in
        (
          record w1 {
            tables = with_rows (made_rows env now b corr its w1.tick) w1.tables;
            tick = ticks_after its w1.tick;
          },
          record {
            batch = b;
            first = w1.tick;
            batched = sym many;
            notifications = refl;
            published = refl;
            events = refl;
            posts = refl;
          },
          rw (many, q.works w.tick, insert_all_quiet env q now corr readable b its w1 h f) refl,
        )
    | inr few ↦ (
      record w {
        tables = with_rows (made_rows env now none corr its w.tick) w.tables;
        tick = ticks_after its w.tick;
      },
      record {
        batch = none;
        first = w.tick;
        batched = sym few;
        notifications = refl;
        published = refl;
        events = refl;
        posts = refl;
      },
      rw (few, insert_all_quiet env q now corr readable none its w h f) refl,
    )
  ]
