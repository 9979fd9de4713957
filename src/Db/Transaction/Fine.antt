-- ===== src/Db/Transaction/Fine.antt =====
-- A transaction when nothing fails and nobody interferes.
use notify_stream.Prelude.{ℕ, suc, ◌≡◌, refl}
use notify_stream.Db.Tables.{Tables}
use notify_stream.Db.Change.{run}
use notify_stream.Db.Transaction.{commit, tx_commit, begun, transact}
use notify_stream.World.{Turn, World, Result, ok, M, arrive}
use notify_stream.World.Quiet.{IsQuiet}

module _ {Body A : Type 0} (env : ℕ → Turn) (q : IsQuiet env) where
  -- What the statements give is committed, where the caller commits what went well.
  pub transact_quiet :
      (finish : Tables → Result A → M Body (Result A))
      → ((saved : Tables) (a : A) (w : World Body)
          → finish saved (ok a) w ≡ tx_commit env saved a w)
      → (body : ℕ → M Body (Result A)) (w : World Body) {a : A} {w' : World Body}
      → body (env w.tick).now (record w { tick = suc w.tick }) ≡ (ok a, w')
      → transact env finish body w ≡ (ok a, record w' { tick = suc w'.tick })
  unfolding transact begun tx_commit commit arrive run
  transact_quiet finish commits body w {a} {w'} h =
      rw (q.works w.tick, q.alone w.tick, h, commits w.tables a w', q.works, q.alone) refl
