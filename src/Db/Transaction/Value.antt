-- ===== src/Db/Transaction/Value.antt =====
-- What a transaction returns.
use notify_stream.Prelude.{ℕ, ◌≡◌}
use notify_stream.Db.Tables.{Tables}
use notify_stream.Db.Transaction.{commit, begun, transact}
use notify_stream.World.{
  Fault, fine, lost_before, lost_after, refused, Turn, World, Result, ok, M, arrive,
}

module _ {Body A : Type 0} where
  pub commit-value :
      (f : Fault) (saved : Tables) (a : A) (w : World Body) {b : A}
      → (commit f saved a w).0 ≡ ok b
      → ok a ≡ ok b
  unfolding commit
  commit-value fine saved a w h = h
  commit-value lost_before saved a w h = absurd (cc)
  commit-value lost_after saved a w h = absurd (cc)
  commit-value refused saved a w h = absurd (cc)

module _ {Body A : Type 0} (env : ℕ → Turn) (finish : Tables → Result A → M Body (Result A))
    (returns : (saved : Tables) (r : Result A) (w : World Body) (b : A)
      → (finish saved r w).0 ≡ ok b
      → r ≡ ok b) where
  begun-value :
      (f : Fault) (body : M Body (Result A)) (w : World Body) {b : A}
      → (begun env finish f body w).0 ≡ ok b
      → (body w).0 ≡ ok b
  unfolding begun
  begun-value fine body w {b} h = returns w.tables (body w).0 (body w).1 b h
  begun-value lost_before body w h = absurd (cc)
  begun-value lost_after body w h = absurd (cc)
  begun-value refused body w h = absurd (cc)

  -- A transaction returns what its statements return, where its caller does.
  pub transact-value :
      (body : ℕ → M Body (Result A)) (w : World Body) {b : A}
      → (transact env finish body w).0 ≡ ok b
      → (body (env w.tick).now (arrive env w)).0 ≡ ok b
  unfolding transact
  transact-value body w h = begun-value (env w.tick).fault (body (env w.tick).now) (arrive env w) h
