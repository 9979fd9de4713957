-- ===== src/Db/Transaction/Quiet.antt =====
-- Statements of a transaction send nothing.
use notify_stream.Prelude.{ℕ, ◌≡◌, refl}
use notify_stream.Db.Tables.{Tables}
use notify_stream.Db.Change.{Change}
use notify_stream.Db.Transaction.{tx_execute, tx_exec, commit}
use notify_stream.World.{Fault, fine, lost_before, lost_after, refused, Turn, World}

module _ {Body : Type 0} where
  published-tx_execute :
      (f : Fault) (c : Change) (now : ℕ) (w : World Body)
      → (tx_execute f c now w).1.published ≡ w.published
  unfolding tx_execute
  published-tx_execute fine c now w = refl
  published-tx_execute _ c now w = refl

module _ {Body : Type 0} (env : ℕ → Turn) where
  pub published-tx_exec :
      (c : Change) (now : ℕ) (w : World Body) → (tx_exec env c now w).1.published ≡ w.published
  unfolding tx_exec
  published-tx_exec c now w = published-tx_execute (env w.tick).fault c now _

module _ {Body A : Type 0} where
  pub published-commit :
      (f : Fault) (saved : Tables) (a : A) (w : World Body)
      → (commit f saved a w).1.published ≡ w.published
  unfolding commit
  published-commit fine saved a w = refl
  published-commit lost_before saved a w = refl
  published-commit lost_after saved a w = refl
  published-commit refused saved a w = refl
