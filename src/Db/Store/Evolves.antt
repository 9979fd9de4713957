-- ===== src/Db/Store/Evolves.antt =====
-- The methods of the store on a world.
use notify_stream.Prelude.{ℕ, ◌≡◌, refl, [], ◌∷◌, Option, Str}
use notify_stream.Db.Tables.{Tables}
use notify_stream.Db.Change.{Change, run}
use notify_stream.World.{Fault, fine, lost_before, lost_after, refused, Turn, World, arrive}
use notify_stream.World.Evolves.{
  Evolves, Evolves-refl, Evolves-tables, Evolves-quiet, arrive-Evolves,
}
use notify_stream.Db.Store.{
  execute, read, exec, get_by_id, get_template, release_sending_to_queued, mark_sending,
  mark_delivered, mark_failed, cancel,
}

module _ {Body : Type 0} where
  execute-Evolves :
      (f : Fault) (c : Change) (now : ℕ) (w : World Body) → Evolves 0 w (execute f c now w).1
  unfolding execute run
  execute-Evolves fine c now w = Evolves-tables w ((c, now) ∷ []) w.tick
  execute-Evolves lost_before c now w = Evolves-refl w
  execute-Evolves refused c now w = Evolves-refl w
  execute-Evolves lost_after c now w = Evolves-tables w ((c, now) ∷ []) w.tick

module _ {Body A : Type 0} where
  -- A query changes nothing.
  pub read_same : (f : Fault) (q : Tables → Option A) (w : World Body) → (read f q w).1 ≡ w
  unfolding read
  read_same fine q w = refl
  read_same lost_before q w = refl
  read_same lost_after q w = refl
  read_same refused q w = refl

module _ {Body A : Type 0} where
  read-Evolves : (f : Fault) (q : Tables → Option A) (w : World Body) → Evolves 0 w (read f q w).1
  unfolding read
  read-Evolves fine q w = Evolves-refl w
  read-Evolves _ q w = Evolves-refl w

module _ {Body : Type 0} (env : ℕ → Turn) where
  pub exec-Evolves : (c : Change) (w : World Body) → Evolves 0 w (exec env c w).1
  unfolding exec
  exec-Evolves c w =
      Evolves-quiet (arrive-Evolves env w)
        (execute-Evolves (env w.tick).fault c (env w.tick).now (arrive env w))

  pub get_by_id-Evolves : (id : ℕ) (w : World Body) → Evolves 0 w (get_by_id env id w).1
  unfolding get_by_id
  get_by_id-Evolves id w =
      Evolves-quiet (arrive-Evolves env w) (read-Evolves (env w.tick).fault _ (arrive env w))

  pub get_template-Evolves : (id : ℕ) (w : World Body) → Evolves 0 w (get_template env id w).1
  unfolding get_template
  get_template-Evolves id w =
      Evolves-quiet (arrive-Evolves env w) (read-Evolves (env w.tick).fault _ (arrive env w))

  pub release-Evolves :
      (id : ℕ) (w : World Body) → Evolves 0 w (release_sending_to_queued env id w).1
  unfolding release_sending_to_queued
  release-Evolves id w = exec-Evolves (Change.release_sending id) w

  pub mark_sending-Evolves : (id : ℕ) (w : World Body) → Evolves 0 w (mark_sending env id w).1
  unfolding mark_sending
  mark_sending-Evolves id w = exec-Evolves (Change.mark_sending id) w

  pub mark_delivered-Evolves :
      (id : ℕ) (mid : Option Str) (w : World Body) → Evolves 0 w (mark_delivered env id mid w).1
  unfolding mark_delivered
  mark_delivered-Evolves id mid w = exec-Evolves (Change.mark_delivered id mid) w

  pub mark_failed-Evolves : (id : ℕ) (w : World Body) → Evolves 0 w (mark_failed env id w).1
  unfolding mark_failed
  mark_failed-Evolves id w = exec-Evolves (Change.mark_failed id) w

  pub cancel-Evolves : (id : ℕ) (w : World Body) → Evolves 0 w (cancel env id w).1
  unfolding cancel
  cancel-Evolves id w = exec-Evolves (Change.cancel id) w
