-- ===== src/Api/Broadcast.antt =====
-- The channel of the hub between `DispatchStatus` and `run`, internal/api/ws.go. `DispatchStatus` never
-- waits: a message that finds the channel full is dropped.
pub mod Ordered
use notify_stream.Prelude.{ℕ, Bool, true, false, List, [], ◌∷◌, ◌++◌, length, ltb, if◌then◌else◌}

-- `make(chan []byte, 256)`
abbrev pub capacity : ℕ
capacity = 256

module _ {Msg : Type 0} where
  -- The messages that wait, and those that `run` has received, both in their order.
  unfoldable pub dispatch_status : Msg → List Msg × List Msg → List Msg × List Msg
  dispatch_status m (waiting, received) =
      if ltb (length waiting) capacity then (waiting ++ m ∷ [], received) else (waiting, received)

  -- `for msg := range h.broadcast`
  unfoldable pub receive : List Msg × List Msg → List Msg × List Msg
  receive ([], received) = ([], received)
  receive (m ∷ waiting, received) = (waiting, received ++ m ∷ [])
