-- ===== src/Api/Broadcast/Ordered.antt =====
-- What arrives of the messages that are dispatched.
use mathlib.Core.Path.{subst}
use notify_stream.Prelude.{
  ◌+◌, ◌≤◌, ◌≡◌, ◌⊎◌, refl, sym, ap, ◌∙◌, inl, inr, true, false, Bool-cases, List, [], ◌∷◌, ◌++◌,
  append-nil, append_assoc, length, length-append, ltb, leb, ltb→lt, leb→le, ◌<◌, Bool, false,
  arith,
}
use notify_stream.Api.Broadcast.{capacity, dispatch_status, receive}

-- A message is dispatched, or the goroutine of `run` receives one, if there is one.
pub data Move (Msg : Type 0) : Type 0 where
  dispatches : Msg → Move Msg
  receives : Move Msg

module _ {Msg : Type 0} where
  unfoldable pub move : Move Msg → List Msg × List Msg → List Msg × List Msg
  unfolding dispatch_status receive
  move (dispatches m) s = dispatch_status m s
  move receives s = receive s

  unfoldable pub move_all : List (Move Msg) → List Msg × List Msg → List Msg × List Msg
  unfolding move
  move_all [] s = s
  move_all (v ∷ vs) s = move_all vs (move v s)

  abbrev pub dispatched : List (Move Msg) → List Msg
  dispatched [] = []
  dispatched (dispatches m ∷ vs) = m ∷ dispatched vs
  dispatched (receives ∷ vs) = dispatched vs

  -- Some elements are left out of a list.
  pub data IsPartOf : List Msg → List Msg → Type 0 where
    nothing : IsPartOf [] []
    keeps : {xs ys : List Msg} → (m : Msg) → IsPartOf xs ys → IsPartOf (m ∷ xs) (m ∷ ys)
    drops : {xs ys : List Msg} → (m : Msg) → IsPartOf xs ys → IsPartOf xs (m ∷ ys)

  -- What was received, and then what waits.
  abbrev pub arrived : List Msg × List Msg → List Msg
  arrived (waiting, received) = received ++ waiting

  IsPartOf-refl : (xs : List Msg) → IsPartOf xs xs
  IsPartOf-refl [] = nothing
  IsPartOf-refl (x ∷ xs) = keeps x (IsPartOf-refl xs)

  -- One element more may be left out.
  IsPartOf-more :
      (front bs : List Msg) {xs : List Msg} (m : Msg)
      → IsPartOf xs (front ++ bs)
      → IsPartOf xs (front ++ m ∷ bs)
  IsPartOf-more [] bs m h = drops m h
  IsPartOf-more (a ∷ front) bs m (keeps _ h) = keeps a (IsPartOf-more front bs m h)
  IsPartOf-more (a ∷ front) bs m (drops _ h) = drops a (IsPartOf-more front bs m h)

  received_one :
      (received waiting rest : List Msg) (m : Msg)
      → ((received ++ m ∷ []) ++ waiting) ++ rest ≡ (received ++ m ∷ waiting) ++ rest
  received_one received waiting rest m =
      ap (λ u. u ++ rest) (append_assoc received (m ∷ []) waiting)

  dispatched_one :
      (received waiting rest : List Msg) (m : Msg)
      → (received ++ (waiting ++ m ∷ [])) ++ rest ≡ (received ++ waiting) ++ m ∷ rest
  dispatched_one received waiting rest m =
      ap (λ u. u ++ rest) (sym (append_assoc received waiting (m ∷ [])))
      ∙ append_assoc (received ++ waiting) (m ∷ []) rest

  short_enough :
      (waiting : List Msg) (m : Msg)
      → ltb (length waiting) capacity ≡ true
      → length (waiting ++ m ∷ []) ≤ capacity
  short_enough waiting m h = omega (arith, length-append waiting (m ∷ []), ltb→lt _ _ h)

  -- The messages that wait and that were received, once `sent` was dispatched after the others.
  abbrev Holds : List Msg → List Msg → List Msg → List Msg × List Msg → Type 0
  Holds sent waiting received s =
      (length s.0 ≤ capacity) × IsPartOf (arrived s) ((received ++ waiting) ++ sent)

  dispatch_room :
      (m : Msg) (waiting received : List Msg)
      → ltb (length waiting) capacity ≡ true
      → dispatch_status m (waiting, received) ≡ (waiting ++ m ∷ [], received)
  unfolding dispatch_status
  dispatch_room m waiting received room = rw room refl

  dispatch_full :
      (m : Msg) (waiting received : List Msg)
      → ltb (length waiting) capacity ≡ false
      → dispatch_status m (waiting, received) ≡ (waiting, received)
  unfolding dispatch_status
  dispatch_full m waiting received full = rw full refl

  move_all-IsPartOf :
      (vs : List (Move Msg)) (waiting received : List Msg)
      → length waiting ≤ capacity
      → Holds (dispatched vs) waiting received (move_all vs (waiting, received))
  unfolding move_all move receive
  move_all-IsPartOf [] waiting received h = (
    h,
    subst (IsPartOf (received ++ waiting)) (sym (append-nil (received ++ waiting)))
        (IsPartOf-refl (received ++ waiting)),
  )
  move_all-IsPartOf (receives ∷ vs) [] received h = move_all-IsPartOf vs [] received h
  move_all-IsPartOf (receives ∷ vs) (m ∷ waiting) received h =
      let (l, p) = move_all-IsPartOf vs waiting (received ++ m ∷ []) (omega arith) in
      (l, subst (IsPartOf _) (received_one received waiting (dispatched vs) m) p)
  move_all-IsPartOf (dispatches m ∷ vs) waiting received h =
      elim (Bool-cases (ltb (length waiting) capacity)) [
        | inl room ↦
            let (l, p) =
              move_all-IsPartOf vs (waiting ++ m ∷ []) received (short_enough waiting m room) in
            subst (Holds (dispatched (dispatches m ∷ vs)) waiting received)
              (ap (move_all vs) (sym (dispatch_room m waiting received room)))
              (l, subst (IsPartOf _) (dispatched_one received waiting (dispatched vs) m) p)
        | inr full ↦
            let (l, p) = move_all-IsPartOf vs waiting received h in
            subst (Holds (dispatched (dispatches m ∷ vs)) waiting received)
              (ap (move_all vs) (sym (dispatch_full m waiting received full)))
              (l, IsPartOf-more (received ++ waiting) (dispatched vs) m p)
      ]

  move_all_whole :
      (vs : List (Move Msg)) (waiting received : List Msg)
      → length waiting + length (dispatched vs) ≤ capacity
      → arrived (move_all vs (waiting, received)) ≡ (received ++ waiting) ++ dispatched vs
  unfolding move_all move receive
  move_all_whole [] waiting received h = sym (append-nil (received ++ waiting))
  move_all_whole (receives ∷ vs) [] received h = move_all_whole vs [] received h
  move_all_whole (receives ∷ vs) (m ∷ waiting) received h =
      move_all_whole vs waiting (received ++ m ∷ []) (omega arith)
      ∙ received_one received waiting (dispatched vs) m
  move_all_whole (dispatches m ∷ vs) waiting received h =
      let room : ltb (length waiting) capacity ≡ true = ground (arith, h) in
      ap (λ s. arrived (move_all vs s)) (dispatch_room m waiting received room)
      ∙ move_all_whole vs (waiting ++ m ∷ []) received
          (omega (arith, length-append waiting (m ∷ [])))
      ∙ dispatched_one received waiting (dispatched vs) m

  whole_or_many :
      (vs : List (Move Msg)) (t : Bool)
      → leb (length (dispatched vs)) capacity ≡ t
      → (arrived (move_all vs ([], [])) ≡ dispatched vs) ⊎ (capacity < length (dispatched vs))
  whole_or_many vs true e =
      inl (move_all_whole vs [] [] (omega (arith, leb→le (length (dispatched vs)) capacity e)))
  whole_or_many vs false e = inr (ground arith)

  -- However dispatching and receiving alternate, at most 256 messages wait; what was received and then
  -- what waits are dispatched messages, each at most once and in the order of their dispatch; and they
  -- are all of them unless more than 256 were dispatched.
  pub move_all-arrived :
      (vs : List (Move Msg))
      → let s = move_all vs ([], []) in
        (length s.0 ≤ capacity)
        × IsPartOf (arrived s) (dispatched vs)
        × ((arrived s ≡ dispatched vs) ⊎ (capacity < length (dispatched vs)))
  move_all-arrived vs =
      let (l, p) = move_all-IsPartOf vs [] [] (omega arith) in
      (l, p, whole_or_many vs (leb (length (dispatched vs)) capacity) refl)
