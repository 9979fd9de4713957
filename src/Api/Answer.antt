-- ===== src/Api/Answer.antt =====
-- The responses of the handlers of internal/api that answer for rows: a body, or an error by its status
-- code. A refused request keeps its reason.
use notify_stream.World.{no_rows, Result, ok, err}

pub data Reason : Type 0 where
  invalid_id invalid_batch_id invalid_from invalid_to invalid_limit invalid_cursor name_and_body
        invalid_channel :
      Reason

pub data Answer (A : Type 0) : Type 0 where
  good : A → Answer A
  bad_request : Reason → Answer A
  not_found conflict database_error : Answer A

module _ {A : Type 0} where
  -- `errors.Is(err, pgx.ErrNoRows)` is answered by `missing`.
  unfoldable pub answer_of : Answer A → Result A → Answer A
  answer_of missing (ok a) = good a
  answer_of missing (err no_rows) = missing
  answer_of missing (err _) = database_error

  -- A handler that has no answer for a missing row.
  unfoldable pub answer_or_fail : Result A → Answer A
  answer_or_fail (ok a) = good a
  answer_or_fail (err e) = database_error

-- What is read from a request, or the reason that it is refused for.
pub data Checked (A : Type 0) : Type 0 where
  refused : Reason → Checked A
  accepted : A → Checked A

module _ {A B : Type 0} where
  infixl 5 ◌>>=◌
  abbrev pub ◌>>=◌ : Checked A → (A → Checked B) → Checked B
  refused r >>= f = refused r
  accepted a >>= f = f a
