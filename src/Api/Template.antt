-- ===== src/Api/Template.antt =====
-- `CreateTemplate` of internal/api/template_handlers.go, from the decoded body on, and
-- `Store.CreateTemplate` of internal/db/templates.go. The identifier is the turn's.
pub mod Stored
use notify_stream.Prelude.{ℕ, zero, suc, ◌||◌, Str, is_empty, trim_space, if◌then◌else◌}
use notify_stream.Domain.Types.{Channel, Template, is_channel}
use notify_stream.Db.Change.{Change}
use notify_stream.Db.Store.{exec}
use notify_stream.Api.Answer.{
  Answer, good, bad_request, conflict, database_error, name_and_body, invalid_channel,
}
use notify_stream.World.{Turn, Error, unique_violation, Result, ok, err, M, pure, ◌>>=◌}

pub record TemplateRequest : Type 0 where
  pub name : Str
  pub body : Str
  pub channel : Channel
  pub variables_schema : Str

-- The row of a request.
unfoldable pub template_row : ℕ → ℕ → TemplateRequest → Template
template_row id now req = record {
  id = id;
  name = trim_space req.name;
  body = trim_space req.body;
  channel = req.channel;
  variables_schema = req.variables_schema;
  created_at = now;
  updated_at = now;
}

-- `INSERT … RETURNING`: a name that is taken is an error.
unfoldable pub inserted_template : Template → Result ℕ → Result Template
inserted_template t (ok zero) = err unique_violation
inserted_template t (ok (suc k)) = ok t
inserted_template t (err e) = err e

-- `errors.As(err, &pg) && pg.Code == pgerrcode.UniqueViolation`
unfoldable pub template_answer : Result Template → Answer Template
template_answer (ok t) = good t
template_answer (err unique_violation) = conflict
template_answer (err _) = database_error

module _ {Body : Type 0} (env : ℕ → Turn) where
  unfoldable pub store_template : TemplateRequest → M Body (Result Template)
  unfolding inserted_template exec template_row
  store_template req w =
      let t = template_row (env w.tick).uuid (env w.tick).now req in
      let (r, w') = exec env (Change.insert_template t) w in (inserted_template t r, w')

  unfoldable pub create_template : TemplateRequest → M Body (Answer Template)
  unfolding store_template template_answer is_channel
  create_template req =
      if is_empty (trim_space req.name) || is_empty (trim_space req.body)
      then pure (bad_request name_and_body)
      else if is_channel req.channel
      then (do r ← store_template req; pure (template_answer r))
      else pure (bad_request invalid_channel)
