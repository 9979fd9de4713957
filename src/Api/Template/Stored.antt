-- ===== src/Api/Template/Stored.antt =====
-- What a request to create a template answers, and what it stores.
use notify_stream.Prelude.{
  ℕ, ◌≡◌, ◌⊎◌, ◌↔◌, refl, inl, inr, true, false, Bool, Bool-cases, ◌||◌, List, [], ◌∷◌, ◌++◌,
  is_empty, is_blank, is_blank_iff, IsBlank, trim_space, str_eq_iff, arith,
}
use notify_stream.Domain.Types.{Template, sms, email, push, is_channel}
use notify_stream.Db.Change.{apply, name_taken, insert_named}
use notify_stream.Db.Change.Names.{IsUnused, name_taken_iff}
use notify_stream.Db.Store.{exec, execute}
use notify_stream.Api.Answer.{Answer, good, bad_request, conflict, name_and_body, invalid_channel}
use notify_stream.Api.Template.{TemplateRequest, template_row, create_template, store_template}
use notify_stream.World.{fine, Turn, World, arrive}

abbrev pub HasNothing : TemplateRequest → Type 0
HasNothing req = IsBlank req.name ⊎ IsBlank req.body

abbrev pub HasChannel : TemplateRequest → Type 0
HasChannel req = (req.channel ≡ sms) ⊎ (req.channel ≡ email) ⊎ (req.channel ≡ push)

-- A request of which the answer depends on the tables.
abbrev pub IsComplete : TemplateRequest → Type 0
IsComplete req = ¬ HasNothing req × HasChannel req

module _ {Body : Type 0} (req : TemplateRequest) where
  -- `t` is behind the templates that were there.
  abbrev pub IsStored : Template → World Body → World Body → Type 0
  IsStored t w w' =
      (t.name ≡ trim_space req.name)
      × (t.body ≡ trim_space req.body)
      × (t.channel ≡ req.channel)
      × (t.variables_schema ≡ req.variables_schema)
      × (w'.tables ≡ record w.tables { templates = w.tables.templates ++ t ∷ [] })

  -- The four answers to a request that began in `w` and was stored in `v`, and the world after it.
  abbrev pub Answers : World Body → World Body → Answer Template → World Body → Type 0
  Answers w v a w' =
      (HasNothing req × (a ≡ bad_request name_and_body) × (w' ≡ w))
      ⊎ (¬ HasNothing req × ¬ HasChannel req × (a ≡ bad_request invalid_channel) × (w' ≡ w))
      ⊎ (IsComplete req
          × ¬ IsUnused (trim_space req.name) v.tables.templates
          × (a ≡ conflict)
          × (w' ≡ v))
      ⊎ (IsComplete req
          × IsUnused (trim_space req.name) v.tables.templates
          × ((t : Template) × (a ≡ good t) × IsStored t v w'))

HasChannel-iff : (req : TemplateRequest) → (is_channel req.channel ≡ true) ↔ HasChannel req
unfolding is_channel
HasChannel-iff req =
    ground
      (arith, str_eq_iff req.channel sms, str_eq_iff req.channel email, str_eq_iff req.channel push)

HasNothing-iff :
    (req : TemplateRequest)
    → ((is_empty (trim_space req.name) || is_empty (trim_space req.body)) ≡ true) ↔ HasNothing req
unfolding is_blank
HasNothing-iff req = ground (arith, is_blank_iff req.name, is_blank_iff req.body)

not_of : {b : Bool} {P : Type 0} → (b ≡ true) ↔ P → b ≡ false → ¬ P
not_of iff e p = absurd (cc (e, iff.1 p))

module _ {Body : Type 0} (env : ℕ → Turn) (req : TemplateRequest) (w : World Body)
    (works : (env w.tick).fault ≡ fine) where
  -- Where the statement works, a request with a blank name or body, or else with another channel than
  -- the three, is refused and writes nothing; any other is a conflict, and writes nothing, exactly if a
  -- template has its trimmed name, and otherwise is answered with the template that it stored.
  pub create_template-Answers :
      Answers req w (arrive env w) (create_template env req w).0 (create_template env req w).1
  unfolding create_template template_row store_template exec execute apply insert_named
  create_template-Answers =
      let ts : List Template = (arrive env w).tables.templates in
      elim (Bool-cases (is_empty (trim_space req.name) || is_empty (trim_space req.body))) [
        | inl none ↦ inl ((HasNothing-iff req).0 none, rw none refl, rw none refl)
        | inr some ↦
            let full : ¬ HasNothing req = not_of (HasNothing-iff req) some in
            elim (Bool-cases (is_channel req.channel)) [
              | inr other ↦
                  let bad = not_of (HasChannel-iff req) other in
                  inr (inl (full, bad, rw (some, other) refl, rw (some, other) refl))
              | inl known ↦
                  let whole : IsComplete req = (full, (HasChannel-iff req).0 known) in
                  elim (Bool-cases (name_taken (trim_space req.name) ts)) [
                    | inl taken ↦
                        let used : ¬ IsUnused (trim_space req.name) ts =
                          λ u. absurd (cc (taken, (name_taken_iff (trim_space req.name) ts).1 u)) in
                        inr (
                          inr (
                            inl (
                              whole,
                              used,
                              rw (some, known, works, taken) refl,
                              rw (some, known, works, taken) refl,
                            )))
                    | inr free ↦ inr (
                        inr (
                          inr (
                            whole,
                            (name_taken_iff (trim_space req.name) ts).0 free,
                            (
                              template_row (env w.tick).uuid (env w.tick).now req,
                              rw (some, known, works, free) refl,
                              (refl, refl, refl, refl, rw (some, known, works, free) refl),
                            ),
                          )))
                  ]
            ]
      ]
