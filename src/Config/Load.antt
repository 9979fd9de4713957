-- ===== src/Config/Load.antt =====
-- When the settings are loaded, and what is reported as missing.
use mathlib.Core.Path.{subst}
use notify_stream.Prelude.{
  Bool, true, false, ◌&&◌, ◌≡◌, ◌≢◌, ◌⊎◌, ◌↔◌, refl, sym, List, [], ◌∷◌, IsIn, Str, is_empty,
  trim_space, is_blank, is_blank_iff, IsBlank, arith,
}
use notify_stream.Config.{
  Loaded, settings, missing, database_name, amqp_name, webhook_name, note_missing, missing_names,
  or_missing, settings_of, load,
}

-- The variables that a process needs.
abbrev pub IsRequired : Bool → Str → Type 0
IsRequired require_webhook name =
    (name ≡ database_name) ⊎ (name ≡ amqp_name) ⊎ ((require_webhook ≡ true) × (name ≡ webhook_name))

-- The settings are loaded if every variable that is needed is there, or else those are reported that
-- are blank.
abbrev pub Loads : Bool → (Str → Str) → Loaded → Type 0
Loads require_webhook env (settings c) =
    (c ≡ settings_of env) × ((name : Str) → IsRequired require_webhook name → ¬ IsBlank (env name))
Loads require_webhook env (missing names) =
    (names ≢ [])
    × ((name : Str) → IsIn name names ↔ (IsRequired require_webhook name × IsBlank (env name)))

IsIn-note_missing :
    (b : Bool) (n : Str) (ns : List Str) (name : Str)
    → IsIn name (note_missing b n ns) ↔ (((b ≡ true) × (name ≡ n)) ⊎ IsIn name ns)
unfolding note_missing
IsIn-note_missing true n ns name = (λ h. ground arith, λ h. ground arith)
IsIn-note_missing false n ns name = (λ h. ground arith, λ h. ground arith)

module _ (env : Str → Str) (name : Str) where
  IsBlank-iff :
      (v : Str)
      → ((is_empty (trim_space (env v)) ≡ true) × (name ≡ v)) ↔ ((name ≡ v) × IsBlank (env name))
  unfolding is_blank
  IsBlank-iff v = (
    λ (b, e). (e, subst (λ n. IsBlank (env n)) (sym e) ((is_blank_iff (env v)).0 b)),
    λ (e, b). ((is_blank_iff (env v)).1 (subst (λ n. IsBlank (env n)) e b), e),
  )

  missing_names_iff :
      (require_webhook : Bool)
      → IsIn name (missing_names require_webhook (settings_of env))
        ↔ (IsRequired require_webhook name × IsBlank (env name))
  unfolding missing_names settings_of
  missing_names_iff r = ground (
    arith,
    IsIn-note_missing (is_empty (trim_space (env database_name))) database_name
        (note_missing (is_empty (trim_space (env amqp_name))) amqp_name
          (note_missing (r && is_empty (trim_space (env webhook_name))) webhook_name []))
        name,
    IsIn-note_missing (is_empty (trim_space (env amqp_name))) amqp_name
        (note_missing (r && is_empty (trim_space (env webhook_name))) webhook_name []) name,
    IsIn-note_missing (r && is_empty (trim_space (env webhook_name))) webhook_name [] name,
    IsBlank-iff database_name,
    IsBlank-iff amqp_name,
    IsBlank-iff webhook_name,
  )

loads :
    (require_webhook : Bool) (env : Str → Str) (names : List Str)
    → ((name : Str) → IsIn name names ↔ (IsRequired require_webhook name × IsBlank (env name)))
    → Loads require_webhook env (or_missing names (settings_of env))
unfolding or_missing
loads r env [] h = (refl, λ name needed blank. (h name).1 (needed, blank))
loads r env (n ∷ ns) h = (λ e. cc, h)

-- The settings are loaded exactly if no variable that is needed is blank, and otherwise those are
-- reported that are needed and blank; the URL of the provider is needed where it is asked for.
pub load-Loads :
    (require_webhook : Bool) (env : Str → Str)
    → Loads require_webhook env (load require_webhook env)
unfolding load
load-Loads r env =
    loads r env (missing_names r (settings_of env)) (λ name. missing_names_iff env name r)
