-- ===== src/Process/Passes.antt =====
-- When the steps of a process go on: each step by itself, and one behind another.
use mathlib.Core.Path.{subst}
use notify_stream.Prelude.{Bool, true, false, ◌≡◌, ◌↔◌, refl, sym, List, [], ◌∷◌}
use notify_stream.Config.{Settings, Loaded, settings, missing}
use notify_stream.Process.{
  Resource, Action, started, Process, Step, exited, going, P, ◌>>=◌, bind_step, note, need, keep,
  obtain, configured, exit_if, Service, start_all,
}

abbrev pub Goes : {A : Type 0} → Step A → Type 0
Goes (exited code log) = ⊥
Goes (going a p) = Unit

-- From any state, the steps go on exactly if `C` holds.
abbrev pub Passes : {A : Type 0} → P A → Type 0 → Type 0
Passes m C = (p : Process) → Goes (m p) ↔ C

module _ {A B : Type 0} (f : A → P B) {D : Type 0} (hf : (a : A) → Passes (f a) D) where
  bind_step-Goes : {C : Type 0} (s : Step A) → Goes s ↔ C → Goes (bind_step s f) ↔ (C × D)
  bind_step-Goes (exited code log) h = (λ e. absurd e, λ (c, d). h.1 c)
  bind_step-Goes (going a p) h = (λ e. (h.0 tt, (hf a p).0 e), λ (c, d). (hf a p).1 d)

  pub bind-Passes : {C : Type 0} (m : P A) → Passes m C → Passes (m >>= f) (C × D)
  bind-Passes m hm p = bind_step-Goes (m p) (hm p)

  -- Behind steps that always go on.
  pub bind-Passes_free : (m : P A) → Passes m Unit → Passes (m >>= f) D
  bind-Passes_free m hm p =
      let h = bind_step-Goes (m p) (hm p) in (λ e. (h.0 e).1, λ d. h.1 (tt, d))

settings_eq : (c d : Settings) → settings c ≡ settings d → c ≡ d
settings_eq c d e = cc

module _ {B : Type 0} (f : Settings → P B) {D : Settings → Type 0}
    (hf : (c : Settings) → Passes (f c) (D c)) where
  pub configured-Passes :
      (l : Loaded) → Passes (configured l >>= f) ((c : Settings) × (l ≡ settings c) × D c)
  unfolding configured
  configured-Passes (settings c) p = (
    λ e. (c, refl, (hf c p).0 e),
    λ (c', e, d). (hf c p).1 (subst D (settings_eq c' c (sym e)) d),
  )
  configured-Passes (missing names) p = (λ e. absurd e, λ (c, e, d). cc)

pub need-Passes : (works : Bool) → Passes (need works) (works ≡ true)
unfolding need
need-Passes true p = (λ _. refl, λ _. tt)
need-Passes false p = (λ h. absurd h, λ h. cc)

pub note-Passes : (a : Action) → Passes (note a) Unit
unfolding note
note-Passes a p = (λ _. tt, λ _. tt)

pub start_all-Passes : (ss : List Service) → Passes (start_all ss) Unit
unfolding start_all
start_all-Passes [] p = (λ _. tt, λ _. tt)
start_all-Passes (s ∷ ss) p =
    bind-Passes_free (λ _. start_all ss) (λ _. start_all-Passes ss) (note (started s))
      (note-Passes (started s)) p

pub obtain-Passes : (r : Resource) (works : Bool) → Passes (obtain r works) (works ≡ true)
unfolding obtain need keep
obtain-Passes r true p = (λ _. refl, λ _. tt)
obtain-Passes r false p = (λ h. absurd h, λ h. cc)

pub exit_if-Passes : (fails : Bool) → Passes (exit_if fails) (fails ≡ false)
unfolding exit_if
exit_if-Passes true p = (λ h. absurd h, λ h. cc)
exit_if-Passes false p = (λ _. refl, λ _. tt)
