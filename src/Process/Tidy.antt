-- ===== src/Process/Tidy.antt =====
-- What a process has released when it ends.
use mathlib.Core.List.{reverse-append, append-nil}
use notify_stream.Prelude.{
  ℕ, Bool, true, false, ◌≡◌, ◌⊎◌, inl, inr, refl, sym, ap, ◌∙◌, List, [], ◌∷◌, ◌++◌, Str, map,
  reverse,
}
use notify_stream.Config.{Loaded, settings, missing}
use notify_stream.Db.Pool.{migrate_up, is_migrated}
use notify_stream.Process.{
  Resource, Service, Action, obtained, released, migrated, started, Process, Step, exited, going, P,
  ◌>>=◌, bind_step, note, need, keep, obtain, Remote, configured, exit_if, start_all, trace,
  migrate, open_stores, api_main, scheduler_main, limit_rate, worker_main, Program, api, scheduling,
  worker, main_of, end_of, run_process,
}

-- What was obtained, and what was released, in order.
abbrev pub obtained_in : List Action → List Resource
obtained_in [] = []
obtained_in (obtained r ∷ acts) = r ∷ obtained_in acts
obtained_in (_ ∷ acts) = obtained_in acts

abbrev pub released_in : List Action → List Resource
released_in [] = []
released_in (released r ∷ acts) = r ∷ released_in acts
released_in (_ ∷ acts) = released_in acts

-- A process that ends well releases what it obtained, and does so last of all, in the reverse order.
-- One that fails releases nothing.
abbrev pub IsTidy : ℕ × List Action → Type 0
IsTidy (code, log) =
    ((code ≡ 1) × (released_in log ≡ []))
    ⊎ ((code ≡ 0)
        × ((body : List Action) × (released_in body ≡ [])
            × (log ≡ body ++ map released (reverse (obtained_in body)))))

pub record IsKept (p : Process) : Type 0 where
  pub none_released : released_in p.log ≡ []
  pub all_deferred : p.deferred ≡ reverse (obtained_in p.log)

abbrev pub IsFine : {A : Type 0} → Step A → Type 0
IsFine (exited code log) = (code ≡ 1) × (released_in log ≡ [])
IsFine (going a p) = IsKept p

abbrev pub Keeps : {A : Type 0} → P A → Type 0
Keeps m = (p : Process) → IsKept p → IsFine (m p)

obtained_in-append :
    (acts more : List Action) → obtained_in (acts ++ more) ≡ obtained_in acts ++ obtained_in more
obtained_in-append [] more = refl
obtained_in-append (obtained r ∷ acts) more = ap (λ rs. r ∷ rs) (obtained_in-append acts more)
obtained_in-append (released r ∷ acts) more = obtained_in-append acts more
obtained_in-append (migrated d ∷ acts) more = obtained_in-append acts more
obtained_in-append (started s ∷ acts) more = obtained_in-append acts more

released_in-append :
    (acts more : List Action) → released_in (acts ++ more) ≡ released_in acts ++ released_in more
released_in-append [] more = refl
released_in-append (obtained r ∷ acts) more = released_in-append acts more
released_in-append (released r ∷ acts) more = ap (λ rs. r ∷ rs) (released_in-append acts more)
released_in-append (migrated d ∷ acts) more = released_in-append acts more
released_in-append (started s ∷ acts) more = released_in-append acts more

module _ {A B : Type 0} where
  bind_step-IsFine :
      (s : Step A) (f : A → P B) → IsFine s → ((a : A) → Keeps (f a)) → IsFine (bind_step s f)
  bind_step-IsFine (exited code log) f h hf = h
  bind_step-IsFine (going a p) f h hf = hf a p h

  bind-Keeps : (m : P A) (f : A → P B) → Keeps m → ((a : A) → Keeps (f a)) → Keeps (m >>= f)
  bind-Keeps m f hm hf p k = bind_step-IsFine (m p) f (hm p k) hf

same_append : {rs ss ts : List Resource} → ts ≡ rs ++ ss → ss ≡ [] → ts ≡ rs
same_append {rs} e f = e ∙ ap (λ xs. rs ++ xs) f ∙ append-nil rs

-- An action that neither obtains nor releases.
note-Keeps : (a : Action) → obtained_in (a ∷ []) ≡ [] → released_in (a ∷ []) ≡ [] → Keeps (note a)
unfolding note
note-Keeps a no_more no_less p k = record {
  none_released = released_in-append p.log (a ∷ []) ∙ simp (k.none_released, no_less);
  all_deferred =
      k.all_deferred ∙ ap reverse (sym (same_append (obtained_in-append p.log (a ∷ [])) no_more));
}

keep-Keeps : (r : Resource) → Keeps (keep r)
unfolding keep
keep-Keeps r p k = record {
  none_released = released_in-append p.log (obtained r ∷ []) ∙ simp k.none_released;
  all_deferred =
      rw (obtained_in-append p.log (obtained r ∷ []))
        (ap (λ rs. r ∷ rs) k.all_deferred ∙ sym (reverse-append (obtained_in p.log) (r ∷ [])));
}

need-Keeps : (works : Bool) → Keeps (need works)
unfolding need
need-Keeps true p k = k
need-Keeps false p k = (refl, k.none_released)

obtain-Keeps : (r : Resource) (works : Bool) → Keeps (obtain r works)
unfolding obtain
obtain-Keeps r works = bind-Keeps (need works) (λ _. keep r) (need-Keeps works) (λ _. keep-Keeps r)

start_all-Keeps : (ss : List Service) → Keeps (start_all ss)
unfolding start_all
start_all-Keeps [] p k = k
start_all-Keeps (s ∷ ss) p k =
    bind-Keeps (note (started s)) (λ _. start_all ss) (note-Keeps (started s) refl refl)
      (λ _. start_all-Keeps ss) p k

configured-Keeps : (l : Loaded) → Keeps (configured l)
unfolding configured
configured-Keeps (settings c) p k = k
configured-Keeps (missing names) p k = (refl, k.none_released)

exit_if-Keeps : (fails : Bool) → Keeps (exit_if fails)
unfolding exit_if
exit_if-Keeps true p k = (refl, k.none_released)
exit_if-Keeps false p k = k

ruleset steps =
    (bind-Keeps, obtain-Keeps, need-Keeps, start_all-Keeps, configured-Keeps, exit_if-Keeps)

module _ (env : Str → Str) (r : Remote) where
  migrate-Keeps : (dsn : Str) → Keeps (migrate env r dsn)
  unfolding migrate
  migrate-Keeps dsn =
      bind-Keeps (need (is_migrated (migrate_up r.migrator dsn))) (λ _. note (migrated dsn))
        (need-Keeps (is_migrated (migrate_up r.migrator dsn)))
        (λ _. note-Keeps (migrated dsn) refl refl)

  api_main-Keeps : Keeps (api_main env r)
  unfolding api_main trace open_stores
  api_main-Keeps = search (steps, migrate-Keeps) depth 12

  scheduler_main-Keeps : Keeps (scheduler_main env r)
  unfolding scheduler_main trace open_stores
  scheduler_main-Keeps = search steps

  worker_main-Keeps : Keeps (worker_main env r)
  unfolding worker_main trace open_stores limit_rate
  worker_main-Keeps = search steps depth 12

  pub main_of-Keeps : (program : Program) → Keeps (main_of env r program)
  unfolding main_of
  main_of-Keeps api = api_main-Keeps
  main_of-Keeps scheduling = scheduler_main-Keeps
  main_of-Keeps worker = worker_main-Keeps

end_of-IsTidy : (s : Step (Unit {0})) → IsFine s → IsTidy (end_of s)
unfolding end_of
end_of-IsTidy (exited code log) h = inl h
end_of-IsTidy (going _ p) k =
    inr (refl, (p.log, k.none_released, ap (λ rs. p.log ++ map released rs) k.all_deferred))

abbrev pub start : Process
start = record { log = []; deferred = [] }

pub start-IsKept : IsKept start
start-IsKept = record { none_released = refl; all_deferred = refl }

-- Each of the three processes, whatever fails: it exits with the code 1 and has released nothing, or
-- with the code 0, and then its last actions release what it obtained, the last resource first.
pub main_of-IsTidy :
    (env : Str → Str) (r : Remote) (program : Program)
    → IsTidy (run_process (main_of env r program))
unfolding run_process
main_of-IsTidy env r program =
    end_of-IsTidy (main_of env r program start) (main_of-Keeps env r program start start-IsKept)
