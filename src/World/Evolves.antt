-- ===== src/World/Evolves.antt =====
-- What every call and every handler does to a world: the tables change by statements alone, what was
-- sent stays sent, and at most `k` requests reach the provider.
use mathlib.Core.List.{append-nil, append_assoc}
use notify_stream.Prelude.{
  ℕ, suc, ◌+◌, ◌≤◌, ◌≡◌, refl, sym, ap, ◌∙◌, List, [], ◌∷◌, ◌++◌, Bool, true, false, if◌then◌else◌,
  length, length-append, arith,
}
use notify_stream.Amqp.Publish.{Message}
use notify_stream.Delivery.Outbound.{Outbound}
use notify_stream.Db.Tables.{Tables}
use notify_stream.Db.Change.{Change, run}
use notify_stream.World.{Turn, Event, World, M, arrive, ask_done}

pub record Evolves {Body : Type 0} (k : ℕ) (w w' : World Body) : Type 0 where
  pub statements : List (Change × ℕ)
  pub tables_run : w'.tables ≡ run statements w.tables
  pub messages : List (Message Body)
  pub published_grows : w'.published ≡ w.published ++ messages
  pub emitted : List Event
  pub events_grow : w'.events ≡ w.events ++ emitted
  pub requests : List Outbound
  pub posts_grow : w'.posts ≡ w.posts ++ requests
  pub requests_few : length requests ≤ k

pub run-append : (cs ds : List (Change × ℕ)) (db : Tables) → run (cs ++ ds) db ≡ run ds (run cs db)
unfolding run
run-append [] ds db = refl
run-append ((c, now) ∷ cs) ds db = run-append cs ds _

appended {ℓ} : {A : Type ℓ} (a b c xs ys : List A) → b ≡ a ++ xs → c ≡ b ++ ys → c ≡ a ++ (xs ++ ys)
appended a b c xs ys e f = f ∙ ap (λ t. t ++ ys) e ∙ append_assoc a xs ys

module _ {Body : Type 0} where
  -- Statements alone, whatever the turn.
  pub Evolves-tables :
      (w : World Body) (cs : List (Change × ℕ)) (tick : ℕ)
      → Evolves 0 w (record w { tables = run cs w.tables; tick = tick })
  Evolves-tables w cs tick = record {
    statements = cs;
    tables_run = refl;
    messages = [];
    published_grows = sym (append-nil w.published);
    emitted = [];
    events_grow = sym (append-nil w.events);
    requests = [];
    posts_grow = sym (append-nil w.posts);
    requests_few = omega arith;
  }

  -- One thing sent, with the tables as they are.
  pub Evolves-message :
      (w : World Body) (x : Message Body)
      → Evolves 0 w (record w { published = w.published ++ x ∷ [] })
  unfolding run
  Evolves-message w x = record {
    statements = [];
    tables_run = refl;
    messages = x ∷ [];
    published_grows = refl;
    emitted = [];
    events_grow = sym (append-nil w.events);
    requests = [];
    posts_grow = sym (append-nil w.posts);
    requests_few = omega arith;
  }

  pub Evolves-event :
      (w : World Body) (x : Event) → Evolves 0 w (record w { events = w.events ++ x ∷ [] })
  unfolding run
  Evolves-event w x = record {
    statements = [];
    tables_run = refl;
    messages = [];
    published_grows = sym (append-nil w.published);
    emitted = x ∷ [];
    events_grow = refl;
    requests = [];
    posts_grow = sym (append-nil w.posts);
    requests_few = omega arith;
  }

  pub Evolves-post :
      (w : World Body) (x : Outbound) → Evolves 1 w (record w { posts = w.posts ++ x ∷ [] })
  unfolding run
  Evolves-post w x = record {
    statements = [];
    tables_run = refl;
    messages = [];
    published_grows = sym (append-nil w.published);
    emitted = [];
    events_grow = sym (append-nil w.events);
    requests = x ∷ [];
    posts_grow = refl;
    requests_few = omega arith;
  }

  pub Evolves-refl : (w : World Body) → Evolves 0 w w
  unfolding run
  Evolves-refl w = Evolves-tables w [] w.tick

  pub Evolves-trans :
      {k l : ℕ} {u v w : World Body} → Evolves k u v → Evolves l v w → Evolves (k + l) u w
  Evolves-trans {u} {v} {w} e f = record {
    statements = e.statements ++ f.statements;
    tables_run =
        f.tables_run
        ∙ ap (run f.statements) e.tables_run
        ∙ sym (run-append e.statements f.statements u.tables);
    messages = e.messages ++ f.messages;
    published_grows =
        appended u.published v.published w.published e.messages f.messages e.published_grows
          f.published_grows;
    emitted = e.emitted ++ f.emitted;
    events_grow =
        appended u.events v.events w.events e.emitted f.emitted e.events_grow f.events_grow;
    requests = e.requests ++ f.requests;
    posts_grow = appended u.posts v.posts w.posts e.requests f.requests e.posts_grow f.posts_grow;
    requests_few = omega (arith, length-append e.requests f.requests);
  }

  -- Fewer requests than allowed are allowed.
  pub Evolves-mono : {k l : ℕ} {u v : World Body} → k ≤ l → Evolves k u v → Evolves l u v
  Evolves-mono h e = record {
    statements = e.statements;
    tables_run = e.tables_run;
    messages = e.messages;
    published_grows = e.published_grows;
    emitted = e.emitted;
    events_grow = e.events_grow;
    requests = e.requests;
    posts_grow = e.posts_grow;
    requests_few = omega arith;
  }

  -- One after the other, where the second sends nothing.
  pub Evolves-quiet : {k : ℕ} {u v w : World Body} → Evolves k u v → Evolves 0 v w → Evolves k u w
  Evolves-quiet {k} e f = Evolves-mono {k = k + 0} (omega arith) (Evolves-trans e f)

  -- A test that chooses between two actions.
  pub Evolves-if :
      {A : Type 0} {k : ℕ} (b : Bool) (m n : M Body A) (w : World Body)
      → Evolves k w (m w).1
      → Evolves k w (n w).1
      → Evolves k w ((if b then m else n) w).1
  Evolves-if true m n w e f = e
  Evolves-if false m n w e f = f

module _ {Body : Type 0} (env : ℕ → Turn) where
  pub arrive-Evolves : (w : World Body) → Evolves 0 w (arrive env w)
  unfolding arrive
  arrive-Evolves w = Evolves-tables w (env w.tick).others (suc w.tick)

  pub ask_done-Evolves : (w : World Body) → Evolves 0 w (ask_done env w).1
  unfolding ask_done
  ask_done-Evolves w = arrive-Evolves w
