-- ===== src/Api/Create/Granted.antt =====
-- What a response of `CreateNotifications` says of the request.
use notify_stream.Prelude.{
  ℕ, suc, ◌≡◌, ◌≢◌, ◌≤◌, refl, sym, ap, ◌∙◌, inl, inr, Bool-cases, Option, none, some, List, [],
  ◌∷◌, Str, All, length, ltb, arith,
}
use notify_stream.Domain.Types.{CreateItem}
use notify_stream.Domain.Validate.{Problem, validate}
use notify_stream.Domain.Validate.Sound.{IsAcceptable, validate_iff}
use notify_stream.Amqp.Publish.{Wire}
use notify_stream.Db.Create.{create_batch, insert_notification}
use notify_stream.Db.Transaction.{transact, tx_commit}
use notify_stream.Api.Create.{finish_request}
use notify_stream.Db.Tables.{Tables}
use notify_stream.Db.Transaction.Value.{commit-value, transact-value}
use notify_stream.Api.Create.{
  Item, Response, created, too_many, with_problem, problems, correlation_of, with_batch, collect,
  inserted, insert_all, in_batch, store_all, publish_item, publish_all, committed, accept,
  or_invalid, create_notifications,
}
use notify_stream.World.{Turn, World, Result, ok, err, M, arrive}

no_problem :
    (i : ℕ) (o : Option Problem) (rest : List (ℕ × Problem))
    → with_problem i o rest ≡ []
    → (o ≡ none) × (rest ≡ [])
unfolding with_problem
no_problem i none rest h = (refl, h)
no_problem i (some p) rest h = absurd (cc)

problems_sound : (i : ℕ) (its : List CreateItem) → problems i its ≡ [] → All IsAcceptable its
unfolding problems
problems_sound i [] h = tt
problems_sound i (it ∷ its) h =
    let (good, rest) = no_problem i (validate it) (problems (suc i) its) h in
    ((validate_iff it).0 good, problems_sound (suc i) its rest)

module _ {A : Type 0} (ns : A) where
  same_ok : {ms : A} → ok ms ≡ ok ns → ms ≡ ns
  same_ok e = cc

same_created :
    {b c : Option ℕ} {ns ms : List Item} {h k : ℕ} → created b ns h ≡ created c ms k → ns ≡ ms
same_created e = cc

collect-length :
    (n : Item) (r : Result (List Item)) (k : ℕ) {ms : List Item}
    → ((ns : List Item) → r ≡ ok ns → length ns ≡ k)
    → collect n r ≡ ok ms
    → length ms ≡ suc k
unfolding collect
collect-length n (err e) k h c = absurd (cc)
collect-length n (ok ns) k {ms} h c = sym (ap length (same_ok ms c)) ∙ ap suc (h ns refl)

with_batch-length :
    (b : Option ℕ) (r : Result (List Item)) (k : ℕ) {out : Option ℕ × List Item}
    → ((ns : List Item) → r ≡ ok ns → length ns ≡ k)
    → with_batch b r ≡ ok out
    → length out.1 ≡ k
unfolding with_batch
with_batch-length b (err e) k h c = absurd (cc)
with_batch-length b (ok ns) k {out} h c = sym (ap (λ o. length o.1) (same_ok out c)) ∙ h ns refl

module _ {Body : Type 0} (env : ℕ → Turn) where
  inserted-length :
      (r : Result Item) (rest : M Body (Result (List Item))) (w : World Body) (k : ℕ)
      {ms : List Item}
      → ((ns : List Item) → (rest w).0 ≡ ok ns → length ns ≡ k)
      → (inserted env r rest w).0 ≡ ok ms
      → length ms ≡ suc k
  unfolding inserted
  inserted-length (err e) rest w k h c = absurd (cc)
  inserted-length (ok n) rest w k h c = collect-length n (rest w).0 k h c

  insert_all-length :
      (now : ℕ) (b : Option ℕ) (corr : Str) (its : List CreateItem) (w : World Body)
      {ns : List Item}
      → (insert_all env now b corr its w).0 ≡ ok ns
      → length ns ≡ length its
  unfolding insert_all
  insert_all-length now b corr [] w {ns} h = sym (ap length (same_ok ns h))
  insert_all-length now b corr (it ∷ its) w h =
      let (r, w1) = insert_notification env now b it (some corr) w in
      inserted-length r (insert_all env now b corr its) w1 (length its)
        (λ ns e. insert_all-length now b corr its w1 e) h

  in_batch-length :
      (now : ℕ) (corr : Str) (its : List CreateItem) (r : Result ℕ) (w : World Body)
      {out : Option ℕ × List Item}
      → (in_batch env now corr its r w).0 ≡ ok out
      → length out.1 ≡ length its
  unfolding in_batch
  in_batch-length now corr its (err e) w h = absurd (cc)
  in_batch-length now corr its (ok b) w h =
      with_batch-length (some b) (insert_all env now (some b) corr its w).0 (length its)
        (λ ns e. insert_all-length now (some b) corr its w e) h

  store_all-length :
      (metadata corr : Str) (its : List CreateItem) (now : ℕ) (w : World Body)
      {out : Option ℕ × List Item}
      → (store_all env metadata corr its now w).0 ≡ ok out
      → length out.1 ≡ length its
  unfolding store_all
  store_all-length metadata corr its now w h = elim (Bool-cases (ltb 1 (length its))) [
    | inl many ↦
        let (r, w1) = create_batch env now metadata (length its) w in
        in_batch-length now corr its r w1 (rw many at h)
    | inr few ↦
        with_batch-length none (insert_all env now none corr its w).0 (length its)
          (λ ns e. insert_all-length now none corr its w e) (rw few at h)
  ]

-- What a response of 201 says of the request.
abbrev pub IsGranted : List CreateItem → List Item → Type 0
IsGranted its ns =
    (its ≢ []) × (length its ≤ 1000) × All IsAcceptable its × (length ns ≡ length its)

module _ (wire : Wire) (env : ℕ → Turn) (mc : List (Str × Str)) where
  publish_all-length :
      (now : ℕ) (ns : List Item) (w : World wire.Body)
      → length (publish_all wire env mc now ns w).0 ≡ length ns
  unfolding publish_all
  publish_all-length now [] w = refl
  publish_all-length now (n ∷ ns) w =
      ap suc (publish_all-length now ns (publish_item wire env mc now n w).1)

  committed-length :
      (r : Result (Option ℕ × List Item)) (w : World wire.Body) (k : ℕ) {b : Option ℕ}
      {ns : List Item} {hits : ℕ}
      → ((out : Option ℕ × List Item) → r ≡ ok out → length out.1 ≡ k)
      → (committed wire env mc r w).0 ≡ created b ns hits
      → length ns ≡ k
  unfolding committed
  committed-length (err e) w k h c = absurd (cc)
  committed-length (ok (b, ns)) w k h c =
      sym (ap length (same_created c)) ∙ publish_all-length (env w.tick).now ns w ∙ h (b, ns) refl

  refused_created : {b : Option ℕ} {ns : List Item} {hits : ℕ} → too_many ≡ created b ns hits → ⊥
  refused_created e = cc

  granted :
      (ps : List (ℕ × Problem)) (act : M wire.Body Response) (w : World wire.Body) {b : Option ℕ}
      {ns : List Item} {hits : ℕ}
      → (or_invalid wire env mc ps act w).0 ≡ created b ns hits
      → (ps ≡ []) × ((act w).0 ≡ created b ns hits)
  unfolding or_invalid
  granted [] act w h = (refl, h)
  granted (p ∷ ps) act w h = absurd (cc)

  request-value :
      (saved : Tables) (r : Result (Option ℕ × List Item)) (w : World wire.Body)
      (b : Option ℕ × List Item)
      → (finish_request env saved r w).0 ≡ ok b
      → r ≡ ok b
  unfolding finish_request tx_commit
  request-value saved (err e) w b h = absurd (cc)
  request-value saved (ok a) w b h = commit-value (env w.tick).fault saved a w h

  accept-length :
      (metadata corr : Str) (its : List CreateItem) (w : World wire.Body) {b : Option ℕ}
      {ns : List Item} {hits : ℕ}
      → (accept wire env mc metadata corr its w).0 ≡ created b ns hits
      → length ns ≡ length its
  unfolding accept
  accept-length metadata corr its w h =
      let body : ℕ → M wire.Body (Result (Option ℕ × List Item)) =
        store_all env metadata corr its in
      let (r, w1) = transact env (finish_request env) body w in
      committed-length r w1 (length its)
        (λ out e.
          store_all-length env metadata corr its (env w.tick).now (arrive env w)
            (transact-value env (finish_request env) request-value body w e))
        h

  -- A request that is accepted has between one and 1000 items, all of them acceptable, and its response
  -- names as many notifications, whatever fails on the way.
  pub create_notifications-IsGranted :
      (request_id made_id metadata : Str) (its : List CreateItem) (w : World wire.Body)
      {b : Option ℕ} {ns : List Item} {hits : ℕ}
      → (create_notifications wire env mc request_id made_id metadata its w).0 ≡ created b ns hits
      → IsGranted its ns
  unfolding create_notifications
  create_notifications-IsGranted request_id made_id metadata [] w h = absurd (cc)
  create_notifications-IsGranted request_id made_id metadata (it ∷ its) w h =
      elim (Bool-cases (ltb 1000 (length (it ∷ its)))) [
        | inl many ↦ absurd (refused_created (rw many at h))
        | inr few ↦
            let corr : Str = correlation_of request_id made_id in
            let (clean, done) =
              granted (problems 0 (it ∷ its)) (accept wire env mc metadata corr (it ∷ its)) w
                (rw few at h) in
            (
              grind arith,
              grind arith,
              problems_sound 0 (it ∷ its) clean,
              accept-length metadata corr (it ∷ its) w done,
            )
      ]
