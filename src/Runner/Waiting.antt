-- ===== src/Runner/Waiting.antt =====
-- The entries of the outbox that are not published, and the claim of one of them.
use mathlib.Core.Path.{subst}
use notify_stream.Prelude.{
  ℕ, suc, ◌≤◌, ◌<◌, ◌≡◌, ◌⊎◌, refl, sym, ap, Bool, true, false, Bool-cases, not, inl, inr, List, [],
  ◌∷◌, IsIn, arith, if◌then◌else◌,
}
use notify_stream.Prelude.Int.{pos}
use notify_stream.Prelude.Sort.{sort_by, filter}
use notify_stream.Prelude.Sort.Members.{IsIn-sort_by, IsIn-filter}
use notify_stream.Db.Tables.{OutboxRow, Tables}
use notify_stream.Db.Change.{is_null, publish_row}
use notify_stream.Db.Claims.{claim_outbox_batch, clamp}
use notify_stream.Db.Claims.Oldest.{by_id}

-- The entries that are not published.
abbrev pub unpublished : List OutboxRow → ℕ
unpublished [] = 0
unpublished (e ∷ es) = if is_null e.published_at then suc (unpublished es) else unpublished es

publish_row_less :
    (now id : ℕ) (es : List OutboxRow) → unpublished (publish_row now id es).0 ≤ unpublished es
unfolding publish_row
publish_row_less now id [] = omega arith
publish_row_less now id (e ∷ es) = ground (arith, publish_row_less now id es)

-- The entry that is marked as published counts no more.
pub publish_row_one :
    (now : ℕ) (e : OutboxRow) (es : List OutboxRow)
    → is_null e.published_at ≡ true
    → IsIn e es
    → unpublished (publish_row now e.id es).0 < unpublished es
unfolding publish_row
publish_row_one now e [] n i = absurd i
publish_row_one now e (f ∷ es) n (inl s) =
    ground (arith, publish_row_less now e.id es, ap (λ u. u.id) s, ap (λ u. u.published_at) s)
publish_row_one now e (f ∷ es) n (inr i) = ground (arith, publish_row_one now e es n i)

none_left :
    (es : List OutboxRow)
    → ((y : OutboxRow) → IsIn y es → is_null y.published_at ≡ false)
    → unpublished es ≡ 0
none_left [] f = refl
none_left (e ∷ es) f = rw (f e (inl refl)) (none_left es (λ y i. f y (inr i)))

-- No entry is locked.
abbrev pub nobody : ℕ → Bool
nobody id = false

first-cases {ℓ} :
    {A : Type ℓ} (xs : List A) → (xs ≡ []) ⊎ ((x : A) × (rest : List A) × (xs ≡ x ∷ rest))
first-cases [] = inl refl
first-cases (x ∷ xs) = inr (x, xs, refl)

-- The rows that a claim reads, in their order.
abbrev free_rows : List OutboxRow → List OutboxRow
free_rows es =
    filter (λ e. not (nobody e.id)) (sort_by by_id (filter (λ e. is_null e.published_at) es))

IsIn-free_rows :
    (y : OutboxRow) (es : List OutboxRow)
    → (IsIn y (free_rows es) → IsIn y es × (is_null y.published_at ≡ true))
      × (IsIn y es → is_null y.published_at ≡ true → IsIn y (free_rows es))
IsIn-free_rows y es = (
  λ i.
      (IsIn-filter (λ e. is_null e.published_at) y es).0
        ((IsIn-sort_by by_id y _).0 ((IsIn-filter (λ e. not (nobody e.id)) y _).0 i).0),
  λ i n. (IsIn-filter (λ e. not (nobody e.id)) y _).1 (
    (IsIn-sort_by by_id y _).1 ((IsIn-filter (λ e. is_null e.published_at) y es).1 (i, n)),
    refl,
  ),
)

-- A claim of one entry finds one that is not published, unless all are.
abbrev pub Claims : Tables → List OutboxRow → Type 0
Claims db got =
    ((got ≡ []) × (unpublished db.outbox ≡ 0))
    ⊎ ((e : OutboxRow) × (got ≡ e ∷ []) × IsIn e db.outbox × (is_null e.published_at ≡ true))

pub claim-Claims : (db : Tables) → Claims db (claim_outbox_batch nobody (pos 1) db)
unfolding claim_outbox_batch clamp
claim-Claims db = elim (first-cases (free_rows db.outbox)) [
  | inl none_free ↦ inl (
    rw none_free refl,
    none_left db.outbox (λ y i. elim (Bool-cases (is_null y.published_at)) [
      | inl n ↦ absurd (subst (IsIn y) none_free ((IsIn-free_rows y db.outbox).1 i n))
      | inr p ↦ p
    ]),
  )
  | inr (e, rest, same) ↦
      let (i, n) = (IsIn-free_rows e db.outbox).0 (subst (IsIn e) (sym same) (inl refl)) in
      inr (e, rw same refl, i, n)
]
