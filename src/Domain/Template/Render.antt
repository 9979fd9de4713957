-- ===== src/Domain/Template/Render.antt =====
-- Rendering a body that is given as literal texts and placeholders.
use notify_stream.Prelude.{
  ℕ, zero, suc, ◌+◌, ◌≤◌, ◌≡◌, ◌≢◌, refl, true, Option, none, some, List, [], ◌∷◌, ◌++◌, Str, arith,
  All, length, append_assoc, length-append, take, ap, ◌∙◌, ◌-◌, if◌then◌else◌,
}
use notify_stream.Domain.Template.{
  Json, Value, match_var, has_var, or_match, replace, ok, err, unresolved, substitute, fill,
  checked, render,
}
use notify_stream.Domain.Template.Match.{IsPad, IsKey, match_var_lem, match_var_other}

-- A literal text, or a placeholder with its paddings.
pub data Segment : Type 0 where
  literal : Str → Segment
  var : Str → Str → Str → Segment

abbrev pub IsWritten : Segment → Type 0
IsWritten (literal t) = All (λ c. c ≢ b'{') t
IsWritten (var ws key ws') = IsPad ws × IsKey key × (key ≢ []) × IsPad ws'

abbrev pub write : Segment → Str → Str
write (literal t) s = t ++ s
write (var ws key ws') s = b'{' ∷ b'{' ∷ (ws ++ (key ++ (ws' ++ b'}' ∷ b'}' ∷ s)))

-- The body that the segments spell.
abbrev pub body_of : List Segment → Str
body_of [] = []
body_of (g ∷ gs) = write g (body_of gs)

abbrev pub or_written : Option Str → Segment → Str
or_written (some t) g = t
or_written none g = write g []

-- The segments with each placeholder replaced, and kept where `sub` gives nothing.
abbrev pub result_of : (Str → Option Str) → List Segment → Str
result_of sub [] = []
result_of sub (literal t ∷ gs) = t ++ result_of sub gs
result_of sub (var ws key ws' ∷ gs) = or_written (sub key) (var ws key ws') ++ result_of sub gs

write-append : (ws key ws' s : Str) → write (var ws key ws') s ≡ write (var ws key ws') [] ++ s
write-append ws key ws' s = simp append_assoc

length-write :
    (ws key ws' s : Str)
    → length (write (var ws key ws') s) ≡ length (write (var ws key ws') []) + length s
length-write ws key ws' s =
    ap length (write-append ws key ws' s) ∙ length-append (write (var ws key ws') []) s

take_front : (t s : Str) (n : ℕ) → n ≡ length t → take n (t ++ s) ≡ t
take_front [] s zero e = refl
take_front [] s (suc n) e = absurd (omega arith)
take_front (c ∷ t) s zero e = absurd (omega arith)
take_front (c ∷ t) s (suc n) e = ap (λ u. c ∷ u) (take_front t s n (omega arith))

or_match_var :
    (o : Option Str) (ws key ws' s : Str)
    → or_match o (write (var ws key ws') s) s ≡ or_written o (var ws key ws')
unfolding or_match
or_match_var (some t) ws key ws' s = refl
or_match_var none ws key ws' s =
    let t : Str = write (var ws key ws') [] in
    let n : ℕ = length (write (var ws key ws') s) - length s in
    ap (take n) (write-append ws key ws' s)
    ∙ take_front t s n (omega (arith, length-write ws key ws' s))

replace_step :
    (sub : Str → Option Str) (fuel c : ℕ) (s : Str) {key rest : Str}
    → match_var (c ∷ s) ≡ some (key, rest)
    → replace sub (suc fuel) (c ∷ s) ≡ or_match (sub key) (c ∷ s) rest ++ replace sub fuel rest
unfolding replace
replace_step sub fuel c s h = rw (h, replace)

module _ (sub : Str → Option Str) where
  replace_literal :
      (t s : Str) (n fuel : ℕ)
      → All (λ c. c ≢ b'{') t
      → n ≡ length t + fuel
      → replace sub n (t ++ s) ≡ t ++ replace sub fuel s
  unfolding replace
  replace_literal [] s n fuel h e = ground arith
  replace_literal (c ∷ t) s zero fuel h e = absurd (omega arith)
  replace_literal (c ∷ t) s (suc n) fuel h e =
      rw (match_var_other c (t ++ s) h.0, replace)
        (ap (λ u. c ∷ u) (replace_literal t s n fuel h.1 (omega arith)))

  replace_nil : (fuel : ℕ) → replace sub fuel [] ≡ []
  unfolding replace
  replace_nil zero = refl
  replace_nil (suc fuel) = refl

  replace-body_of :
      (gs : List Segment) (fuel : ℕ)
      → All IsWritten gs
      → length (body_of gs) ≤ fuel
      → replace sub fuel (body_of gs) ≡ result_of sub gs
  replace-body_of [] fuel h f = replace_nil fuel
  replace-body_of (literal t ∷ gs) fuel h f =
      replace_literal t (body_of gs) fuel (fuel - length t) h.0
        (omega (arith, length-append t (body_of gs)))
      ∙ ap (λ u. t ++ u)
          (replace-body_of gs (fuel - length t) h.1 (omega (arith, length-append t (body_of gs))))
  replace-body_of (var ws key ws' ∷ gs) zero h f = absurd (omega arith)
  replace-body_of (var ws key ws' ∷ gs) (suc fuel) ((p, k, ne, p'), hs) f =
      rw
        (
          replace_step sub fuel b'{' _ (match_var_lem ws key ws' (body_of gs) p k ne p'),
          or_match_var (sub key) ws key ws' (body_of gs),
        )
        (ap (λ u. or_written (sub key) (var ws key ws') ++ u)
          (replace-body_of gs fuel hs (omega (arith, length-write ws key ws' (body_of gs)))))

has_var_skip : (c : ℕ) (s : Str) → has_var s ≡ true → has_var (c ∷ s) ≡ true
unfolding has_var
has_var_skip c s h = ground arith

-- There is a placeholder among the segments.
abbrev pub HasVar : List Segment → Type 0
HasVar [] = ⊥
HasVar (literal t ∷ gs) = HasVar gs
HasVar (var ws key ws' ∷ gs) = Unit

has_var_append : (t s : Str) → has_var s ≡ true → has_var (t ++ s) ≡ true
has_var_append [] s h = h
has_var_append (c ∷ t) s h = has_var_skip c (t ++ s) (has_var_append t s h)

has_var-body_of : (gs : List Segment) → All IsWritten gs → HasVar gs → has_var (body_of gs) ≡ true
has_var-body_of [] h v = absurd v
has_var-body_of (literal t ∷ gs) h v = has_var_append t (body_of gs) (has_var-body_of gs h.1 v)
has_var-body_of (var ws key ws' ∷ gs) ((p, k, ne, p'), hs) v =
    unfold has_var in rw (match_var_lem ws key ws' (body_of gs) p k ne p')

module _ (j : Json) where
  -- A body of literal texts with no brace and of placeholders, at least one of them, and a payload
  -- that decodes to an object: each placeholder is replaced by the printed member of its key and kept
  -- if there is none, and the result is refused exactly if a placeholder is in it.
  pub render-body_of :
      (gs : List Segment) (payload : Str) {m : List (Str × Value j.Float j.Compound)}
      → All IsWritten gs
      → HasVar gs
      → payload ≢ []
      → j.unmarshal_object payload ≡ some m
      → render j (body_of gs) payload ≡ (
          let out = result_of (substitute j m) gs in if has_var out then err unresolved else ok out)
  unfolding render fill checked
  render-body_of gs [] h v ne e = absurd (ne refl)
  render-body_of gs (b ∷ payload) {m} h v ne e = rw (
    has_var-body_of gs h v,
    e,
    replace-body_of (substitute j m) gs (length (body_of gs)) h (omega arith),
  )
