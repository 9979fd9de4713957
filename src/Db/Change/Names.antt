-- ===== src/Db/Change/Names.antt =====
-- The unique names of the templates: no statement makes a second template with a name.
use notify_stream.Prelude.{
  ℕ, ◌≡◌, ◌≢◌, refl, sym, true, false, Bool, Bool-cases, inl, inr, ◌↔◌, List, [], ◌∷◌, ◌++◌, Str,
  str_eq_iff, All, All-append, arith,
}
use notify_stream.Domain.Types.{Template}
use notify_stream.Db.Tables.{Tables}
use notify_stream.Db.Change.{
  Change, insert_row, insert_template, insert_unless, apply, run, name_taken, insert_named,
}

-- No template of the list has the name.
abbrev pub IsUnused : Str → List Template → Type 0
IsUnused name = All (λ t. t.name ≢ name)

-- Two templates of the list have different names.
abbrev pub HasUniqueNames : List Template → Type 0
HasUniqueNames [] = Unit
HasUniqueNames (t ∷ ts) = IsUnused t.name ts × HasUniqueNames ts

name_taken-IsUnused :
    (name : Str) (ts : List Template) → name_taken name ts ≡ false → IsUnused name ts
unfolding name_taken
name_taken-IsUnused name [] h = tt
name_taken-IsUnused name (t ∷ ts) h =
    (λ e. ground (arith, str_eq_iff t.name name), name_taken-IsUnused name ts (ground arith))

unused_free : (name : Str) (ts : List Template) → IsUnused name ts → name_taken name ts ≡ false
unfolding name_taken
unused_free name [] h = refl
unused_free name (t ∷ ts) (ne, h) = ground (arith, str_eq_iff t.name name, unused_free name ts h)

pub name_taken_iff :
    (name : Str) (ts : List Template) → (name_taken name ts ≡ false) ↔ IsUnused name ts
name_taken_iff name ts = (name_taken-IsUnused name ts, unused_free name ts)

append-HasUniqueNames :
    (ts : List Template) (t : Template)
    → IsUnused t.name ts
    → HasUniqueNames ts
    → HasUniqueNames (ts ++ t ∷ [])
append-HasUniqueNames [] t h u = (tt, tt)
append-HasUniqueNames (s ∷ ts) t (ne, h) (new, u) = (
  All-append (λ r. r.name ≢ s.name) ts (t ∷ []) new (λ e. ne (sym e), tt),
  append-HasUniqueNames ts t h u,
)

insert_named-HasUniqueNames :
    (t : Template) (ts : List Template) → HasUniqueNames ts → HasUniqueNames (insert_named t ts).0
unfolding insert_named
insert_named-HasUniqueNames t ts u = elim (Bool-cases (name_taken t.name ts)) [
  | inl taken ↦ rw taken u
  | inr free ↦ rw free (append-HasUniqueNames ts t (name_taken-IsUnused t.name ts free) u)
]

insert_unless_templates :
    (b : Bool) (db : Tables) (n : notify_stream.Domain.Types.Notification)
    → (insert_unless b n db).0.templates ≡ db.templates
unfolding insert_unless
insert_unless_templates true db n = refl
insert_unless_templates false db n = refl

apply-HasUniqueNames :
    (c : Change) (now : ℕ) (db : Tables)
    → HasUniqueNames db.templates
    → HasUniqueNames (apply c now db).0.templates
unfolding apply
apply-HasUniqueNames (insert_template t) now db u = insert_named-HasUniqueNames t db.templates u
apply-HasUniqueNames (insert_row n) now db u = rw (insert_unless_templates _ db n) u
apply-HasUniqueNames _ now db u = u

-- If the templates have unique names, they have them after any statements, insertions of a template
-- with a name that is taken included.
pub run-HasUniqueNames :
    (cs : List (Change × ℕ)) (db : Tables)
    → HasUniqueNames db.templates
    → HasUniqueNames (run cs db).templates
unfolding run
run-HasUniqueNames [] db u = u
run-HasUniqueNames ((c, now) ∷ cs) db u =
    run-HasUniqueNames cs (apply c now db).0 (apply-HasUniqueNames c now db u)
