-- ===== src/Domain/Template.antt =====
-- `RenderTemplateBody` of internal/domain/template_render.go. The pattern `tplVarRe` is written out as
-- a matcher: its character classes are disjoint, so a greedy match needs no backtracking. The JSON
-- decoder and its printers are parameters. The proofs are in the modules below.
pub mod Match
pub mod Render
use notify_stream.Prelude.{
  ℕ, zero, suc, Bool, true, false, ◌&&◌, ◌||◌, Option, none, some, List, [], ◌∷◌, ◌++◌, Str, codes,
  str_eq, is_empty, is_some, take, not, ◌-◌, leb, ◌==◌, length, if◌then◌else◌, ◌>>=◌,
}

-- `\s` of the package `regexp`.
unfoldable pub is_pad : ℕ → Bool
is_pad c = c == 0x09 || c == 0x0a || c == 0x0c || c == 0x0d || c == 0x20

-- `[a-zA-Z0-9_]`
unfoldable pub is_word : ℕ → Bool
is_word c =
    leb b'a' c && leb c b'z' || leb b'A' c && leb c b'Z' || leb b'0' c && leb c b'9' || c == b'_'

-- `\s*`
unfoldable pub skip_pad : Str → Str
skip_pad [] = []
skip_pad (c ∷ s) = let rest = skip_pad s in elim (is_pad c) [ true ↦ rest | false ↦ c ∷ s ]

-- `[a-zA-Z0-9_]*`, and what follows it.
unfoldable pub word : Str → Str × Str
word [] = ([], [])
word (c ∷ s) =
    let (key, rest) = word s in elim (is_word c) [ true ↦ (c ∷ key, rest) | false ↦ ([], c ∷ s) ]

-- Two characters `b`.
unfoldable pub twice : ℕ → Str → Option Str
twice b [] = none
twice b (c ∷ []) = none
twice b (c ∷ d ∷ s) = if c == b && d == b then some s else none

unfoldable pub close_var : Str × Str → Option (Str × Str)
close_var (key, s) =
    if is_empty key then none else do rest ← twice b'}' (skip_pad s); some (key, rest)

-- `tplVarRe` at the front of a text: the first group, and what follows the match.
unfoldable pub match_var : Str → Option (Str × Str)
unfolding close_var
match_var s = do t ← twice b'{' s; close_var (word (skip_pad t))

-- `tplVarRe.MatchString`
unfoldable pub has_var : Str → Bool
has_var [] = false
has_var (c ∷ s) = is_some (match_var (c ∷ s)) || has_var s

pub data RenderError : Type 0 where
  empty_payload : RenderError
  bad_json : RenderError
  unresolved : RenderError

pub data Rendered : Type 0 where
  ok : Str → Rendered
  err : RenderError → Rendered

-- A member of the decoded `map[string]any`. Objects, arrays and null go to `json.Marshal`.
pub data Value (F C : Type 0) : Type 0 where
  text : Str → Value F C
  bool : Bool → Value F C
  float : F → Value F C
  compound : C → Value F C

-- What the code calls of encoding/json and, for a number, of `fmt.Sprint`.
pub record Json : Type 1 where
  pub Float : Type 0
  pub Compound : Type 0
  pub unmarshal_object : Str → Option (List (Str × Value Float Compound))
  pub sprint_float : Float → Str
  pub marshal : Compound → Option Str

module _ (j : Json) where
  -- The `switch` on the type of the value; `none` is a failed `json.Marshal`.
  unfoldable pub print_value : Value j.Float j.Compound → Option Str
  print_value (text t) = some t
  print_value (bool true) = some (codes "true")
  print_value (bool false) = some (codes "false")
  print_value (float f) = some (j.sprint_float f)
  print_value (compound c) = j.marshal c

  -- `m[key]`
  unfoldable pub find_key :
      Str → List (Str × Value j.Float j.Compound) → Option (Value j.Float j.Compound)
  find_key key [] = none
  find_key key ((k, v) ∷ m) = if str_eq k key then some v else find_key key m

  -- The text that replaces a match of `key`; `none` keeps the match.
  unfoldable pub substitute : List (Str × Value j.Float j.Compound) → Str → Option Str
  unfolding print_value find_key
  substitute m key = do v ← find_key key m; print_value v

-- The replacement of a match at the front of `s`; without one the matched text stays.
unfoldable pub or_match : Option Str → Str → Str → Str
or_match (some t) s rest = t
or_match none s rest = take (length s - length rest) s

-- `ReplaceAllStringFunc`, at most `fuel` rounds; a round takes one character or one match.
unfoldable pub replace : (Str → Option Str) → ℕ → Str → Str
unfolding or_match
replace sub zero s = []
replace sub (suc fuel) [] = []
replace sub (suc fuel) (c ∷ s) = elim (match_var (c ∷ s)) [
  | none ↦ c ∷ replace sub fuel s
  | some m ↦ or_match (sub m.0) (c ∷ s) m.1 ++ replace sub fuel m.1
]

unfoldable pub checked : Str → Rendered
checked out = if has_var out then err unresolved else ok out

module _ (j : Json) where
  unfoldable pub fill : Str → Option (List (Str × Value j.Float j.Compound)) → Rendered
  unfolding checked
  fill body none = err bad_json
  fill body (some m) = checked (replace (substitute j m) (length body) body)

  unfoldable pub render : Str → Str → Rendered
  unfolding fill
  render body payload =
      if not (has_var body)
      then ok body
      else if is_empty payload
      then err empty_payload
      else fill body (j.unmarshal_object payload)
