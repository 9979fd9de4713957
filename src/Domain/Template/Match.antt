-- ===== src/Domain/Template/Match.antt =====
-- Where `match_var` matches, and where it does not.
use notify_stream.Prelude.{
  ℕ, ◌≡◌, ◌≢◌, refl, true, false, none, some, [], ◌∷◌, ◌++◌, Str, arith, All,
}
use notify_stream.Domain.Template.{is_pad, is_word, skip_pad, word, twice, close_var, match_var}

abbrev pub IsPad : Str → Type 0
IsPad = All (λ c. is_pad c ≡ true)

abbrev pub IsKey : Str → Type 0
IsKey = All (λ c. is_word c ≡ true)

pub skip_pad-append : (ws s : Str) → IsPad ws → skip_pad (ws ++ s) ≡ skip_pad s
unfolding skip_pad
skip_pad-append [] s h = refl
skip_pad-append (c ∷ ws) s h = ground (arith, skip_pad-append ws s)

word-ne-pad : (c : ℕ) → is_word c ≡ true → is_pad c ≡ false
unfolding is_word is_pad
word-ne-pad c h = ground arith

pad-ne-word : (c : ℕ) → is_pad c ≡ true → is_word c ≡ false
unfolding is_word is_pad
pad-ne-word c h = ground arith

pub skip_pad_word : (c : ℕ) (s : Str) → is_word c ≡ true → skip_pad (c ∷ s) ≡ c ∷ s
unfolding skip_pad
skip_pad_word c s h = ground (arith, word-ne-pad c)

-- A text that starts with padding or with `}`.
abbrev Stops : Str → Type 0
Stops [] = Unit
Stops (c ∷ s) = is_word c ≡ false

word-Stops : (s : Str) → Stops s → word s ≡ ([], s)
unfolding word
word-Stops [] h = refl
word-Stops (c ∷ s) h = ground arith

word-append : (key s : Str) → IsKey key → Stops s → word (key ++ s) ≡ (key, s)
unfolding word
word-append [] s h t = word-Stops s t
word-append (c ∷ key) s h t = ground (arith, word-append key s)

Stops-pad : (ws s : Str) → IsPad ws → Stops s → Stops (ws ++ s)
Stops-pad [] s h t = t
Stops-pad (c ∷ ws) s h t = pad-ne-word c h.0

twice_two : (b : ℕ) (s : Str) → twice b (b ∷ b ∷ s) ≡ some s
unfolding twice
twice_two b s = ground arith

skip_pad_close : (s : Str) → skip_pad (b'}' ∷ s) ≡ b'}' ∷ s
unfolding skip_pad is_pad
skip_pad_close s = refl

close_word : is_word b'}' ≡ false
unfolding is_word
close_word = refl

close_var_lem :
    (key ws s : Str) → key ≢ [] → IsPad ws → close_var (key, ws ++ b'}' ∷ b'}' ∷ s) ≡ some (key, s)
unfolding close_var
close_var_lem [] ws s h p = absurd (h refl)
close_var_lem (c ∷ key) ws s h p = simp (skip_pad-append ws _ p, skip_pad_close, twice_two)

match_var_open : (s : Str) → match_var (b'{' ∷ b'{' ∷ s) ≡ close_var (word (skip_pad s))
unfolding match_var
match_var_open s = rw twice_two

skip_pad_key : (key s : Str) → key ≢ [] → IsKey key → skip_pad (key ++ s) ≡ key ++ s
skip_pad_key [] s h k = absurd (h refl)
skip_pad_key (c ∷ key) s h k = skip_pad_word c (key ++ s) k.0

-- `{{`, padding, a key, padding and `}}` match, whatever follows.
pub match_var_lem :
    (ws key ws' s : Str)
    → IsPad ws
    → IsKey key
    → key ≢ []
    → IsPad ws'
    → match_var (b'{' ∷ b'{' ∷ (ws ++ (key ++ (ws' ++ b'}' ∷ b'}' ∷ s)))) ≡ some (key, s)
match_var_lem ws key ws' s p k h p' =
    rw
      (
        match_var_open,
        skip_pad-append ws _ p,
        skip_pad_key key _ h k,
        word-append key _ k (Stops-pad ws' (b'}' ∷ b'}' ∷ s) p' close_word),
      )
      (close_var_lem key ws' s h p')

-- A match starts with `{`.
pub match_var_other : (c : ℕ) (s : Str) → c ≢ b'{' → match_var (c ∷ s) ≡ none
unfolding match_var twice
match_var_other c [] h = refl
match_var_other c (d ∷ s) h = ground arith
