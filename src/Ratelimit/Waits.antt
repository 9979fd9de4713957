-- ===== src/Ratelimit/Waits.antt =====
-- When the loop on Redis ends.
use mathlib.Core.Path.{subst}
use notify_stream.Prelude.{
  ℕ, zero, suc, ◌+◌, ◌<◌, ◌≡◌, refl, ap, true, false, none, some, Str, All, length, arith,
}
use notify_stream.Prelude.Int.{ℤ, pos, ltb_ℤ}
use notify_stream.Domain.Types.{Channel}
use notify_stream.Ratelimit.{
  Asked, Waited, granted, failed, unknown_channel, cancelled, running, ends, pauses, round_of,
  after_round, redis_key, redis_wait, pause,
}

-- The server refuses, and the context is running.
abbrev pub IsRefused : Asked → Type 0
IsRefused a =
    (allowed : ℤ) × (retry : ℤ) × (a.result ≡ some (allowed, retry))
    × (ltb_ℤ (pos 0) allowed ≡ false)
    × (a.done ≡ false)

-- What ends the loop: an error, a token, or a refusal once the context is done.
abbrev pub EndsWith : Asked → Waited → Type 0
EndsWith a granted =
    (allowed : ℤ) × (retry : ℤ) × (a.result ≡ some (allowed, retry))
    × (ltb_ℤ (pos 0) allowed ≡ true)
EndsWith a failed = a.result ≡ none
EndsWith a cancelled =
    (allowed : ℤ) × (retry : ℤ) × (a.result ≡ some (allowed, retry))
    × (ltb_ℤ (pos 0) allowed ≡ false)
    × (a.done ≡ true)
EndsWith a _ = ⊥

abbrev pub IsPositive : ℤ → Type 0
IsPositive d = ltb_ℤ (pos 0) d ≡ true

round_ends : (a : Asked) (o : Waited) → EndsWith a o → round_of a.result a.done ≡ ends o
unfolding round_of
round_ends a granted (n, r, e, h) = rw (e, h) refl
round_ends a failed e = rw e refl
round_ends a cancelled (n, r, e, h, d) = rw (e, h, d) refl
round_ends a unknown_channel h = absurd h
round_ends a running h = absurd h

pause-IsPositive : (d : ℤ) → IsPositive (pause d)
unfolding pause
pause-IsPositive d = ground arith

round_pauses :
    (a : Asked) → IsRefused a → (d : ℤ) × (round_of a.result a.done ≡ pauses d) × IsPositive d
unfolding round_of
round_pauses a (n, r, e, h, d) = (pause r, rw (e, h, d) refl, pause-IsPositive r)

module _ (ask : Str → ℕ → Asked) (ch : Channel) where
  -- If the server refuses `n` questions and the next one ends the loop, then `n + 1` rounds are enough:
  -- the call ends as that question says, after `n` pauses, each of them longer than zero.
  pub redis_wait_ends :
      (n t : ℕ) (o : Waited)
      → ((i : ℕ) → i < n → IsRefused (ask (redis_key ch) (t + i)))
      → EndsWith (ask (redis_key ch) (t + n)) o
      → (fuel : ℕ) → n < fuel
      → ((redis_wait ask ch fuel t).0 ≡ o)
        × (length (redis_wait ask ch fuel t).1 ≡ n)
        × All IsPositive (redis_wait ask ch fuel t).1
  unfolding redis_wait after_round
  redis_wait_ends n t o before last zero h = absurd (omega arith)
  redis_wait_ends zero t o before last (suc fuel) h =
      let now : EndsWith (ask (redis_key ch) t) o =
        subst (λ k. EndsWith (ask (redis_key ch) k) o) (omega arith) last in
      rw (round_ends (ask (redis_key ch) t) o now) (refl, refl, tt)
  redis_wait_ends (suc n) t o before last (suc fuel) h =
      let now : IsRefused (ask (redis_key ch) t) =
        subst (λ k. IsRefused (ask (redis_key ch) k)) (omega arith) (before 0 (omega arith)) in
      let (d, e, p) = round_pauses (ask (redis_key ch) t) now in
      let later : (i : ℕ) → i < n → IsRefused (ask (redis_key ch) (suc t + i)) = λ i h.
        subst (λ k. IsRefused (ask (redis_key ch) k)) (omega arith)
          (before (suc i) (omega arith)) in
      let end : EndsWith (ask (redis_key ch) (suc t + n)) o =
        subst (λ k. EndsWith (ask (redis_key ch) k) o) (omega arith) last in
      let (a, b, c) = redis_wait_ends n (suc t) o later end fuel (omega arith) in
      rw e (a, ap suc b, (p, c))
