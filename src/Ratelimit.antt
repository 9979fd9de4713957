-- ===== src/Ratelimit.antt =====
-- internal/ratelimit/channel.go. The token buckets, in memory and on Redis, are libraries: what
-- they answer is a parameter. Durations are nanoseconds.
pub mod Limits
pub mod Waits
use notify_stream.Prelude.{
  ℕ, zero, suc, Bool, true, false, Option, none, some, List, [], ◌∷◌, ◌++◌, Str, codes, is_empty,
  str_eq, if◌then◌else◌,
}
use notify_stream.Prelude.Int.{ℤ, pos, ltb_ℤ}
use notify_stream.Domain.Types.{Channel, sms, email, push}

-- `redis_rate.Limit` with a period of a second, and the parameters of `rate.NewLimiter`.
pub record Limit : Type 0 where
  pub rate : ℤ
  pub burst : ℤ

pub data Waiter : Type 0 where
  memory : List (Channel × Limit) → Waiter
  redis : Limit → Waiter

pub data Made : Type 0 where
  bad_url no_ping : Made
  waiter : Waiter → Made

unfoldable pub or_if_below_one : ℤ → ℤ → ℤ
or_if_below_one n d = if ltb_ℤ n (pos 1) then d else n

-- A map from each of the channels.
unfoldable pub memory_limits : Limit → List Channel → List (Channel × Limit)
memory_limits l [] = []
memory_limits l (ch ∷ chs) = (ch, l) ∷ memory_limits l chs

unfoldable pub new_memory_waiter : ℤ → ℤ → Waiter
unfolding memory_limits
new_memory_waiter per_second burst =
    memory (memory_limits (record { rate = per_second; burst = burst }) (sms ∷ email ∷ push ∷ []))

-- `if lim.Burst < lim.Rate { lim.Burst = lim.Rate }`
unfoldable pub redis_limit : ℤ → ℤ → Limit
redis_limit per_second burst = record {
  rate = per_second;
  burst = if ltb_ℤ burst per_second then per_second else burst;
}

-- With the number of Redis clients that are left open; `ping` says whether the server answers.
unfoldable pub redis_made : Bool → Bool → ℤ → ℤ → Made × ℕ
unfolding redis_limit
redis_made false ping per_second burst = (bad_url, 0)
redis_made true false per_second burst = (no_ping, 0)
redis_made true true per_second burst = (waiter (redis (redis_limit per_second burst)), 1)

-- `is_url` is `redis.ParseURL` without an error.
unfoldable pub new_channel_waiter : (Str → Bool) → Bool → Str → ℤ → ℤ → Made × ℕ
unfolding or_if_below_one new_memory_waiter redis_made
new_channel_waiter is_url ping redis_url per_second burst =
    let rate = or_if_below_one per_second (pos 100) in
    let most = or_if_below_one burst rate in
    if is_empty redis_url
    then (waiter (new_memory_waiter rate most), 0)
    else redis_made (is_url redis_url) ping rate most

-- How a call of `Wait` ends; `running` is a loop that ran out of fuel.
pub data Waited : Type 0 where
  granted failed unknown_channel cancelled running : Waited

unfoldable pub limit_of : Channel → List (Channel × Limit) → Option Limit
unfolding str_eq
limit_of ch [] = none
limit_of ch ((c, l) ∷ ls) = if str_eq c ch then some l else limit_of ch ls

-- `memoryWaiter.Wait`; `bucket` is `Limiter.Wait` of the channel's bucket.
unfoldable pub memory_wait : (Channel → Limit → Waited) → Channel → List (Channel × Limit) → Waited
unfolding limit_of
memory_wait bucket ch ls = elim (limit_of ch ls) [ none ↦ unknown_channel | some l ↦ bucket ch l ]

-- `redisKeyPrefix + string(ch)`
unfoldable pub redis_key : Channel → Str
redis_key ch = codes "notifystream:delivery:" ++ ch

-- What `limiter.Allow` answers, if it does, and whether the context is done when the wait is over.
pub record Asked : Type 0 where
  pub result : Option (ℤ × ℤ)
  pub done : Bool

-- `retry`: the time until the next question.
unfoldable pub pause : ℤ → ℤ
pause retry = if ltb_ℤ (pos 0) retry then retry else pos 1000000

-- One round of the loop: how it ends, or how long it pauses.
pub data Round : Type 0 where
  ends : Waited → Round
  pauses : ℤ → Round

unfoldable pub round_of : Option (ℤ × ℤ) → Bool → Round
unfolding pause
round_of none done = ends failed
round_of (some (allowed, retry)) done =
    if ltb_ℤ (pos 0) allowed
    then ends granted
    else if done
    then ends cancelled
    else pauses (pause retry)

-- After a round: the loop ends, or what is left of it follows the pause.
unfoldable pub after_round : Round → Waited × List ℤ → Waited × List ℤ
after_round (ends o) rest = (o, [])
after_round (pauses d) (o, ds) = (o, d ∷ ds)

-- `redisWaiter.Wait`, with the pauses made, from question `t` on; `ask` answers for the key.
unfoldable pub redis_wait : (Str → ℕ → Asked) → Channel → ℕ → ℕ → Waited × List ℤ
unfolding round_of redis_key after_round
redis_wait ask ch zero t = (running, [])
redis_wait ask ch (suc fuel) t =
    let a = ask (redis_key ch) t in
    let rest = redis_wait ask ch fuel (suc t) in after_round (round_of a.result a.done) rest
