-- ===== src/Ratelimit/Limits.antt =====
-- The limits of a waiter, and the Redis clients that are left open.
use notify_stream.Prelude.{
  ℕ, Bool, true, false, ◌≡◌, ◌≢◌, refl, some, [], ◌∷◌, Str, str_eq_iff, arith,
}
use notify_stream.Prelude.Int.{ℤ, pos, ltb_ℤ}
use notify_stream.Domain.Types.{Channel, sms, email, push, is_channel}
use notify_stream.Ratelimit.{
  Limit, memory, redis, Made, waiter, or_if_below_one, memory_limits, new_memory_waiter,
  redis_limit, redis_made, new_channel_waiter, limit_of,
}

-- At least one token in a second, and a bucket for one token at least.
abbrev pub IsSound : Limit → Type 0
IsSound l = (ltb_ℤ l.rate (pos 1) ≡ false) × (ltb_ℤ l.burst (pos 1) ≡ false)

-- A waiter in memory has a sound limit for each channel and no client; one on Redis has a sound limit
-- whose bucket holds the tokens of a second, and one client; without a waiter no client is left open.
abbrev pub IsMade : Str → Made × ℕ → Type 0
IsMade url (waiter (memory ls), clients) =
    (url ≡ [])
    × (clients ≡ 0)
    × ((ch : Channel) → is_channel ch ≡ true → (l : Limit) × (limit_of ch ls ≡ some l) × IsSound l)
IsMade url (waiter (redis l), clients) =
    (url ≢ []) × (clients ≡ 1) × IsSound l × (ltb_ℤ l.burst l.rate ≡ false)
IsMade url (_, clients) = (url ≢ []) × (clients ≡ 0)

or_if_below_one_lem :
    (n d : ℤ) → ltb_ℤ d (pos 1) ≡ false → ltb_ℤ (or_if_below_one n d) (pos 1) ≡ false
unfolding or_if_below_one
or_if_below_one_lem n d h = ground arith

raised : (r b : ℤ) → ltb_ℤ (redis_limit r b).burst (redis_limit r b).rate ≡ false
unfolding redis_limit
raised r b = ground arith

redis_limit-IsSound :
    (r b : ℤ) → ltb_ℤ r (pos 1) ≡ false → ltb_ℤ b (pos 1) ≡ false → IsSound (redis_limit r b)
unfolding redis_limit
redis_limit-IsSound r b hr hb = (hr, ground arith)

memory_limit :
    (l : Limit) (ch : Channel)
    → is_channel ch ≡ true
    → limit_of ch (memory_limits l (sms ∷ email ∷ push ∷ [])) ≡ some l
unfolding limit_of memory_limits is_channel
memory_limit l ch h = ground (
  arith,
  str_eq_iff ch sms,
  str_eq_iff ch email,
  str_eq_iff ch push,
  str_eq_iff sms ch,
  str_eq_iff email ch,
  str_eq_iff push ch,
)

redis_made-IsMade :
    (is_url ping : Bool) (url : Str) (r b : ℤ)
    → url ≢ []
    → ltb_ℤ r (pos 1) ≡ false
    → ltb_ℤ b (pos 1) ≡ false
    → IsMade url (redis_made is_url ping r b)
unfolding redis_made
redis_made-IsMade false ping url r b full hr hb = (full, refl)
redis_made-IsMade true false url r b full hr hb = (full, refl)
redis_made-IsMade true true url r b full hr hb =
    (full, refl, redis_limit-IsSound r b hr hb, raised r b)

-- Whatever rate and burst are asked for, the waiter that is made has limits of at least one, for every
-- channel; it is in memory exactly without a Redis URL; on Redis the burst is no less than the rate; and
-- a failure leaves no client open.
pub new_channel_waiter-IsMade :
    (is_url : Str → Bool) (ping : Bool) (url : Str) (per_second burst : ℤ)
    → IsMade url (new_channel_waiter is_url ping url per_second burst)
unfolding new_channel_waiter new_memory_waiter
new_channel_waiter-IsMade is_url ping [] r b =
    let rate = or_if_below_one_lem r (pos 100) refl in
    (
      refl,
      refl,
      λ ch h. (
        _,
        memory_limit _ ch h,
        (rate, or_if_below_one_lem b (or_if_below_one r (pos 100)) rate),
      ),
    )
new_channel_waiter-IsMade is_url ping (c ∷ url) r b =
    let rate = or_if_below_one_lem r (pos 100) refl in
    redis_made-IsMade (is_url (c ∷ url)) ping (c ∷ url) (or_if_below_one r (pos 100))
      (or_if_below_one b (or_if_below_one r (pos 100))) (λ e. cc) rate
      (or_if_below_one_lem b (or_if_below_one r (pos 100)) rate)
