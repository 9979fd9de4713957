-- ===== src/Worker/Timing.antt =====
-- The waiting times of cmd/worker/main.go: `retryBackoff`, `pauseBeforeRequeue`, the pauses of
-- `markDeliveredWithRetry` and `stuckSendingRecovery`. A `time.Duration` counts nanoseconds; `now` is
-- `time.Now().UnixNano()`.
pub mod Bounds
use notify_stream.Prelude.{
  ℕ, zero, suc, ◌+◌, ◌*◌, ◌%◌, ◌^◌, Bool, Option, none, some, Str, is_empty, trim_space, ltb,
  if◌then◌else◌,
}
use notify_stream.Prelude.Int.{ℤ, pos, negsuc, ◌+ℤ◌, ◌*ℤ◌, ltb_ℤ, int64}

abbrev pub millisecond : ℕ
millisecond = 1_000_000

abbrev pub second : ℕ
second = 1_000_000_000

abbrev pub max_webhook_retries : ℕ
max_webhook_retries = 5

abbrev pub backoff_base : ℕ
backoff_base = 250 * millisecond

abbrev pub backoff_max : ℕ
backoff_max = 30 * second

-- The loop of `retryBackoff`, with the rounds that `retryCount` leaves. A `break` gives the maximum.
unfoldable pub backoff_loop : ℕ → ℕ → ℕ
backoff_loop zero d = d
backoff_loop (suc rounds) d =
    let next = d * 2 in
    let rest = backoff_loop rounds next in
    if ltb d backoff_max then (if ltb backoff_max next then backoff_max else rest) else d

-- `i < retryCount` fails at once for a negative count.
abbrev pub rounds : ℤ → ℕ
rounds (pos n) = n
rounds (negsuc n) = 0

unfoldable pub retry_backoff : ℤ → ℕ → ℕ
unfolding backoff_loop
retry_backoff retry_count now =
    backoff_loop (rounds retry_count) backoff_base + now % (50 * millisecond)

-- `wait` of `pauseBeforeRequeue`, for a retry count of the headers.
unfoldable pub pause_wait : ℤ → ℕ → ℤ
unfolding ◌+ℤ◌ ◌*ℤ◌ int64
pause_wait rc now =
    let ms = int64 (pos 100 +ℤ int64 (rc *ℤ pos 80)) in
    let ms' = if ltb_ℤ (pos 2500) ms then pos 2500 else ms in
    int64 (int64 (ms' *ℤ pos millisecond) +ℤ pos (now % (60 * millisecond)))

abbrev pub delivered_attempts : ℕ
delivered_attempts = 30

-- The timeout of `mdCtx`.
abbrev pub delivered_deadline : ℕ
delivered_deadline = 45 * second

-- `wait` behind attempt `i` of `markDeliveredWithRetry`.
unfoldable pub delivered_wait : ℕ → ℕ
delivered_wait i =
    let shift = if ltb 6 i then 6 else i in
    let wait = 50 * 2 ^ shift * millisecond in if ltb (2 * second) wait then 2 * second else wait

-- `stuckSendingRecovery`; `atoi` is `strconv.Atoi`.
unfoldable pub recovery_of : Option ℤ → ℤ
unfolding ◌*ℤ◌ int64
recovery_of none = pos (120 * second)
recovery_of (some (negsuc n)) = pos (120 * second)
recovery_of (some (pos n)) = int64 (pos n *ℤ pos second)

unfoldable pub stuck_sending_recovery : (Str → Option ℤ) → Str → ℤ
unfolding recovery_of
stuck_sending_recovery atoi raw =
    let s = trim_space raw in if is_empty s then pos (120 * second) else recovery_of (atoi s)
