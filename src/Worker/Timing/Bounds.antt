-- ===== src/Worker/Timing/Bounds.antt =====
-- The waiting times in closed form.
use native.Mathlib.Nat.{pow-suc}
use notify_stream.Prelude.{ℕ, zero, suc, ◌+◌, ◌*◌, ◌%◌, ◌^◌, ◌≤◌, ◌<◌, ◌≡◌, min, arith}
use notify_stream.Prelude.Int.{pos}
use notify_stream.Worker.Timing.{
  millisecond, second, backoff_base, backoff_max, backoff_loop, retry_backoff, pause_wait,
}

pow_pos : (n : ℕ) → 0 < 2 ^ n
pow_pos zero = omega arith
pow_pos (suc n) = omega (arith, pow-suc 2 n, pow_pos n)

double_pow : (d n : ℕ) → d * 2 ^ suc n ≡ d * 2 * 2 ^ n
double_pow d n = rw pow-suc (omega arith)

grown : (d n : ℕ) → d ≤ d * 2 ^ n
grown d n = grind (arith, pow_pos n)

backoff_loop-eq : (n d : ℕ) → d ≤ backoff_max → backoff_loop n d ≡ min backoff_max (d * 2 ^ n)
unfolding backoff_loop
backoff_loop-eq zero d h = omega arith
backoff_loop-eq (suc n) d h =
    rw (double_pow d n) (ground (arith, backoff_loop-eq n (d * 2), grown (d * 2) n))

-- The backoff before retry `n` is 250 ms doubled `n` times and capped at 30 s, plus the jitter.
pub retry_backoff_lem :
    (n now : ℕ)
    → retry_backoff (pos n) now
      ≡ min (30 * second) (250 * millisecond * 2 ^ n) + now % (50 * millisecond)
unfolding retry_backoff
retry_backoff_lem n now = rw (backoff_loop-eq n backoff_base (omega arith))

-- A delivery that was retried `n` times waits 100 ms and 80 ms for each retry, 2.5 s at most, and a
-- jitter below 60 ms.
pub pause_wait_lem :
    (n now : ℕ)
    → n < 2 ^ 32
    → pause_wait (pos n) now
      ≡ pos (min 2500 (100 + n * 80) * millisecond + now % (60 * millisecond))
unfolding pause_wait
pause_wait_lem n now h = ground arith
