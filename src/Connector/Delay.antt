-- ===== src/Connector/Delay.antt =====
-- How long flute/net/Connector.cc waits between its attempts.
use flute.Prelude.{
  ℕ, zero, suc, ◌*◌, ◌^◌, ◌≡◌, refl, true, Option, some, List, [], ◌∷◌, arith, min, ◌>>=◌,
}
use flute.Channel.{Channel}
use flute.Connector.{
  Connector, k_disconnected, Effect, run_after, opened, closed, econnrefused, k_init_retry_delay_ms,
  k_max_retry_delay_ms, start_in_reactor, connect, after_connect, retry,
}

-- Attempts that are refused, each on the socket of its number.
abbrev pub refused : ℕ → Connector → Option Connector
refused zero c = some c
refused (suc n) c = refused n c >>= start_in_reactor n econnrefused

-- The delay after `n` refusals.
abbrev pub backoff : ℕ → ℕ
backoff n = min (k_init_retry_delay_ms * 2 ^ n) k_max_retry_delay_ms

-- The effects of `n` refusals, the latest first.
abbrev pub refusals : ℕ → List Effect
refusals zero = []
refusals (suc n) = run_after (backoff n) ∷ closed n ∷ opened n ∷ refusals n

-- A connector that was started and is not connecting.
abbrev pub after_refusals : ℕ → Option Channel → Connector
after_refusals n channel = record {
  state = k_disconnected;
  is_connected = true;
  channel = channel;
  retry_delay_ms = backoff n;
  effects = refusals n;
}

backoff-suc : (n : ℕ) → min (backoff n * 2) k_max_retry_delay_ms ≡ backoff (suc n)
backoff-suc n = omega (arith, power)
  where
    power : 2 ^ suc n ≡ 2 * 2 ^ n
    power = ground arith

one_more :
    (n : ℕ) (channel : Option Channel)
    → start_in_reactor n econnrefused (after_refusals n channel)
      ≡ some (after_refusals (suc n) channel)
unfolding start_in_reactor connect after_connect retry
one_more n channel = rw (backoff-suc n) refl

-- A started connector that is refused `n` times opens a socket for each attempt and closes it, and
-- waits before the next one for half a second, doubled at each refusal up to thirty seconds.
pub refused-after_refusals :
    (n : ℕ) (channel : Option Channel)
    → refused n (after_refusals 0 channel) ≡ some (after_refusals n channel)
refused-after_refusals zero channel = refl
refused-after_refusals (suc n) channel = rw (refused-after_refusals n channel) (one_more n channel)
