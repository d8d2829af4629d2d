-- ===== src/Core/Retry.antt =====
-- core/retry.py: how long a message waits before its next attempt.
use one_open_broker.Prelude.{ℕ, ◌-◌, ◌*◌, ◌^◌, ◌≡◌, Str, codes, str_eq, ltb, if◌then◌else◌, arith}

abbrev pub fixed : Str
fixed = codes "fixed"

abbrev pub exponential : Str
exponential = codes "exponential"

-- The delay after the exponent is settled, as an exact number; for the attempts up to 1024, since the
-- power of two no longer fits a float beyond them and the code raises an OverflowError.
unfoldable pub backoff : Str → ℕ → ℕ → ℕ
backoff mode base attempts = if str_eq mode fixed then base else base * 2 ^ (attempts - 1)

unfoldable pub retry_delay : ℕ → Str → ℕ → ℕ
unfolding backoff
retry_delay attempts mode base = backoff mode base (if ltb attempts 1 then 1 else attempts)

-- The first attempt, and what is taken for it, waits the base delay in every mode.
pub retry_delay-first : (mode : Str) (base : ℕ) → retry_delay 1 mode base ≡ base
unfolding retry_delay
retry_delay-first mode base = ground arith
