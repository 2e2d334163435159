-- ===== src/Clock.antt =====
-- src/sentum/time/Clock.hpp. A time point is a number of ticks of `std::chrono::system_clock` since the
-- epoch, a nanosecond each; times before the epoch and differences that overflow are not modelled. A test
-- `a - b > c` on times stands here as `b + c < a`, which is the same on integers.
use sentum.Prelude.{
  ℕ, ◌+◌, ◌*◌, ◌≤◌, Bool, if◌then◌else◌, ltb, leb, arith, List, [], ◌∷◌, Option, none, some,
}

abbrev pub from_ms : ℕ → ℕ
from_ms n = n * 1_000_000

abbrev pub from_seconds : ℕ → ℕ
from_seconds n = n * 1_000_000_000

-- `now - since > limit`, `now - since < limit` and `now - since >= limit`.
abbrev pub older_than : ℕ → ℕ → ℕ → Bool
older_than now since limit = ltb (since + limit) now

abbrev pub younger_than : ℕ → ℕ → ℕ → Bool
younger_than now since limit = ltb now (since + limit)

abbrev pub aged : ℕ → ℕ → ℕ → Bool
aged now since limit = leb (since + limit) now

-- `ReplayClock`: its time; `none` is the exception, after which the clock is as before.
abbrev pub ReplayClock : Type 0
ReplayClock = ℕ

unfoldable pub advance_to : ReplayClock → ℕ → Option ReplayClock
advance_to current value = if ltb value current then none else some value

-- The clock after a series of calls, those that throw left out.
unfoldable pub advance_all : ReplayClock → List ℕ → ReplayClock
advance_all c [] = c
advance_all c (t ∷ ts) = elim (advance_to c t) [
  | none ↦ advance_all c ts
  | some c' ↦ advance_all c' ts
]

-- A replay clock never goes back, and ends at or after every time that it accepted.
pub advance_all_monotone : (c : ReplayClock) (ts : List ℕ) → c ≤ advance_all c ts
unfolding advance_all advance_to
advance_all_monotone c [] = omega arith
advance_all_monotone c (t ∷ ts) =
    ground (arith, advance_all_monotone c ts, advance_all_monotone t ts)
