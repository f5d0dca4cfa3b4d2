-- ===== src/Clock.antt =====
-- The clock and the counter of soaagent/util.c: `get_time_difference` and `next_identifier`.
mod Examples
use ddmframework.Common.{ℕ, ◌+◌, ◌-◌, ◌*◌, ◌/◌, ◌%◌, ◌^◌, ◌≤◌, ◌<◌, ◌≡◌, arith, leb, if◌then◌else◌}

-- struct timeval, of times after 1970.
pub record Timeval : Type 0 where
  pub tv_sec : ℕ
  pub tv_usec : ℕ

unfoldable pub millis : Timeval → ℕ
millis t = t.tv_sec * 1000 + t.tv_usec / 1000

-- The difference is taken in `long` and cut to `unsigned int`.
unfoldable pub get_time_difference : Timeval → Timeval → ℕ
unfolding millis
get_time_difference begin_time end_time =
    (millis end_time + 2 ^ 32 - millis begin_time % 2 ^ 32) % 2 ^ 32

-- `return ++counter`: the new value of the static counter, which is also the result.
unfoldable pub next_identifier : ℕ → ℕ
next_identifier counter = (counter + 1) % 2 ^ 32

-- Two times less than 2^32 ms apart: in order, the difference is the true one; a clock that was set
-- back makes it 2^32 less the step.
pub get_time_difference_lem :
    (b e : Timeval)
    → millis b < millis e + 2 ^ 32
    → millis e < millis b + 2 ^ 32
    → get_time_difference b e + millis b
      ≡ (if leb (millis b) (millis e) then millis e else millis e + 2 ^ 32)
unfolding get_time_difference
get_time_difference_lem b e h k = ground arith
