-- ===== src/Clock/Examples.antt =====
-- A test of the time differences at two times, one and a half seconds apart.
use ddmframework.Common.{◌≡◌, refl}
use ddmframework.Clock.{Timeval, get_time_difference}

abbrev early : Timeval
early = record { tv_sec = 100; tv_usec = 500000 }

abbrev late : Timeval
late = record { tv_sec = 102; tv_usec = 999 }

difference_of_both : get_time_difference early late ≡ 1500
unfolding get_time_difference
difference_of_both = refl
