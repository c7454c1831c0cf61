-- ===== src/Examples/Searches.antt =====
-- The bisections on the even numbers.
use pimlex_fast.Base.{ℕ, ◌*◌, ◌≡◌, refl}
use pimlex_fast.Search.{upper_bound_loop, upper_bound, lower_bound_loop, lower_bound}

abbrev double : ℕ → ℕ
double i = 2 * i

upper_bound_run : upper_bound double 7 0 10 ≡ 4
unfolding upper_bound upper_bound_loop
upper_bound_run = refl

lower_bound_run : lower_bound double 6 10 ≡ 3
unfolding lower_bound lower_bound_loop
lower_bound_run = refl
