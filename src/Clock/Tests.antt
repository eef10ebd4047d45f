-- ===== src/Clock/Tests.antt =====
-- The clock and delays at concrete times.
use osa_base.Base.{◌≡◌, refl, none, some, List, [], ◌∷◌, arith}
use osa_base.Clock.{Timeval, origin₀, Timespec, get_cur_time_in_msec}
use osa_base.Clock.Elapsed.{cur_time-exact}
use osa_base.Clock.Delay.{given_up}

abbrev t₀ : Timeval
t₀ = record { tv_sec = 4294967; tv_usec = 290000 }

abbrev t₁ : Timeval
t₁ = record { tv_sec = 4294967; tv_usec = 299000 }

abbrev t₂ : Timeval
t₂ = record { tv_sec = 4294969; tv_usec = 0 }

-- The 32 bits of the clock wrap between the calls.
cur_time-exact_example :
    let o = (get_cur_time_in_msec (some t₀) (some t₀) origin₀).1 in
    let (value_a, o') = get_cur_time_in_msec none (some t₁) o in
    let (value_b, o'') = get_cur_time_in_msec none (some t₂) o' in
    (value_a ≡ 9) × (value_b ≡ 1710) × (o'' ≡ o)
cur_time-exact_example =
    cur_time-exact t₀ t₀ t₁ t₂ none none (omega arith) (omega arith) (omega arith)

abbrev signals : List Timespec
signals = record { sec = 1; nsec = 5 } ∷ record { sec = 0; nsec = 300000000 } ∷ []

given_up_run : given_up signals ≡ 300000000
unfolding given_up
given_up_run = refl
