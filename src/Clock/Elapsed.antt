-- ===== src/Clock/Elapsed.antt =====
-- The values of OSA_getCurTimeInMsec in osa/src/osa.c against the time that has passed.
use osa_base.Base.{ℕ, ◌+◌, ◌-◌, ◌*◌, ◌/◌, ◌^◌, ◌≤◌, ◌<◌, ◌≡◌, refl, Option, some, arith}
use osa_base.Clock.{Timeval, origin₀, read_clock, get_cur_time_in_msec}

-- the milliseconds since 1970
abbrev pub total : Timeval → ℕ
total tv = tv.tv_sec * 1000 + tv.tv_usec / 1000

-- After a first call of OSA_getCurTimeInMsec at `t₀`, whose two readings of the clock succeed, calls at
-- `a` and then `b`, less than `2 ^ 32` ms behind `t₀`, give the milliseconds that have passed since `t₀`,
-- though the time since 1970 is reduced to 32 bits; the origin stays.
pub cur_time-exact :
    (t₀ t₁ a b : Timeval) (x y : Option Timeval)
    → total t₀ ≤ total a
    → total a ≤ total b
    → total b - total t₀ < 2 ^ 32
    → (let o = (get_cur_time_in_msec (some t₀) (some t₁) origin₀).1 in
        let (value_a, o') = get_cur_time_in_msec x (some a) o in
        let (value_b, o'') = get_cur_time_in_msec y (some b) o' in
        (value_a ≡ total a - total t₀) × (value_b ≡ total b - total t₀) × (o'' ≡ o))
unfolding get_cur_time_in_msec read_clock
cur_time-exact t₀ t₁ a b x y h g small = (omega arith, omega arith, refl)
