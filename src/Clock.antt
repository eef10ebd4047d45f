-- ===== src/Clock.antt =====
-- osa/src/osa.c: the time since the first call in milliseconds, delays, and the handler of a signal.
-- What gettimeofday, nanosleep and sigaction return are arguments. OSA_mapMem and what follows it
-- in the file are between `#if 0` and `#endif`.
pub mod Elapsed
pub mod Delay
mod Tests
use osa_base.Base.{
  ℕ, ◌+◌, ◌-◌, ◌*◌, ◌/◌, ◌%◌, ◌^◌, ◌≡◌, Bool, true, false, ◌&&◌, Option, none, some, List, [], ◌∷◌,
  if◌then◌else◌, ltb, ℤ, sok, u32,
}

-- `struct timeval`, of a clock that is not before 1970
pub record Timeval : Type 0 where
  pub tv_sec : ℕ
  pub tv_usec : ℕ

-- the static variables of OSA_getCurTimeInMsec
pub record Origin : Type 0 where
  pub is_init : Bool
  pub init_time : ℕ

-- the variables before the first call
abbrev pub origin₀ : Origin
origin₀ = record { is_init = false; init_time = 0 }

-- `(Uint32)(tv.tv_sec * 1000u + tv.tv_usec/1000u)`
abbrev pub in_msec : Timeval → ℕ
in_msec tv = u32 (tv.tv_sec * 1000 + tv.tv_usec / 1000)

-- the second gettimeofday and the result
unfoldable pub read_clock : Option Timeval → Origin → ℕ × Origin
read_clock none o = (0, o)
read_clock (some tv) o = (u32 (in_msec tv + (2 ^ 32 - o.init_time)), o)

-- `first` is what gettimeofday gives to the first call, if it is made, `second` what it gives to the
-- other; `none` is a value below zero.
unfoldable pub get_cur_time_in_msec : Option Timeval → Option Timeval → Origin → ℕ × Origin
get_cur_time_in_msec first second o = if o.is_init then read_clock second o else elim first [
  | none ↦ (0, record o { is_init = true })
  | some tv ↦ read_clock second (record { is_init = true; init_time = in_msec tv })
]

-- `struct timespec`
pub record Timespec : Type 0 where
  pub sec : ℕ
  pub nsec : ℕ

abbrev pub delay_of : ℕ → Timespec
delay_of msecs = record { sec = msecs / 1000; nsec = (msecs % 1000) * 1000000 }

-- The loop: each entry of the list is the rest of a delay that a signal has ended, and the delay
-- behind the last of them is not ended. The result are the delays that were asked for.
unfoldable pub wait_loop : Timespec → List Timespec → List Timespec
wait_loop delay [] = delay ∷ []
wait_loop delay (remain ∷ more) =
    let rest = wait_loop remain more in
    if ltb 0 remain.sec && ltb 0 remain.nsec then delay ∷ rest else delay ∷ []

unfoldable pub wait_msecs : ℕ → List Timespec → List Timespec
wait_msecs msecs signals = wait_loop (delay_of msecs) signals

-- The value of sigaction is not looked at.
unfoldable pub attach_signal_handler :
    {Handlers : Type 0} → (Handlers → ℤ × Handlers) → Handlers → ℤ × Handlers
attach_signal_handler sigaction handlers = (sok, (sigaction handlers).1)
