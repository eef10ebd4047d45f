-- ===== src/Clock/Delay.antt =====
-- How long OSA_waitMsecs of osa/src/osa.c sleeps.
use osa_base.Base.{
  ℕ, ◌+◌, ◌-◌, ◌*◌, ◌≤◌, ◌≡◌, ◌∙◌, inl, inr, Bool-cases, ◌&&◌, List, [], ◌∷◌, if◌then◌else◌, ltb,
  arith,
}
use osa_base.Clock.{Timespec, delay_of, wait_loop, wait_msecs}

abbrev pub nanos : Timespec → ℕ
nanos t = t.sec * 1000000000 + t.nsec

-- What nanosleep leaves is at most what it was asked for.
unfoldable pub Shrinks : Timespec → List Timespec → Type 0
Shrinks delay [] = Unit
Shrinks delay (remain ∷ more) = (nanos remain ≤ nanos delay) × Shrinks remain more

-- The time slept in the delays that were asked for, each up to the signal that ended it.
unfoldable pub slept : List Timespec → List Timespec → ℕ
slept [] signals = 0
slept (delay ∷ asked) [] = nanos delay + slept asked []
slept (delay ∷ asked) (remain ∷ more) = (nanos delay - nanos remain) + slept asked more

-- The rest at the first signal that comes less than a second before the end, or whole seconds
-- before it.
unfoldable pub given_up : List Timespec → ℕ
given_up [] = 0
given_up (remain ∷ more) =
    let rest = given_up more in if ltb 0 remain.sec && ltb 0 remain.nsec then rest else nanos remain

loop_slept :
    (delay : Timespec) (signals : List Timespec)
    → Shrinks delay signals
    → slept (wait_loop delay signals) signals + given_up signals ≡ nanos delay
unfolding Shrinks slept given_up wait_loop
loop_slept delay [] h = omega arith
loop_slept delay (remain ∷ more) (le, h) =
    elim (Bool-cases (ltb 0 remain.sec && ltb 0 remain.nsec)) [
      | inl again ↦ rw again (omega (arith, loop_slept remain more h))
      | inr over ↦ rw over (omega arith)
    ]

-- OSA_waitMsecs, where no signal leaves more of a delay than was asked for: the time that it sleeps,
-- and the rest that it gives up, are the time that it was asked for. It gives up what is left at the
-- first signal that comes less than a second before the end or whole seconds before it.
pub wait_msecs-slept :
    (msecs : ℕ) (signals : List Timespec)
    → Shrinks (delay_of msecs) signals
    → slept (wait_msecs msecs signals) signals + given_up signals ≡ msecs * 1000000
unfolding wait_msecs
wait_msecs-slept msecs signals h = loop_slept (delay_of msecs) signals h ∙ omega arith
