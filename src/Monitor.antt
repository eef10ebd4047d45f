-- ===== src/Monitor.antt =====
-- The waiting loop that OSA_quePut, OSA_queGet (osa/src/osa_que.c), OSA_msgqSend, OSA_msgqRecvMsg
-- (osa/src/osa_msgq.c) and OSA_semWait (osa/src/osa_sem.c) share: under a lock, try; if the
-- attempt fails, give up at once or wait on a condition variable and try again.
-- A wait releases the lock, so each return from `pthread_cond_wait` comes with what the other
-- threads did meanwhile: a function on the shared state `W`. A call is given the list of these.
pub mod Laws
pub mod Simulation
use osa_base.Base.{ℕ, Bool, Option, none, some, List, [], ◌∷◌, ◌==◌, ℤ, sok, efail}

-- Why a thread stops for good: undefined behaviour, or a failed OSA_assert (osa/inc/osa_debug.h),
-- which reads the terminal until somebody types `q`. The model of a loop may also run out of fuel.
pub data Stop : Type 0 where
  fault : Stop
  assertion : Stop
  out_of_fuel : Stop

-- How a call ends: it returns a status and a value with the wake-ups that are left, it is still
-- waiting when there are no more, or it has stopped.
pub data Outcome {ℓ κ} (A : Type ℓ) (W : Type κ) : Type (ℓ ⊔ κ) where
  returned : ℤ → A → W → List (W → W) → Outcome A W
  waiting : W → Outcome A W
  stopped : Stop → W → Outcome A W

-- `OSA_TIMEOUT_NONE` is the only value of `timeout` that the loops test.
abbrev pub timeout_none : ℕ
timeout_none = 0

abbrev pub timeout_forever : ℕ
timeout_forever = 0xffff_ffff

-- `attempt` is one pass through the guarded branch, `none` where its guard fails; `failed` is
-- the result of a call that gives up.
module _ {ℓ κ} {A : Type ℓ} {W : Type κ} (attempt : W → Option (A × W)) (failed : A) where
  unfoldable pub await : ℕ → List (W → W) → W → Outcome A W
  await timeout [] w = elim (attempt w) [
    | some (a, w') ↦ returned sok a w' []
    | none ↦ elim (timeout == timeout_none) [
      | Bool.true ↦ returned efail failed w []
      | Bool.false ↦ waiting w
    ]
  ]
  await timeout (wake ∷ wakes) w = elim (attempt w) [
    | some (a, w') ↦ returned sok a w' (wake ∷ wakes)
    | none ↦ elim (timeout == timeout_none) [
      | Bool.true ↦ returned efail failed w (wake ∷ wakes)
      | Bool.false ↦ await timeout wakes (wake w)
    ]
  ]

-- The next statement after a call: it starts where the call returned, and not at all if the call
-- never does.
module _ {ℓ κ μ} {A : Type ℓ} {B : Type μ} {W : Type κ} where
  abbrev pub after : Outcome A W → (ℤ → A → W → List (W → W) → Outcome B W) → Outcome B W
  after (returned s a w wakes) next = next s a w wakes
  after (waiting w) next = waiting w
  after (stopped why w) next = stopped why w
