-- ===== src/Event.antt =====
-- osa/src/osa_event.c and osa/inc/osa_event.h: flags that threads set, and that a thread waits for.
-- `wakes` is what comes back from each pthread_cond_wait or pthread_cond_timedwait, and what the
-- other threads did meanwhile.
pub mod Wait
pub mod Timed
mod Tests
use Prim.Native.Nat.{bit_and, bit_or}
use osa_base.Base.{
  ℕ, ◌+◌, ◌*◌, ◌/◌, ◌%◌, Bool, true, false, not, ◌&&◌, ◌||◌, Option, none, some, List, [], ◌∷◌,
  ◌==◌, if◌then◌else◌, u32, ℤ, sok, efail,
}

-- OSA_THREAD_EVENT
pub record ThreadEvent : Type 0 where
  pub b_signaled : Bool
  pub e_flags : ℕ

-- OSA_EVENT_OPERATION
pub data Operation : Type 0 where
  event_and : Operation
  event_and_consume : Operation
  event_or : Operation
  event_or_consume : Operation

abbrev pub no_suspend : ℕ
no_suspend = 0

abbrev pub suspend : ℕ
suspend = 0xffff_ffff

pub record Wake : Type 0 where
  pub result : ℕ
  pub meanwhile : ThreadEvent → ThreadEvent

-- How OSA_EventRetrieve ends: with a status, what it stored in `*pRetrievedEvents`, and the event;
-- or it still waits.
pub data Retrieval : Type 0 where
  returned : ℤ → Option ℕ → ThreadEvent → Retrieval
  waiting : ThreadEvent → Retrieval

-- OSA_EventCreate: `no_memory` says that OSA_memAlloc returned NULL; the value is `*pEvents`.
unfoldable pub create : Bool → (mutex_init cond_init : ℕ) → ℤ × Option ThreadEvent
create no_memory mutex_init cond_init =
    if no_memory
    then (efail, none)
    else if not (mutex_init == 0)
    then (efail, none)
    else if not (cond_init == 0)
    then (efail, none)
    else (sok, some (record { b_signaled = false; e_flags = 0 }))

-- OSA_EventDelete; the event is freed whatever the four pthread calls return.
unfoldable pub delete : Bool → (lock cond_destroy unlock mutex_destroy : ℕ) → ℤ
delete event_null lock cond_destroy unlock mutex_destroy =
    if event_null
    then efail
    else if not (lock == 0)
    then efail
    else if not (cond_destroy == 0)
    then efail
    else if not (unlock == 0)
    then efail
    else if not (mutex_destroy == 0)
    then efail
    else sok

-- the statements of OSA_EventSet behind its switch
unfoldable pub announce : (signal unlock : ℕ) → ThreadEvent → ℕ → ℤ × ThreadEvent
announce signal unlock e flags = (
  (if not (signal == 0) then efail else if not (unlock == 0) then efail else sok),
  record e { b_signaled = true; e_flags = flags },
)

-- the switch of OSA_EventSet
unfoldable pub combine : Operation → (signal unlock : ℕ) → ℕ → ThreadEvent → ℤ × ThreadEvent
unfolding announce
combine event_and signal unlock flags e = announce signal unlock e (bit_and e.e_flags flags)
combine event_or signal unlock flags e = announce signal unlock e (bit_or e.e_flags flags)
combine event_and_consume signal unlock flags e = (efail, e)
combine event_or_consume signal unlock flags e = (efail, e)

-- OSA_EventSet
unfoldable pub set : Bool → (lock signal unlock : ℕ) → ℕ → Operation → ThreadEvent → ℤ × ThreadEvent
unfolding combine
set event_null lock signal unlock flags operation e =
    if event_null
    then (efail, e)
    else if not (lock == 0)
    then (efail, e)
    else combine operation signal unlock flags e

-- `and_operation`
abbrev pub and_operation : Operation → Bool
and_operation event_and = true
and_operation event_and_consume = true
and_operation event_or = false
and_operation event_or_consume = false

-- `(eOperation == OSA_EVENT_AND_CONSUME) || (eOperation == OSA_EVENT_OR_CONSUME)`
abbrev pub consumes : Operation → Bool
consumes event_and = false
consumes event_and_consume = true
consumes event_or = false
consumes event_or_consume = true

-- `isolatedFlags`, an `unsigned` of 32 bits
unfoldable pub isolated : Operation → ℕ → ThreadEvent → ℕ
isolated operation requested e =
    let flags = u32 (bit_and e.e_flags requested) in
    if and_operation operation then (if flags == requested then 1 else 0) else flags

-- the statements of OSA_EventRetrieve behind the waiting: reset the flags, and unlock
unfoldable pub finish : Operation → ℕ → ℤ → Option ℕ → ℕ → ThreadEvent → Retrieval
finish operation unlock status out flags e =
    returned (if not (unlock == 0) then efail else status) out
      (if not (flags == 0) && consumes operation then record e { e_flags = 0 } else e)

module _ (operation : Operation) (requested unlock : ℕ) where
  -- the loop of OSA_SUSPEND, entered where `isolatedFlags` is 0
  unfoldable pub suspend_loop : List Wake → ThreadEvent → Retrieval
  unfolding finish isolated
  suspend_loop [] e = waiting e
  suspend_loop (wake ∷ wakes) e =
      let e' = wake.meanwhile e in
      let flags = isolated operation requested e' in
      let rest = suspend_loop wakes e' in
      if flags == 0 then rest else finish operation unlock sok (some e'.e_flags) flags e'

  -- the loop with a time limit; `timed_out` is ETIMEDOUT.
  unfoldable pub timed_loop : ℕ → List Wake → ThreadEvent → Retrieval
  unfolding finish isolated
  timed_loop timed_out [] e = waiting e
  timed_loop timed_out (wake ∷ wakes) e =
      let e' = wake.meanwhile e in
      let flags = isolated operation requested e' in
      let rest = timed_loop timed_out wakes e' in
      if not (wake.result == 0)
      then finish operation unlock (if wake.result == timed_out then sok else efail) (some 0) 0 e'
      else if flags == 0
      then rest
      else finish operation unlock efail none flags e'

  -- OSA_EventRetrieve
  unfoldable pub retrieve : Bool → ℕ → ℕ → ℕ → List Wake → ThreadEvent → Retrieval
  unfolding suspend_loop timed_loop
  retrieve event_null lock timed_out timeout_msec wakes e =
      let flags = isolated operation requested e in
      if event_null
      then returned efail none e
      else if not (lock == 0)
      then returned efail none e
      else if not (flags == 0)
      then finish operation unlock sok (some e.e_flags) flags e
      else if timeout_msec == no_suspend
      then finish operation unlock sok (some 0) flags e
      else if timeout_msec == suspend
      then suspend_loop wakes e
      else timed_loop timed_out wakes e

-- the time that the limited wait gives to pthread_cond_timedwait: `timeout.tv_sec` and
-- `timeout.tv_nsec` from what gettimeofday says. `timeout_us` is an `unsigned` of 32 bits.
unfoldable pub deadline : (tv_sec tv_usec timeout_msec : ℕ) → ℕ × ℕ
deadline tv_sec tv_usec timeout_msec =
    let timeout_us = u32 (tv_usec + 1000 * timeout_msec) in
    (tv_sec + timeout_us / 1000000, (timeout_us % 1000000) * 1000)
