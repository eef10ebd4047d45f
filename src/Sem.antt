-- ===== src/Sem.antt =====
-- osa/src/osa_sem.c and osa/inc/osa_sem.h: a counting semaphore with an upper bound.
pub mod Bound
mod Tests
use Prim.Native.Nat.{bit_or}
use osa_base.Base.{
  ℕ, ◌+◌, ◌-◌, Bool, true, false, Option, none, some, List, ltb, ◌==◌, if◌then◌else◌, ℤ, pos, sok,
  u32,
}
use osa_base.Monitor.{Outcome, await}

pub record SemHndl : Type 0 where
  pub count : ℕ
  pub max_count : ℕ

-- what the pthread initialisers of OSA_semCreate return
pub record SemInit : Type 0 where
  pub mutexattr : ℕ
  pub condattr : ℕ
  pub mutex : ℕ
  pub cond : ℕ

-- `if(hndl->maxCount==0) hndl->maxCount=1;` and `if(hndl->count>hndl->maxCount) ...`
unfoldable pub fit_max : ℕ → ℕ
fit_max max_count = if max_count == 0 then 1 else max_count

unfoldable pub fit_count : ℕ → ℕ → ℕ
fit_count max_count count = if ltb max_count count then max_count else count

-- OSA_semCreate
unfoldable pub create : SemInit → (max_count init_val : ℕ) → ℤ × SemHndl
unfolding fit_max fit_count
create i max_count init_val = (
  pos (bit_or (bit_or (bit_or (bit_or 0 i.mutexattr) i.condattr) i.mutex) i.cond),
  record { count = fit_count (fit_max max_count) init_val; max_count = fit_max max_count },
)

-- one pass through the loop of OSA_semWait with `count > 0`
unfoldable pub attempt_wait : SemHndl → Option (Unit {0} × SemHndl)
attempt_wait s = if ltb 0 s.count then some (tt, record s { count = s.count - 1 }) else none

-- OSA_semWait
unfoldable pub wait : ℕ → List (SemHndl → SemHndl) → SemHndl → Outcome (Unit {0}) SemHndl
unfolding attempt_wait
wait timeout wakes s = await attempt_wait tt timeout wakes s

-- OSA_semSignal; `signalled` is what pthread_cond_signal returns.
unfoldable pub signal : ℕ → SemHndl → ℤ × SemHndl
signal signalled s =
    if ltb s.count s.max_count
    then (pos (bit_or 0 signalled), record s { count = u32 (s.count + 1) })
    else (sok, s)

-- OSA_semDelete
unfoldable pub delete : SemHndl → ℤ × SemHndl
delete s = (sok, s)
