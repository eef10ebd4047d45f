-- ===== src/Que.antt =====
-- osa/src/osa_que.c and osa/inc/osa_que.h: a blocking queue of `Int32`.
-- `put` and `get` take the place of the queue in the state that the threads share, and what the
-- other threads do at each wait (Monitor). The mutex and the condition variables carry no data.
pub mod Waiting
pub mod Traffic
pub mod Observers
mod Tests
use Prim.Native.Nat.{bit_or}
use osa_base.Base.{
  ℕ, Bool, true, false, Option, none, some, List, [], ltb, ◌==◌, if◌then◌else◌, ℤ, pos, sok, efail,
  get_elem?,
}
use osa_base.Monitor.{Outcome, await}
use osa_base.Place.{Place, attempt_at}
use osa_base.Ring.{Ring, attempt_put, attempt_get}

abbrev pub QueHndl : Type 0
QueHndl = Ring ℤ

-- what the pthread initialisers return: 0, or an error number
pub record InitStatus : Type 0 where
  pub mutexattr : ℕ
  pub condattr : ℕ
  pub mutex : ℕ
  pub cond_rd : ℕ
  pub cond_wr : ℕ

-- `status |= ...`, five times from `OSA_SOK`
unfoldable pub init_status : InitStatus → ℤ
init_status s = pos (
    bit_or (bit_or (bit_or (bit_or (bit_or 0 s.mutexattr) s.condattr) s.mutex) s.cond_rd) s.cond_wr)

-- OSA_queCreate; `storage` is what OSA_memAlloc returns for `maxLen` cells, `none` for NULL.
unfoldable pub create : Option (List ℤ) → InitStatus → ℕ → ℤ × QueHndl
unfolding init_status
create none inits max_len =
    (efail, record { cur_rd = 0; cur_wr = 0; len = max_len; count = 0; queue = [] })
create (some storage) inits max_len = (
  init_status inits,
  record { cur_rd = 0; cur_wr = 0; len = max_len; count = 0; queue = storage },
)

-- OSA_queDelete: the cells go back to the allocator, the other members stay.
unfoldable pub delete : QueHndl → ℤ × QueHndl
delete q = (sok, record q { queue = [] })

module _ {ℓ} {W : Type ℓ} (hndl : Place W QueHndl) where
  -- OSA_quePut
  unfoldable pub put : ℤ → ℕ → List (W → W) → W → Outcome (Unit {0}) W
  put value timeout wakes w = await (attempt_at hndl (attempt_put value)) tt timeout wakes w

  -- OSA_queGet; the value is what is stored through `value`, and `wanted` that this is not NULL.
  unfoldable pub get : Bool → ℕ → List (W → W) → W → Outcome (Option ℤ) W
  get wanted timeout wakes w = await (attempt_at hndl (attempt_get wanted)) none timeout wakes w

-- OSA_queGetQueuedCount
unfoldable pub get_queued_count : QueHndl → ℕ
get_queued_count q = q.count

-- OSA_quePeek: `OSA_EFAIL` on an empty queue, and also where there is no place for the value.
unfoldable pub peek : Bool → QueHndl → ℤ × Option ℤ
peek wanted q =
    if ltb 0 q.count
    then (if wanted then (sok, get_elem? q.queue q.cur_rd) else (efail, none))
    else (efail, none)

-- OSA_queIsEmpty
unfoldable pub is_empty : QueHndl → Bool
is_empty q = if q.count == 0 then true else false
