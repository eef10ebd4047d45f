-- ===== src/Ring.antt =====
-- The ring of cells behind OSA_QueHndl (osa/inc/osa_que.h, osa/src/osa_que.c) and OSA_MsgqHndl
-- (osa/inc/osa_msgq.h, osa/src/osa_msgq.c). The two structs have the same members, and the two
-- pairs of functions the same guarded branches; only the cells differ (`Int32`, `OSA_MsgHndl *`).
-- The mutex and the condition variables are no state here: each branch is one critical section.
pub mod Invariant
pub mod Fifo
use osa_base.Base.{
  ℕ, ◌+◌, ◌-◌, ◌%◌, Bool, Option, none, some, List, ltb, if◌then◌else◌, get_elem?, set, u32,
}

-- `queue` has no cells where the pointer is NULL.
pub record Ring {ℓ} (A : Type ℓ) : Type ℓ where
  pub cur_rd : ℕ
  pub cur_wr : ℕ
  pub len : ℕ
  pub count : ℕ
  pub queue : List A

module _ {ℓ} {A : Type ℓ} where
  -- the statements under the guard of the two functions that add
  unfoldable pub put_cell : A → Ring A → Ring A
  put_cell value r = record r {
    queue = set r.queue r.cur_wr value;
    cur_wr = u32 (r.cur_wr + 1) % r.len;
    count = u32 (r.count + 1);
  }

  -- the statements under the guard of the two functions that take
  unfoldable pub drop_cell : Ring A → Ring A
  drop_cell r = record r { cur_rd = u32 (r.cur_rd + 1) % r.len; count = r.count - 1 }

  -- `if (hndl->count < hndl->len) { ... }`
  unfoldable pub attempt_put : A → Ring A → Option (Unit {0} × Ring A)
  attempt_put value r = if ltb r.count r.len then some (tt, put_cell value r) else none

  -- `if (hndl->count > 0) { ... }`; `wanted` says that the pointer for the value is not NULL.
  unfoldable pub attempt_get : Bool → Ring A → Option (Option A × Ring A)
  attempt_get wanted r =
      if ltb 0 r.count
      then some ((if wanted then get_elem? r.queue r.cur_rd else none), drop_cell r)
      else none
