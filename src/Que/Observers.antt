-- ===== src/Que/Observers.antt =====
-- OSA_queCreate, and the functions that only look at a queue.
use native.Mathlib.Decide.{dec_lt}
use osa_base.Base.{
  ℕ, ◌<◌, ◌≡◌, ◌^◌, refl, true, Option, none, some, List, [], ◌∷◌, arith, length, lt→ltb, ap, sym,
  ◌↔◌, ℤ, sok, efail,
}
use osa_base.Ring.Invariant.{IsValid}
use osa_base.Ring.Fifo.{contents, length-contents, contents-drop_cell}
use osa_base.Que.{QueHndl, InitStatus, create, peek, get_queued_count, is_empty}

-- every initialiser succeeds
pub record AllZero (i : InitStatus) : Type 0 where
  pub mutexattr : i.mutexattr ≡ 0
  pub condattr : i.condattr ≡ 0
  pub mutex : i.mutex ≡ 0
  pub cond_rd : i.cond_rd ≡ 0
  pub cond_wr : i.cond_wr ≡ 0

-- Given as many cells as asked for, at least one and fewer than `2 ^ 32`, and initialisers that
-- succeed, OSA_queCreate returns `OSA_SOK` and a valid empty queue of that length.
pub create-IsValid :
    (storage : List ℤ) (inits : InitStatus) (max_len : ℕ)
    → length storage ≡ max_len
    → 0 < max_len
    → max_len < 2 ^ 32
    → AllZero inits
    → let (s, q) = create (some storage) inits max_len in
      (s ≡ sok) × IsValid q × (q.len ≡ max_len) × (contents q ≡ [])
unfolding create
create-IsValid storage inits max_len e pos small z =
    (rw (z.mutexattr, z.condattr, z.mutex, z.cond_rd, z.cond_wr), omega arith, refl, refl)

-- what a look at the front of a list finds
abbrev pub front : List ℤ → ℤ × Option ℤ
front [] = (efail, none)
front (x ∷ xs) = (sok, some x)

-- What the observers say is what the list of values in the queue is: its length, whether it is
-- empty, and its first value, which is left there; a peek fails on an empty queue only.
pub observers_lem :
    {q : QueHndl}
    → IsValid q
    → (get_queued_count q ≡ length (contents q))
      × ((is_empty q ≡ true) ↔ (contents q ≡ []))
      × (peek true q ≡ front (contents q))
unfolding get_queued_count is_empty peek
observers_lem {q} v = elim (dec_lt 0 q.count) [
  | yes p ↦
      let (y, e, c) = contents-drop_cell v p in
      (
        ground (arith, length-contents v),
        ground (arith, c, p),
        rw (lt→ltb _ _ p, e) (ap front (sym c)),
      )
  | no p ↦
      let l = length-contents v in (ground (arith, l), ground (arith, l, p), ground (arith, l, p))
]
