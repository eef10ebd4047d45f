-- ===== src/Buf/Tests.antt =====
-- The buffer pool's theorems at a pool of two buffers.
use osa_base.Base.{ℕ, ◌+◌, ◌≡◌, refl, false, some, List, [], ◌∷◌, arith, ℤ, pos, negsuc, sok}
use osa_base.Base.Count.{count, one_if, erase}
use osa_base.Monitor.{returned, timeout_none, await}
use osa_base.Ring.{attempt_get, drop_cell}
use osa_base.Ring.Fifo.{contents}
use osa_base.Que
use osa_base.Que.{QueHndl, InitStatus}
use osa_base.Buf.{BufHndl, get_empty, put_full, put_empty, switch_full}
use osa_base.Buf.Pool.{in_range, Conserved, take_empty, Reach, here, next}
use osa_base.Buf.Pool.Safety.{Reach-Conserved, give_never_waits}
use osa_base.Buf.Switch.{switch_full-exchange}

abbrev zeros : InitStatus
zeros = record { mutexattr = 0; condattr = 0; mutex = 0; cond_rd = 0; cond_wr = 0 }

abbrev cells : List ℤ
cells = pos 9 ∷ pos 9 ∷ []

-- both buffers in the queue of empty ones
abbrev fresh : BufHndl ℕ
fresh = record {
  buf_info = 0 ∷ 0 ∷ [];
  empty_que = record { cur_rd = 0; cur_wr = 0; len = 2; count = 2; queue = pos 0 ∷ pos 1 ∷ [] };
  full_que = record { cur_rd = 0; cur_wr = 0; len = 2; count = 0; queue = cells };
  num_buf = pos 2;
}

-- buffer 0 with a thread
abbrev taken : BufHndl ℕ
taken = record fresh {
  empty_que = record { cur_rd = 1; cur_wr = 0; len = 2; count = 1; queue = pos 0 ∷ pos 1 ∷ [] };
}

-- no empty buffer left
abbrev used_up : BufHndl ℕ
used_up = record fresh {
  empty_que = record { cur_rd = 0; cur_wr = 0; len = 2; count = 0; queue = pos 0 ∷ pos 1 ∷ [] };
}

fresh-Conserved : Conserved 2 (record { hndl = fresh; held = [] })
fresh-Conserved = record {
  valid_e = omega arith;
  valid_f = omega arith;
  len_e = refl;
  len_f = refl;
  num = refl;
  total = refl;
  each = each;
}
  where
    each : (i : ℤ) → count i (pos 0 ∷ pos 1 ∷ []) + count i [] + count i [] ≡ one_if (in_range 2 i)
    each (pos k) = ground arith
    each (negsuc k) = refl

take_one : get_empty false false timeout_none [] fresh ≡ returned sok (some (pos 0)) taken []
unfolding get_empty Que.get await attempt_get drop_cell
take_one = refl

one_step : Reach (record { hndl = fresh; held = [] }) (record { hndl = taken; held = pos 0 ∷ [] })
one_step = next here (take_empty timeout_none take_one)

taken-Conserved : Conserved 2 (record { hndl = taken; held = pos 0 ∷ [] })
taken-Conserved = Reach-Conserved fresh-Conserved one_step

Reach-Conserved_example : Conserved 2 (record { hndl = taken; held = pos 0 ∷ [] })
Reach-Conserved_example = Reach-Conserved fresh-Conserved one_step

give_never_waits_example :
    ((h : BufHndl ℕ) × (put_full false (pos 0) [] taken ≡ returned sok tt h []))
    × ((h : BufHndl ℕ) × (put_empty false (pos 0) [] taken ≡ returned sok tt h []))
give_never_waits_example = give_never_waits (pos 0) [] fresh-Conserved one_step (omega arith)

switch_full-exchange_example :
    (new : ℤ) × (h' : BufHndl ℕ) × (switch_full false (pos 0) [] taken ≡ returned sok new h' [])
    × (pos 1 ∷ [] ≡ new ∷ contents h'.empty_que)
    × (contents h'.full_que ≡ pos 0 ∷ [])
    × Conserved 2 (record { hndl = h'; held = erase (pos 0) (new ∷ pos 0 ∷ []) })
switch_full-exchange_example =
    switch_full-exchange (pos 0) [] taken-Conserved (omega arith) (omega arith)
