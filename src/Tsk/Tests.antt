-- ===== src/Tsk/Tests.antt =====
-- A task that adds up the addresses of its messages.
use osa_base.Base.{ℕ, ◌+◌, ◌≡◌, refl, true, none, [], ◌∷◌, arith, sok}
use osa_base.Memory.{Ptr}
use osa_base.Monitor.{returned, waiting}
use osa_base.Ring.{Ring}
use osa_base.Ring.Invariant.{IsValid}
use osa_base.Ring.Fifo.{contents}
use osa_base.Msgq.{World}
use osa_base.Msgq.Steps.{drop_at}
use osa_base.Tsk.{TskHndl, TskFncMain, thr_main, tsk_set_state}
use osa_base.Tsk.Machine.{Runs, thr_main-machine}

abbrev adder : TskFncMain
adder t msg s wakes w = returned sok (record t { cur_state = s + msg }) w wakes

abbrev sum : ℕ → Ptr → ℕ
sum s msg = s + msg

abbrev leaves : ℕ → Ptr → World → World
leaves s msg w = w

abbrev inbox : Ring Ptr
inbox = record { cur_rd = 3; cur_wr = 1; len = 4; count = 2; queue = 0 ∷ 0 ∷ 0 ∷ 7 ∷ [] }

abbrev two_in : World
two_in = record { queues = λ p. inbox; msgs = λ p. none; prms = λ p. true }

abbrev task : TskHndl
task = record { mbx_hndl = record { rcv_mbx = 1; ack_mbx = 2 }; cur_state = 10; fnc_main = true }

inbox-IsValid : IsValid inbox
inbox-IsValid = record {
  cells = refl;
  some_cells = omega arith;
  small = omega arith;
  rd_in = omega arith;
  wr_at = refl;
  count_in = omega arith;
}

adder-Runs : Runs adder sum leaves 1
adder-Runs = record { runs = λ t msg s w. refl; apart = λ s msg w. refl }

sets_state : (tsk_set_state 17 task).1.cur_state ≡ 17
unfolding tsk_set_state
sets_state = refl

thr_main-machine_example : thr_main 3 adder task [] two_in ≡ waiting (drop_at 1 (drop_at 1 two_in))
thr_main-machine_example =
    thr_main-machine adder sum leaves (7 ∷ 0 ∷ []) task two_in adder-Runs refl inbox-IsValid
      (unfold contents in refl)
