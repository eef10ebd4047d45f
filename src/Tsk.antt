-- ===== src/Tsk.antt =====
-- osa/src/osa_tsk.c and osa/inc/osa_tsk.h: a task is a thread that hands the messages of its mailbox
-- to a function, with the state that the task is in.
pub mod Machine
mod Tests
use osa_base.Base.{
  ℕ, zero, suc, Bool, true, false, not, Option, none, some, List, [], ◌∷◌, ◌==◌, ltb, if◌then◌else◌,
  length, ℤ, pos, negsuc, sok, eq_ℤ,
}
use osa_base.Memory.{Ptr}
use osa_base.Monitor.{Outcome, returned, waiting, stopped, fault, assertion, out_of_fuel, after}
use osa_base.Que.{InitStatus}
use osa_base.Msgq.{World, u16}
use osa_base.Mbx
use osa_base.Mbx.{MbxHndl, assert_success}
use osa_base.Mbx.Flush
use osa_base.Mbx.Broadcast
use osa_base.Mbx.Broadcast.{broadcast_max}

-- OSA_TskHndl without the handle of its thread and `appData`; `fnc_main` says that the function is
-- not NULL.
pub record TskHndl : Type 0 where
  pub mbx_hndl : MbxHndl
  pub cur_state : ℕ
  pub fnc_main : Bool

-- OSA_TskFncMain: it may change the handle and what the threads share; the status is ignored.
abbrev pub TskFncMain : Type 0
TskFncMain = TskHndl → Ptr → ℕ → List (World → World) → World → Outcome TskHndl World

-- OSA_tskWaitMsg and OSA_tskCheckMsg
unfoldable pub tsk_wait_msg : TskHndl → List (World → World) → World → Outcome (Option Ptr) World
tsk_wait_msg t wakes w = Mbx.wait_msg t.mbx_hndl wakes w

unfoldable pub tsk_check_msg : TskHndl → List (World → World) → World → Outcome (Option Ptr) World
tsk_check_msg t wakes w = Mbx.check_msg t.mbx_hndl wakes w

-- the loop of OSA_tskThrMain, as many rounds as there is fuel; it has no end of its own.
unfoldable pub thr_main :
    ℕ → TskFncMain → TskHndl → List (World → World) → World → Outcome TskHndl World
unfolding tsk_wait_msg
thr_main zero fnc t wakes w = stopped out_of_fuel w
thr_main (suc k) fnc t wakes w =
    let rest = thr_main k fnc in
    after (tsk_wait_msg t wakes w) λ s out w' wakes'. assert_success s w' (elim out [
      | none ↦ stopped fault w'
      | some msg ↦
          if t.fnc_main
          then after (fnc t msg t.cur_state wakes' w') (λ _ t' w'' wakes''. rest t' wakes'' w'')
          else stopped assertion w'
    ])

-- OSA_tskCreate, where the creation of the queues is given what OSA_mbxCreate is, and OSA_thrCreate
-- returns `thread`
unfoldable pub tsk_create :
    List Ptr
    → InitStatus
    → List Ptr
    → InitStatus
    → (thread : ℤ) → (fnc_main : Bool) → (init_state : ℕ) → TskHndl
    → List (World → World)
    → World
    → Outcome TskHndl World
tsk_create rcv_cells rcv_inits ack_cells ack_inits thread fnc_main init_state t wakes w =
    let t' : TskHndl = record t { cur_state = init_state; fnc_main = fnc_main } in
    if not fnc_main
    then stopped assertion w
    else (let (_, w') = Mbx.Broadcast.create rcv_cells rcv_inits ack_cells ack_inits t.mbx_hndl w in
        assert_success thread w' (returned sok t' w' wakes))

-- OSA_tskDelete
unfoldable pub tsk_delete : TskHndl → World → ℤ × TskHndl × World
tsk_delete t w =
    let (_, w') = Mbx.Broadcast.delete t.mbx_hndl w in
    (sok, record t { cur_state = 0; fnc_main = false }, w')

abbrev pub mbx_of : Option TskHndl → Option MbxHndl
mbx_of none = none
mbx_of (some t) = some t.mbx_hndl

-- OSA_tskSendMsg; `cmd` and `flags` are `Uint16`.
unfoldable pub tsk_send_msg :
    Ptr
    → TskHndl
    → Option TskHndl
    → (cmd prm flags : ℕ) → List (World → World)
    → World
    → Outcome (Unit {0}) World
tsk_send_msg fresh to from cmd prm flags wakes w =
    Mbx.send_msg fresh to.mbx_hndl (mbx_of from) (u16 cmd) prm (u16 flags) wakes w

abbrev pub mbxs_of : List TskHndl → List MbxHndl
mbxs_of [] = []
mbxs_of (t ∷ ts) = t.mbx_hndl ∷ mbxs_of ts

-- OSA_tskBroadcastMsg, to the tasks of the list in front of its NULL
unfoldable pub tsk_broadcast_msg :
    ℕ
    → List Ptr
    → List TskHndl
    → Option TskHndl
    → (cmd prm flags : ℕ) → List (World → World)
    → World
    → Outcome (Unit {0}) World
tsk_broadcast_msg fuel fresh to from cmd prm flags wakes w =
    if not (ltb (length to) broadcast_max)
    then stopped assertion w
    else if length to == 0
    then returned sok tt w wakes
    else Mbx.Broadcast.broadcast_msg fuel fresh (mbxs_of to) (mbx_of from) (u16 cmd) prm (u16 flags)
        wakes w

-- OSA_tskAckOrFreeMsg, OSA_tskFlushMsg and OSA_tskWaitCmd
unfoldable pub tsk_ack_or_free_msg :
    Ptr → ℤ → List (World → World) → World → Outcome (Unit {0}) World
tsk_ack_or_free_msg msg ack_ret_val wakes w = Mbx.ack_or_free_msg msg ack_ret_val wakes w

unfoldable pub tsk_flush_msg : ℕ → TskHndl → List (World → World) → World → Outcome (Unit {0}) World
tsk_flush_msg fuel t wakes w = Mbx.Flush.flush fuel t.mbx_hndl wakes w

unfoldable pub tsk_wait_cmd :
    ℕ → Bool → TskHndl → ℕ → List (World → World) → World → Outcome (Option Ptr) World
tsk_wait_cmd fuel wanted t cmd wakes w = Mbx.Flush.wait_cmd fuel wanted t.mbx_hndl (u16 cmd) wakes w

-- OSA_tskSetState and OSA_tskGetState
unfoldable pub tsk_set_state : ℕ → TskHndl → ℤ × TskHndl
tsk_set_state cur_state t = (sok, record t { cur_state = cur_state })

unfoldable pub tsk_get_state : TskHndl → ℕ
tsk_get_state t = t.cur_state
