-- ===== src/Tsk/Machine.antt =====
-- A task is the state machine that its function describes, run on the messages of its mailbox.
use osa_base.Base.{
  ℕ, suc, ◌<◌, ◌≡◌, refl, sym, ap, ◌∙◌, subst, true, false, none, List, [], ◌∷◌, ltb, length, arith,
  sok,
}
use osa_base.Memory.{Ptr}
use osa_base.Monitor.{returned, waiting, await, timeout_forever}
use osa_base.Place.{attempt_at}
use osa_base.Ring.{drop_cell, attempt_get}
use osa_base.Ring.Invariant.{IsValid, drop_cell-IsValid}
use osa_base.Ring.Fifo.{contents, length-contents, contents-drop_cell}
use osa_base.Msgq
use osa_base.Msgq.{World, at_set, queue_at, at_set_self}
use osa_base.Msgq.Steps.{drop_at, recv_now}
use osa_base.Mbx
use osa_base.Tsk.{TskHndl, TskFncMain, tsk_wait_msg, thr_main}

-- What a function of the user's does: `next` is the state that it sets by OSA_tskSetState, `act` what
-- it does to what the threads share, where it leaves the queue of its own mailbox alone.
pub record Runs (fnc : TskFncMain) (next : ℕ → Ptr → ℕ) (act : ℕ → Ptr → World → World) (rcv : Ptr)
    : Type 0 where
  pub runs :
      (t : TskHndl) (msg : Ptr) (s : ℕ) (w : World)
      → fnc t msg s [] w ≡ returned sok (record t { cur_state = next s msg }) (act s msg w) []
  pub apart : (s : ℕ) (msg : Ptr) (w : World) → (act s msg w).queues rcv ≡ w.queues rcv

module _ (fnc : TskFncMain) (next : ℕ → Ptr → ℕ) (act : ℕ → Ptr → World → World) where
  -- what the machine makes of some messages
  abbrev pub machine : Ptr → List Ptr → ℕ → World → World
  machine rcv [] s w = w
  machine rcv (msg ∷ msgs) s w = machine rcv msgs (next s msg) (act s msg (drop_at rcv w))

  nothing_to_get :
      (h : Ptr) (w : World)
      → (w.queues h).count ≡ 0
      → attempt_at (queue_at h) (attempt_get true) w ≡ none
  unfolding attempt_get
  nothing_to_get h w z = let f : ltb 0 (w.queues h).count ≡ false = ground arith in rw f

  idle :
      (t : TskHndl) (w : World)
      → (w.queues t.mbx_hndl.rcv_mbx).count ≡ 0
      → tsk_wait_msg t [] w ≡ waiting w
  unfolding tsk_wait_msg Mbx.wait_msg Msgq.recv_msg await
  idle t w z = rw (Msgq.recv_msg, await, nothing_to_get t.mbx_hndl.rcv_mbx w z)

  rest_eq : {a b : Ptr} {xs ys : List Ptr} → a ∷ xs ≡ b ∷ ys → xs ≡ ys
  rest_eq h = cc

  one_round :
      (k : ℕ) (msg : Ptr) (msgs : List Ptr) (t : TskHndl) (w : World)
      → Runs fnc next act t.mbx_hndl.rcv_mbx
      → t.fnc_main ≡ true
      → IsValid (w.queues t.mbx_hndl.rcv_mbx)
      → contents (w.queues t.mbx_hndl.rcv_mbx) ≡ msg ∷ msgs
      → thr_main (suc (suc k)) fnc t [] w
        ≡ thr_main
            (suc k)
            fnc
            (record t { cur_state = next t.cur_state msg })
            []
            (act t.cur_state msg (drop_at t.mbx_hndl.rcv_mbx w))
  unfolding thr_main tsk_wait_msg Mbx.wait_msg
  one_round k msg msgs t w r f v e =
      let rcv = t.mbx_hndl.rcv_mbx in
      rw (recv_now rcv timeout_forever [] w v e, r.runs t msg t.cur_state (drop_at rcv w), f) refl

  -- A task whose function sets the next state hands it the messages of its mailbox in order, each once,
  -- with the state that the one before has set, and then waits; a round for each and one more are
  -- enough.
  pub thr_main-machine :
      (msgs : List Ptr) (t : TskHndl) (w : World)
      → Runs fnc next act t.mbx_hndl.rcv_mbx
      → t.fnc_main ≡ true
      → IsValid (w.queues t.mbx_hndl.rcv_mbx)
      → contents (w.queues t.mbx_hndl.rcv_mbx) ≡ msgs
      → thr_main (suc (length msgs)) fnc t [] w
        ≡ waiting (machine t.mbx_hndl.rcv_mbx msgs t.cur_state w)
  thr_main-machine [] t w r f v e =
      let none_in : (w.queues t.mbx_hndl.rcv_mbx).count ≡ 0 =
        omega (arith, sym (length-contents v), ap length e) in
      unfold thr_main in rw (idle t w none_in) refl
  thr_main-machine (msg ∷ msgs) t w r f v e =
      let rcv = t.mbx_hndl.rcv_mbx in
      let some_in : 0 < (w.queues rcv).count =
        omega (arith, sym (length-contents v), ap length e) in
      let (x, _, c) = contents-drop_cell v some_in in
      let left : contents (drop_cell (w.queues rcv)) ≡ msgs = rest_eq (sym c ∙ e) in
      let w' = act t.cur_state msg (drop_at rcv w) in
      let same : w'.queues rcv ≡ drop_cell (w.queues rcv) =
        r.apart t.cur_state msg (drop_at rcv w)
        ∙ at_set_self w.queues rcv (drop_cell (w.queues rcv)) in
      one_round (length msgs) msg msgs t w r f v e
      ∙ thr_main-machine msgs (record t { cur_state = next t.cur_state msg }) w' r f
          (subst (λ q. IsValid q) (sym same) (drop_cell-IsValid v some_in))
          (ap contents same ∙ left)
