-- ===== src/Mbx.antt =====
-- osa/src/osa_mbx.c and osa/inc/osa_mbx.h: a mailbox is a queue of messages that come in and a queue
-- of messages that come back acknowledged. A call can wait for the acknowledgement.
pub mod Exchange
pub mod Flush
pub mod Broadcast
mod Tests
use Prim.Native.Nat.{bit_and, bit_or}
use osa_base.Base.{
  ℕ, zero, suc, Bool, true, false, not, ◌&&◌, Option, none, some, List, [], ◌==◌, if◌then◌else◌, ℤ,
  pos, negsuc, sok, efail, eq_ℤ,
}
use osa_base.Memory.{Ptr, null}
use osa_base.Monitor.{
  Outcome, returned, waiting, stopped, fault, assertion, after, timeout_none, timeout_forever,
}
use osa_base.Msgq
use osa_base.Msgq.{MsgHndl, World, at_set, u16}

-- the addresses of the two queues of an OSA_MbxHndl
pub record MbxHndl : Type 0 where
  pub rcv_mbx : Ptr
  pub ack_mbx : Ptr

-- `flags & OSA_MBX_WAIT_ACK` and `flags & OSA_MBX_FREE_PRM`
abbrev pub wait_ack : ℕ → Bool
wait_ack flags = not (bit_and flags 2 == 0)

abbrev pub free_prm : ℕ → Bool
free_prm flags = not (bit_and flags 4 == 0)

-- OSA_assertSuccess of a status
abbrev pub assert_success : {A : Type 0} → ℤ → World → Outcome A World → Outcome A World
assert_success status w next = if eq_ℤ status sok then next else stopped assertion w

-- `OSA_memFree(pMsg->pPrm)` where the flags ask for it
unfoldable pub free_prm_of : MsgHndl → List (World → World) → World → Outcome (Unit {0}) World
free_prm_of n wakes w =
    if free_prm n.flags && not (n.p_prm == null)
    then (if w.prms n.p_prm
        then returned sok tt (record w { prms = at_set w.prms n.p_prm false }) wakes
        else stopped fault w)
    else returned sok tt w wakes

unfoldable pub free_at :
    Ptr → Option MsgHndl → List (World → World) → World → Outcome (Unit {0}) World
unfolding free_prm_of
free_at msg none wakes w = stopped fault w
free_at msg (some n) wakes w = after (free_prm_of n wakes w) λ _ u w' wakes'.
    after (Msgq.free_msg_hndl msg wakes' w')
      λ s u' w'' rest. assert_success s w'' (returned sok tt w'' rest)

-- OSA_mbxFreeMsg
unfoldable pub free_msg : Ptr → List (World → World) → World → Outcome (Unit {0}) World
unfolding free_at
free_msg msg wakes w = free_at msg (w.msgs msg) wakes w

-- what OSA_mbxSendMsg does with a message that came back: only its own is expected
unfoldable pub acknowledged :
    Ptr → Ptr → Option MsgHndl → List (World → World) → World → Outcome (Unit {0}) World
acknowledged sent rcv none wakes w = stopped fault w
acknowledged sent rcv (some n) wakes w =
    if rcv == sent
    then after (free_msg rcv wakes w) (λ s u w' rest. returned n.status tt w' rest)
    else stopped assertion w

-- the loop of OSA_mbxSendMsg: it ends after one round, or at a failed assertion
unfoldable pub wait_for_ack : Ptr → Ptr → List (World → World) → World → Outcome (Unit {0}) World
unfolding acknowledged
wait_for_ack ack sent wakes w =
    after (Msgq.recv_msg ack true timeout_forever wakes w) λ s out w' wakes'.
      assert_success s w' (elim out [
        | none ↦ stopped fault w'
        | some rcv ↦ acknowledged sent rcv (w'.msgs rcv) wakes' w'
      ])

abbrev pub ack_of : Option MbxHndl → Ptr
ack_of none = null
ack_of (some m) = m.ack_mbx

abbrev pub is_none : {A : Type 0} → Option A → Bool
is_none none = true
is_none (some a) = false

-- OSA_mbxSendMsg, to a mailbox that is not NULL, as the first assertion asks
unfoldable pub send_msg :
    Ptr
    → MbxHndl
    → Option MbxHndl
    → (cmd prm flags : ℕ) → List (World → World)
    → World
    → Outcome (Unit {0}) World
unfolding wait_for_ack
send_msg fresh to from cmd prm flags wakes w =
    if is_none from && wait_ack flags
    then stopped assertion w
    else after (Msgq.send_msg fresh to.rcv_mbx (ack_of from) cmd prm flags wakes w)
        λ s out w' wakes'. assert_success s w' (elim out [
          | none ↦ stopped fault w'
          | some sent ↦
              if wait_ack flags && not (is_none from)
              then wait_for_ack (ack_of from) sent wakes' w'
              else returned s tt w' wakes'
        ])

-- OSA_mbxWaitMsg and OSA_mbxCheckMsg; the value is `*pMsg`.
unfoldable pub wait_msg : MbxHndl → List (World → World) → World → Outcome (Option Ptr) World
wait_msg m wakes w =
    after (Msgq.recv_msg m.rcv_mbx true timeout_forever wakes w)
      λ s out w' rest. assert_success s w' (returned s out w' rest)

unfoldable pub check_msg : MbxHndl → List (World → World) → World → Outcome (Option Ptr) World
check_msg m wakes w = Msgq.recv_msg m.rcv_mbx true timeout_none wakes w

unfoldable pub ack_or_free_at :
    Ptr → Option MsgHndl → ℤ → List (World → World) → World → Outcome (Unit {0}) World
ack_or_free_at msg none ack_ret_val wakes w = stopped fault w
ack_or_free_at msg (some n) ack_ret_val wakes w =
    if wait_ack n.flags
    then after (Msgq.send_ack msg ack_ret_val wakes w)
        (λ s u w' rest. assert_success s w' (returned s tt w' rest))
    else after (free_msg msg wakes w) λ s u w' rest. returned sok tt w' rest

-- OSA_mbxAckOrFreeMsg
unfoldable pub ack_or_free_msg : Ptr → ℤ → List (World → World) → World → Outcome (Unit {0}) World
unfolding ack_or_free_at
ack_or_free_msg msg ack_ret_val wakes w =
    if msg == null
    then returned efail tt w wakes
    else ack_or_free_at msg (w.msgs msg) ack_ret_val wakes w
