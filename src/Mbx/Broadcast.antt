-- ===== src/Mbx/Broadcast.antt =====
-- OSA_mbxCreate, OSA_mbxDelete and OSA_mbxBroadcastMsg of osa/src/osa_mbx.c.
use Prim.Native.Nat.{bit_or}
use osa_base.Base.{
  ℕ, zero, suc, Bool, true, false, not, ◌&&◌, Option, none, some, List, [], ◌∷◌, ◌==◌, ltb,
  if◌then◌else◌, length, ℤ, pos, negsuc, sok, eq_ℤ,
}
use osa_base.Memory.{Ptr, null}
use osa_base.Monitor.{
  Outcome, returned, stopped, fault, assertion, out_of_fuel, after, timeout_forever,
}
use osa_base.Que.{InitStatus}
use osa_base.Msgq
use osa_base.Msgq.{MsgqHndl, MsgHndl, World, at_set}
use osa_base.Mbx.{MbxHndl, wait_ack, free_prm, assert_success, ack_of, is_none, free_msg}

-- the status of OSA_msgqCreate, which is never negative
abbrev status_bits : ℤ → ℕ
status_bits (pos n) = n
status_bits (negsuc n) = 0

-- OSA_mbxCreate, for each queue what its array holds before and what the initialisers return
unfoldable pub create : List Ptr → InitStatus → List Ptr → InitStatus → MbxHndl → World → ℤ × World
create rcv_cells rcv_inits ack_cells ack_inits m w =
    let (s, rcv) = Msgq.create rcv_cells rcv_inits in
    let (t, ack) = Msgq.create ack_cells ack_inits in
    (
      pos (bit_or (bit_or 0 (status_bits s)) (status_bits t)),
      record w { queues = at_set (at_set w.queues m.rcv_mbx rcv) m.ack_mbx ack },
    )

-- OSA_mbxDelete
unfoldable pub delete : MbxHndl → World → ℤ × World
delete m w =
    let (s, rcv) = Msgq.delete (w.queues m.rcv_mbx) in
    let w' : World = record w { queues = at_set w.queues m.rcv_mbx rcv } in
    let (t, ack) = Msgq.delete (w'.queues m.ack_mbx) in
    (sok, record w' { queues = at_set w'.queues m.ack_mbx ack })

abbrev pub broadcast_max : ℕ
broadcast_max = 10

-- an entry of `pSentMsgList` with that of `ackList`
pub record SentMsg : Type 0 where
  pub msg : Ptr
  pub acked : Bool

-- the loop that sends; `fresh` is what OSA_memAlloc returns for each message.
unfoldable pub send_all :
    List Ptr
    → List MbxHndl
    → (ack cmd prm flags : ℕ) → List (World → World)
    → World
    → Outcome (List SentMsg) World
send_all fresh [] ack cmd prm flags wakes w = returned sok [] w wakes
send_all [] (m ∷ ms) ack cmd prm flags wakes w = stopped out_of_fuel w
send_all (p ∷ ps) (m ∷ ms) ack cmd prm flags wakes w =
    let rest = send_all ps ms ack cmd prm flags in
    after (Msgq.send_msg p m.rcv_mbx ack cmd prm flags wakes w) λ s out w' wakes'.
      assert_success s w' (elim out [
        | none ↦ stopped fault w'
        | some sent ↦ after (rest wakes' w') λ t entries w'' wakes''.
            returned t (record { msg = sent; acked = false } ∷ entries) w'' wakes''
      ])

-- the loop that marks an acknowledgement; `none` leaves `unknownAck`.
unfoldable pub mark : Ptr → List SentMsg → Option (List SentMsg)
mark rcv [] = none
mark rcv (e ∷ es) =
    let rest = mark rcv es in
    if rcv == e.msg
    then some (record e { acked = true } ∷ es)
    else elim rest [ none ↦ none | some es' ↦ some (e ∷ es') ]

-- the loop that looks for an acknowledgement that is still to come
unfoldable pub any_left : List SentMsg → Bool
any_left [] = false
any_left (e ∷ es) = let rest = any_left es in if e.acked then rest else true

-- what a round does with the message that came back, which may not be there
unfoldable pub take_ack :
    Ptr
    → Option MsgHndl
    → List SentMsg
    → ℤ
    → List (World → World)
    → World
    → Outcome (List SentMsg × ℤ) World
take_ack rcv none es ack_ret_val wakes w = stopped fault w
take_ack rcv (some n) es ack_ret_val wakes w = elim (mark rcv es) [
  | none ↦ after (free_msg rcv wakes w) λ s u w' rest. returned sok (es, ack_ret_val) w' rest
  | some es' ↦ after (Msgq.free_msg_hndl rcv wakes w) λ s u w' rest.
      assert_success s w'
        (returned sok (es', if eq_ℤ ack_ret_val sok then n.status else ack_ret_val) w' rest)
]

-- the loop that waits for the acknowledgements; its value is `ackRetVal`.
unfoldable pub wait_for_acks :
    ℕ → Ptr → List SentMsg → ℤ → List (World → World) → World → Outcome (Unit {0}) World
unfolding take_ack
wait_for_acks zero ack es ack_ret_val wakes w = stopped out_of_fuel w
wait_for_acks (suc k) ack es ack_ret_val wakes w =
    let rest = wait_for_acks k ack in
    after (Msgq.recv_msg ack true timeout_forever wakes w) λ s out w' wakes'.
      assert_success s w' (elim out [
        | none ↦ stopped fault w'
        | some rcv ↦ after (take_ack rcv (w'.msgs rcv) es ack_ret_val wakes' w') λ t p w'' wakes''.
            if any_left (p.0) then rest (p.0) (p.1) wakes'' w'' else returned (p.1) tt w'' wakes''
      ])

-- `OSA_memFree(pPrm)` at the end, where the flags ask for it
unfoldable pub free_prm_at_end :
    (prm flags : ℕ) → ℤ → List (World → World) → World → Outcome (Unit {0}) World
free_prm_at_end prm flags ret_val wakes w =
    if free_prm flags && not (prm == null)
    then (if w.prms prm
        then returned ret_val tt (record w { prms = at_set w.prms prm false }) wakes
        else stopped fault w)
    else returned ret_val tt w wakes

-- OSA_mbxBroadcastMsg, to the mailboxes of the list in front of its NULL
unfoldable pub broadcast_msg :
    ℕ
    → List Ptr
    → List MbxHndl
    → Option MbxHndl
    → (cmd prm flags : ℕ) → List (World → World)
    → World
    → Outcome (Unit {0}) World
unfolding send_all wait_for_acks free_prm_at_end
broadcast_msg fuel fresh to from cmd prm flags wakes w =
    if is_none from && wait_ack flags
    then stopped assertion w
    else if not (ltb (length to) broadcast_max)
    then stopped assertion w
    else if length to == 0
    then returned sok tt w wakes
    else if free_prm flags && (not (wait_ack flags) && ltb 1 (length to))
    then stopped assertion w
    else after (send_all fresh to (ack_of from) cmd prm flags wakes w) λ s es w' wakes'.
      if wait_ack flags && not (is_none from)
      then after (wait_for_acks fuel (ack_of from) es sok wakes' w')
          (λ t u w'' wakes''. free_prm_at_end prm flags t wakes'' w'')
      else returned s tt w' wakes'
