-- ===== src/Mbx/Flush.antt =====
-- The loops of osa/src/osa_mbx.c over the messages that are there: OSA_mbxFlush and OSA_mbxWaitCmd.
pub mod Emptied
use osa_base.Base.{
  ℕ, zero, suc, ◌<◌, ◌≡◌, ◌≢◌, refl, sym, ap, ◌∙◌, Bool, true, false, Option, none, some, List, [],
  ◌∷◌, ltb, ◌==◌, if◌then◌else◌, length, All, arith, ℤ, sok, efail, eq_ℤ,
}
use osa_base.Memory.{Ptr}
use osa_base.Monitor.{Outcome, returned, stopped, fault, out_of_fuel, after, timeout_none}
use osa_base.Msgq
use osa_base.Msgq.{World, MsgHndl}
use osa_base.Mbx.{MbxHndl, free_msg, wait_msg, ack_or_free_msg}

-- one of the two loops of OSA_mbxFlush: take messages from a queue while there are any
unfoldable pub drain :
    ℕ
    → Ptr
    → (Ptr → List (World → World) → World → Outcome (Unit {0}) World)
    → List (World → World)
    → World
    → Outcome (Unit {0}) World
drain zero h act wakes w = stopped out_of_fuel w
drain (suc k) h act wakes w =
    let rest = drain k h act in
    after (Msgq.recv_msg h true timeout_none wakes w) λ s out w' wakes'.
      if eq_ℤ s sok
      then elim out [
        | none ↦ stopped fault w'
        | some p ↦ after (act p wakes' w') (λ _ u w'' wakes''. rest wakes'' w'')
      ]
      else returned s tt w' wakes'

-- OSA_mbxFlush
unfoldable pub flush : ℕ → MbxHndl → List (World → World) → World → Outcome (Unit {0}) World
unfolding drain
flush fuel m wakes w =
    after (drain fuel m.rcv_mbx (λ p. ack_or_free_msg p sok) wakes w)
      λ _ u w' wakes'. drain fuel m.ack_mbx free_msg wakes' w'

-- `OSA_msgGetCmd(pRcvMsg)` of a message that may not be there
abbrev pub is_cmd : ℕ → Option MsgHndl → Option Bool
is_cmd wait_cmd none = none
is_cmd wait_cmd (some n) = some (n.cmd == wait_cmd)

-- the loop of OSA_mbxWaitCmd: other messages are acknowledged or freed
unfoldable pub wait_cmd_loop :
    ℕ → MbxHndl → ℕ → List (World → World) → World → Outcome (Option Ptr) World
wait_cmd_loop zero m cmd wakes w = stopped out_of_fuel w
wait_cmd_loop (suc k) m cmd wakes w =
    let rest = wait_cmd_loop k m cmd in
    after (wait_msg m wakes w) λ _ out w' wakes'. elim out [
      | none ↦ stopped fault w'
      | some p ↦ elim (is_cmd cmd (w'.msgs p)) [
        | none ↦ stopped fault w'
        | some Bool.true ↦ returned sok (some p) w' wakes'
        | some Bool.false ↦
            after (ack_or_free_msg p sok wakes' w') (λ _ u w'' wakes''. rest wakes'' w'')
      ]
    ]

-- OSA_mbxWaitCmd; `wanted` says that the pointer for the message is not NULL, the value is what it
-- gets.
unfoldable pub wait_cmd :
    ℕ → Bool → MbxHndl → ℕ → List (World → World) → World → Outcome (Option Ptr) World
unfolding wait_cmd_loop
wait_cmd fuel wanted m cmd wakes w = after (wait_cmd_loop fuel m cmd wakes w) λ _ out w' wakes'.
    elim out [
      | none ↦ stopped fault w'
      | some p ↦
          if wanted
          then returned sok (some p) w' wakes'
          else after (ack_or_free_msg p sok wakes' w') (λ _ u w'' rest. returned sok none w'' rest)
    ]
