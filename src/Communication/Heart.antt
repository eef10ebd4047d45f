-- ===== src/Communication/Heart.antt =====
-- The heartbeat of a client of communication/osa_communication.c: OSA_heart_process, once it has slept
-- and checked its parameters. A sleep changes nothing.
use osa_base.Base.{
  ℕ, ◌+◌, ◌/◌, ◌%◌, ◌^◌, Bool, true, false, Option, none, some, List, [], ◌∷◌, if◌then◌else◌, pos,
}
use osa_base.Socket.{Sock}
use osa_base.Communication.{is_connect, cmd_msg_heart}
use osa_base.Communication.Client.{ClientHandle, client_send_msg}

-- the bytes of Heart_Beart_t, a `Uint64`, the lowest first
abbrev pub heart_bytes : ℕ → List ℕ
heart_bytes count =
    (count % 256)
    ∷ (count / 2 ^ 8 % 256)
    ∷ (count / 2 ^ 16 % 256)
    ∷ (count / 2 ^ 24 % 256)
    ∷ (count / 2 ^ 32 % 256)
    ∷ (count / 2 ^ 40 % 256)
    ∷ (count / 2 ^ 48 % 256)
    ∷ (count / 2 ^ 56 % 256)
    ∷ []

-- what the thread leaves: whether it has returned, the count, and the connection
pub record Beating (Net : Type 0) : Type 0 where
  pub returned : Bool
  pub count : ℕ
  pub net : Net

module _ {Net : Type 0} (sock : Sock Net) (fuel : ℕ) where
  -- the loop, with the handle that it finds at each test and sends by
  unfoldable pub heart_loop : List ClientHandle → ℕ → Net → Option (Beating Net)
  heart_loop [] count net = some (record { returned = false; count = count; net = net })
  heart_loop (h ∷ hs) count net =
      let rest = heart_loop hs in
      if is_connect h.client_status
      then elim (client_send_msg sock fuel (some h) (some (heart_bytes ((count + 1) % 2 ^ 64)))
          (pos 8) cmd_msg_heart net) [
            | none ↦ none
            | some (ret, net') ↦ rest ((count + 1) % 2 ^ 64) net'
          ]
      else some (record { returned = true; count = count; net = net })

  -- OSA_heart_process
  unfoldable pub heart_process : List ClientHandle → Net → Option (Beating Net)
  unfolding heart_loop
  heart_process hs net = heart_loop hs 0 net
