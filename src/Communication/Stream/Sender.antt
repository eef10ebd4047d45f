-- ===== src/Communication/Stream/Sender.antt =====
-- The thread of communication/osa_communication.c that sends frames to a client: OSA_processClient_thread
-- where `server_type` is STREAM_TYPE, once its handle is in the list of clients.
pub mod Sends
pub mod Deliver
pub mod Lost
pub mod Begins
pub mod Ends
mod Tests
use osa_base.Base.{
  ℕ, zero, suc, Bool, true, false, not, ◌&&◌, Option, none, some, List, [], ◌∷◌, ◌++◌,
  if◌then◌else◌, get_elem?, set, ℤ, pos, negsuc, sok, eq_ℤ, ltb_ℤ,
}
use osa_base.Monitor.{
  Outcome, returned, waiting, stopped, Stop, fault, out_of_fuel, timeout_none, timeout_forever,
}
use osa_base.Socket.{Sock}
use osa_base.Que.{InitStatus}
use osa_base.Buf
use osa_base.Buf.{BufHndl}
use osa_base.Communication.{ServerStatus, client_disconnect, client_connect, is_connect, is_star}
use osa_base.Communication.Head.{FrameHead}
use osa_base.Communication.Server.{CliOpreateHanle, set_client_status, at_exit}
use osa_base.Communication.Stream.{BufInfo, store_info, net_send_buf}

-- OSA_CliOpreateHanle_t of a server of frames, with its pool of buffers
pub record StreamClient (R Net : Type 0) : Type 0 where
  pub client : CliOpreateHanle Net
  pub pool : BufHndl (BufInfo R)

-- What the others do in a round: what get_server_status says, the wake-ups of the wait for a full
-- buffer and of that for room among the empty ones, and what is done to the pool between
-- OSA_bufPutEmpty and the release of the data. `stale` says that `tmp_msg` and `flag`, which the
-- jump to EXIT leaves unset, would make the thread free an arbitrary address.
pub record Others (R : Type 0) : Type 0 where
  pub star : ServerStatus
  pub wakes : List (BufHndl (BufInfo R) → BufHndl (BufInfo R))
  pub put_wakes : List (BufHndl (BufInfo R) → BufHndl (BufInfo R))
  pub between : BufHndl (BufInfo R) → BufHndl (BufInfo R)
  pub stale : Bool

-- Where the thread is: at the test of its loop with `buf_id`, in a wait, stopped, or returned.
pub data Turn (R Net : Type 0) : Type 0 where
  goes : ℤ → StreamClient R Net → Turn R Net
  waits : StreamClient R Net → Turn R Net
  stops : Stop → StreamClient R Net → Turn R Net
  left : StreamClient R Net → Turn R Net

-- the local variable after a call that may write it
abbrev pub written : ℤ → Option ℤ → ℤ
written buf_id none = buf_id
written buf_id (some new_id) = new_id

module _ {R : Type 0} where
  abbrev pub info_at : ℤ → BufHndl (BufInfo R) → Option (BufInfo R)
  info_at (pos k) h = get_elem? h.buf_info k
  info_at (negsuc k) h = none

  -- `if(bufInfo[buf_id].data != NULL) { OSA_memFree(...); bufInfo[buf_id].data = NULL; }`
  unfoldable pub free_data : ℤ → BufHndl (BufInfo R) → Option (BufHndl (BufInfo R))
  free_data buf_id h = elim (info_at buf_id h) [
    | none ↦ none
    | some info ↦ store_info buf_id (record info { frame_data = none }) h
  ]

module _ {R Net : Type 0} where
  -- the statements behind EXIT, as they are reached from the branch for frames
  unfoldable pub stream_exit : Others R → ℤ → ℤ → ℤ → StreamClient R Net → Turn R Net
  unfolding at_exit
  stream_exit others client_socket buf_id ret c =
      if others.stale
      then stops fault c
      else goes buf_id (record c { client = at_exit client_socket ret c.client })

  -- a frame has been sent: its buffer is given back, and its data are freed
  unfoldable pub give_back : Others R → ℤ → StreamClient R Net → Turn R Net
  unfolding free_data
  give_back others buf_id c = elim (Buf.put_empty false buf_id others.put_wakes c.pool) [
    | waiting h ↦ waits (record c { pool = h })
    | stopped why h ↦ stops why (record c { pool = h })
    | returned s u h wakes ↦ elim (free_data buf_id (others.between h)) [
      | none ↦ stops fault c
      | some h' ↦ goes buf_id (record c { pool = h' })
    ]
  ]

module _ {R Net : Type 0} (sock : Sock Net) (fuel : ℕ) (head_bytes : FrameHead R → List ℕ)
    (client_socket buf_num : ℤ) where
  -- what follows OSA_bufGetFull
  unfoldable pub send_frame : Others R → ℤ → StreamClient R Net → Turn R Net
  unfolding stream_exit give_back
  send_frame others buf_id c =
      if ltb_ℤ (negsuc 0) buf_id && not (ltb_ℤ buf_num buf_id)
      then elim (info_at buf_id c.pool) [
        | none ↦ stops fault c
        | some info ↦ elim (net_send_buf sock fuel head_bytes c.client.socket info c.client.net) [
          | none ↦ stops out_of_fuel c
          | some (ret, net) ↦
              let c' = record c { client = record c.client { net = net } } in
              if not (eq_ℤ ret (pos 0))
              then stream_exit others client_socket buf_id ret c'
              else give_back others buf_id c'
        ]
      ]
      else goes buf_id c

  -- a round of the loop
  unfoldable pub stream_round : Others R → ℤ → StreamClient R Net → Turn R Net
  unfolding send_frame
  stream_round others buf_id c =
      elim (Buf.get_full false false timeout_forever others.wakes c.pool) [
        | waiting h ↦ waits (record c { pool = h })
        | stopped why h ↦ stops why (record c { pool = h })
        | returned s out h wakes ↦ send_frame others (written buf_id out) (record c { pool = h })
      ]

  -- the loop that frees the data of the full buffers, once the loop of rounds has ended
  unfoldable pub drain : ℕ → StreamClient R Net → Turn R Net
  unfolding free_data
  drain zero c = stops out_of_fuel c
  drain (suc k) c = elim (Buf.get_full false false timeout_none [] c.pool) [
    | waiting h ↦ waits (record c { pool = h })
    | stopped why h ↦ stops why (record c { pool = h })
    | returned s out h wakes ↦
        if not (eq_ℤ s sok) then left (record c { pool = (Buf.delete false h).1 }) else elim out [
          | none ↦ stops fault (record c { pool = h })
          | some buf_id ↦ elim (free_data buf_id h) [
            | none ↦ stops fault (record c { pool = h })
            | some h' ↦ drain k (record c { pool = h' })
          ]
        ]
  ]

  -- the statements behind the loop that concern the socket and the buffers
  unfoldable pub stream_leave : StreamClient R Net → Turn R Net
  unfolding drain
  stream_leave c =
      drain fuel
        (record c { client = record c.client { closed = c.client.closed ++ client_socket ∷ [] } })

  -- the loop, as many rounds as there are entries
  unfoldable pub stream_loop : List (Others R) → ℤ → StreamClient R Net → Turn R Net
  unfolding stream_round stream_leave
  stream_loop [] buf_id c = goes buf_id c
  stream_loop (others ∷ rest) buf_id c =
      if is_connect c.client.status && is_star others.star
      then elim (stream_round others buf_id c) [
        | goes buf_id' c' ↦ stream_loop rest buf_id' c'
        | waits c' ↦ waits c'
        | stops why c' ↦ stops why c'
        | left c' ↦ left c'
      ]
      else stream_leave c

module _ {R Net : Type 0} (sock : Sock Net) (fuel : ℕ) (head_bytes : FrameHead R → List ℕ) where
  -- OSA_processClient_thread, once its mutex is made. The value of OSA_bufCreate is lost; `zeroed`, the
  -- storages and the initialisers are those that it is given.
  unfoldable pub process_stream :
      (buf_num : ℤ)
      → (zeroed : BufInfo R) → (storage_e storage_f : Option (List ℤ))
      → (inits_e inits_f : InitStatus) → List (Others R)
      → StreamClient R Net
      → Turn R Net
  unfolding set_client_status stream_loop
  process_stream buf_num zeroed storage_e storage_f inits_e inits_f rounds c =
      let client = set_client_status client_connect c.client in
      elim (Buf.create false buf_num zeroed storage_e storage_f inits_e inits_f c.pool) [
        | waiting h ↦ waits (record { client = client; pool = h })
        | stopped why h ↦ stops why (record { client = client; pool = h })
        | returned s u h wakes ↦
            let tested =
              if ltb_ℤ client.socket (pos 3)
              then set_client_status client_disconnect client
              else client in
            stream_loop sock fuel head_bytes client.socket buf_num rounds (pos 0)
              (record { client = tested; pool = h })
      ]
