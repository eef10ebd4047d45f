-- ===== src/Communication/Stream/Receiver.antt =====
-- The client of frames: OSA_client_processThr of communication/osa_communication.c where `client_type` is
-- STREAM_TYPE, from REPEAT_CONNECT on.
pub mod Arrival
mod Tests
use osa_base.Base.{
  of_u32, ℕ, Bool, true, false, not, Option, none, some, List, [], ◌∷◌, ◌++◌, if◌then◌else◌,
  replicate, ℤ, pos, sok, eq_ℤ,
}
use osa_base.Monitor.{Stop, assertion, out_of_fuel}
use osa_base.Socket.{Sock, tcp_rcv_block_fd}
use osa_base.Communication.{is_connect}
use osa_base.Communication.Head.{FrameHead, check_stream_head}
use osa_base.Communication.Client.{
  repeat_connect, in_loop, returned, Client, Around, handle_now, renew, connect, client_exit,
  client_leave,
}

-- What `msgFun` is given: `stream_head` and `recv_value`, a buffer whose first `nFrameLength` bytes
-- are the frame.
pub record FrameMsg (R : Type 0) : Type 0 where
  pub stream_head : FrameHead R
  pub recv_value : List ℕ

-- How an attempt to receive a frame ends: with the callback; at EXIT with `ret` still `OSA_SOK`, as
-- the head is none; at EXIT with the status of the receive that failed; or at the OSA_assert behind
-- `get_emptybuf`, which returned NULL.
pub data FrameAttempt (R Net : Type 0) : Type 0 where
  dealt : FrameMsg R → Net → FrameAttempt R Net
  bad_head : Net → FrameAttempt R Net
  lost : ℤ → Net → FrameAttempt R Net
  no_buffer : Net → FrameAttempt R Net

-- The thread of a client of frames, and what it has given to `msgFun`; the `calls` of `client` stay
-- empty.
pub record Viewer (R Net : Type 0) : Type 0 where
  pub client : Client Net
  pub frames : List (FrameMsg R)

-- The thread goes on, or it has stopped.
pub data Turn (R Net : Type 0) : Type 0 where
  goes : Viewer R Net → Turn R Net
  stops : Stop → Viewer R Net → Turn R Net

abbrev pub with_net : {R Net : Type 0} → Net → Viewer R Net → Viewer R Net
with_net net v = record v { client = record v.client { net = net } }

module _ {R Net : Type 0} where
  -- the statements behind EXIT
  unfoldable pub viewer_exit : (recon_flag ret : ℤ) → Viewer R Net → Turn R Net
  unfolding client_exit
  viewer_exit recon_flag ret v = goes (record v { client = client_exit recon_flag ret v.client })

  -- what a round does with the attempt to receive; the value of `msgFun` is only logged.
  unfoldable pub frame_attempt : (recon_flag : ℤ) → FrameAttempt R Net → Viewer R Net → Turn R Net
  unfolding viewer_exit
  frame_attempt recon_flag (dealt m net) v =
      viewer_exit recon_flag sok (record (with_net net v) { frames = v.frames ++ m ∷ [] })
  frame_attempt recon_flag (bad_head net) v = viewer_exit recon_flag sok (with_net net v)
  frame_attempt recon_flag (lost ret net) v = viewer_exit recon_flag ret (with_net net v)
  frame_attempt recon_flag (no_buffer net) v = stops assertion (with_net net v)

-- `head_size` is the size of a Frame_Head_t, `head_of` the head that some bytes of memory are.
module _ {R Net : Type 0} (sock : Sock Net) (fuel head_size : ℕ) (head_of : List ℕ → FrameHead R)
    (get_emptybuf : ℤ → Option (List ℕ)) where
  -- once the head is received and checked; `recv_len` is an `int`.
  unfoldable pub recv_data : (socket : ℤ) → FrameHead R → Net → Option (FrameAttempt R Net)
  recv_data socket head net =
      let recv_len = of_u32 head.n_frame_length in
      elim (get_emptybuf recv_len) [
        | none ↦ some (no_buffer net)
        | some buf ↦ elim (tcp_rcv_block_fd sock fuel socket (some buf) recv_len net) [
          | none ↦ none
          | some r ↦
              if not (eq_ℤ r.status sok)
              then some (lost r.status r.net)
              else some (dealt (record { stream_head = head; recv_value = r.buf }) r.net)
        ]
      ]

  -- the part of the loop up to EXIT, where frames are received
  unfoldable pub recv_frame : (socket : ℤ) → Net → Option (FrameAttempt R Net)
  unfolding recv_data
  recv_frame socket net =
      elim (tcp_rcv_block_fd sock fuel socket (some (replicate head_size 0)) (pos head_size) net) [
        | none ↦ none
        | some r ↦
            if not (eq_ℤ r.status sok)
            then some (lost r.status r.net)
            else if not (eq_ℤ (check_stream_head (some (head_of r.buf))) (pos 0))
            then some (bad_head r.net)
            else recv_data socket (head_of r.buf) r.net
      ]

  module _ (recon_flag server_port : ℤ) where
    -- a round of the loop that finds the status CLIENT_CONNECT
    unfoldable pub viewer_round : Viewer R Net → Turn R Net
    unfolding recv_frame frame_attempt
    viewer_round v = elim (recv_frame v.client.socket v.client.net) [
      | none ↦ stops out_of_fuel v
      | some a ↦ frame_attempt recon_flag a v
    ]

    -- one step of the thread
    unfoldable pub viewer_step : Around Net → Viewer R Net → Turn R Net
    unfolding renew connect handle_now viewer_round client_leave
    viewer_step around v = elim v.client.place [
      | repeat_connect ↦ goes (record v {
        client = connect recon_flag server_port around.connected (renew around v.client);
      })
      | in_loop ↦
          let c = record v.client { handle = handle_now around.destroyed v.client.handle } in
          if is_connect c.handle.client_status
          then viewer_round (record v { client = c })
          else goes (record v { client = client_leave c })
      | returned ↦ goes v
    ]

    -- the thread from REPEAT_CONNECT on, as many steps as there are entries
    unfoldable pub viewer_process : List (Around Net) → Viewer R Net → Turn R Net
    unfolding viewer_step
    viewer_process [] v = goes v
    viewer_process (around ∷ rest) v = elim (viewer_step around v) [
      | goes v' ↦ viewer_process rest v'
      | stops why v' ↦ stops why v'
    ]
