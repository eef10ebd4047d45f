-- ===== src/Communication/Message.antt =====
-- One message in communication/osa_communication.c: OSA_client_sendMsg and OSA_server_sendMsg, and
-- what both threads do to receive one.
pub mod Exchange
pub mod Ends
use osa_base.Base.{
  ℕ, zero, suc, Bool, true, false, not, ◌||◌, Option, none, some, List, [], if◌then◌else◌, ltb,
  length, replicate, ℤ, pos, negsuc, sok, efail, ltb_ℤ, eq_ℤ,
}
use osa_base.Socket.{Sock, Received, tcp_snd_nonblock_fd, tcp_rcv_block_fd}
use osa_base.Communication.{max_recv}
use osa_base.Communication.Head.{
  ComMsgHead, Mark, init_msg_head, check_msg_head, head_bytes, head_of,
}

-- `sizeof(Com_MsgHead_t)`
abbrev pub head_len : ℕ
head_len = 16

-- what a stack variable holds before it is set
abbrev pub blank_head : ComMsgHead
blank_head = record {
  identifier = record { first = 0; second = 0; third = 0; fourth = 0 };
  load_len = pos 0;
  msg_code = pos 0;
  reserve = pos 0;
}

-- the head that goes before a message
abbrev pub head_for : (n_len code : ℤ) → ComMsgHead
head_for n_len code = record (init_msg_head blank_head).1 { msg_code = code; load_len = n_len }

-- What the callback is given: `msg_head` and `recv_value`, a buffer whose first `load_len` bytes are
-- the message.
pub record CallbackMsg : Type 0 where
  pub msg_head : ComMsgHead
  pub recv_value : List ℕ

-- How an attempt to receive a message ends: with the callback; at EXIT with `ret` still `OSA_SOK`,
-- as the head is none; or at EXIT with the status of the receive that failed.
pub data Attempt (Net : Type 0) : Type 0 where
  dealt : CallbackMsg → Net → Attempt Net
  bad_head : Net → Attempt Net
  lost : ℤ → Net → Attempt Net

module _ {Net : Type 0} (sock : Sock Net) where
  -- the second half of both functions: the message, once the head is sent
  unfoldable pub send_body : ℕ → ℤ → List ℕ → ℤ → Option (ℤ × Option ℤ × Net) → Option (ℤ × Net)
  send_body fuel socket message n_len none = none
  send_body fuel socket message n_len (some (ret, len, net)) =
      if not (eq_ℤ ret sok)
      then some (ret, net)
      else elim (tcp_snd_nonblock_fd sock fuel socket (some message) (some n_len) net) [
        | none ↦ none
        | some (ret', len', net') ↦ some (ret', net')
      ]

  -- OSA_client_sendMsg and OSA_server_sendMsg; `socket` is what get_reClient_socket or
  -- get_client_socket returns.
  unfoldable pub send_msg :
      ℕ
      → (handle_null : Bool) → (socket : ℤ) → (message : Option (List ℕ)) → (n_len code : ℤ) → Net
      → Option (ℤ × Net)
  unfolding send_body init_msg_head
  send_msg fuel handle_null socket none n_len code net = some (negsuc 0, net)
  send_msg fuel handle_null socket (some message) n_len code net =
      if handle_null || not (ltb_ℤ (pos 0) n_len)
      then some (negsuc 0, net)
      else if ltb_ℤ socket (pos 3)
      then some (negsuc 0, net)
      else send_body fuel socket message n_len (
          tcp_snd_nonblock_fd sock fuel socket (some (head_bytes (head_for n_len code)))
            (some (pos head_len)) net)

  -- the buffer for the message: `msg_l` on the stack, or what OSA_memAlloc returns for `recv_len`
  -- bytes
  abbrev pub buffer_for : (ℤ → Option (List ℕ)) → ℤ → Option (List ℕ)
  buffer_for mem_alloc recv_len =
      if ltb_ℤ (pos max_recv) recv_len then mem_alloc recv_len else some (replicate max_recv 0)

  unfoldable pub recv_body : ℕ → ℤ → ComMsgHead → Option (Received Net) → Option (Attempt Net)
  recv_body fuel socket head none = none
  recv_body fuel socket head (some r) =
      if not (eq_ℤ r.status sok)
      then some (lost r.status r.net)
      else some (dealt (record { msg_head = head; recv_value = r.buf }) r.net)

  -- once the head is received
  unfoldable pub recv_load :
      ℕ → (ℤ → Option (List ℕ)) → ℤ → Option (Received Net) → Option (Attempt Net)
  unfolding recv_body
  recv_load fuel mem_alloc socket none = none
  recv_load fuel mem_alloc socket (some r) =
      let head = head_of r.buf in
      if not (eq_ℤ r.status sok)
      then some (lost r.status r.net)
      else if not (eq_ℤ (check_msg_head (some head)) (pos 0))
      then some (bad_head r.net)
      else recv_body fuel socket head (
          tcp_rcv_block_fd sock fuel socket (buffer_for mem_alloc head.load_len) head.load_len
            r.net)

  -- the part of the loops of OSA_processClient_thread and OSA_client_processThr up to EXIT, where
  -- messages are received
  unfoldable pub recv_msg : ℕ → (ℤ → Option (List ℕ)) → ℤ → Net → Option (Attempt Net)
  unfolding recv_load
  recv_msg fuel mem_alloc socket net =
      recv_load fuel mem_alloc socket
        (tcp_rcv_block_fd sock fuel socket (some (replicate head_len 0)) (pos head_len) net)
