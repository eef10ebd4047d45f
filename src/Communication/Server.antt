-- ===== src/Communication/Server.antt =====
-- The thread that a server of messages runs for each client: OSA_processClient_thread of
-- communication/osa_communication.c, where `server_type` is MSG_TYPE.
-- A client's handle is read and written under `opreate_lock`, one access at a time.
pub mod Dealing
use osa_base.Base.{
  ℕ, Bool, true, false, not, ◌&&◌, Option, none, some, List, [], ◌∷◌, ◌++◌, if◌then◌else◌, ℤ, pos,
  negsuc, sok, eq_ℤ, ltb_ℤ,
}
use osa_base.Socket.{Sock}
use osa_base.Communication.{
  ClientStatus, client_disconnect, client_connect, ServerStatus, is_connect, is_star,
}
use osa_base.Communication.Message.{CallbackMsg, Attempt, dealt, bad_head, lost, recv_msg, send_msg}

-- OSA_CliOpreateHanle_t, with the connection behind its socket; `closed` are the descriptors that
-- the thread has given to close, and `calls` what it has given to `dealFun`.
pub record CliOpreateHanle (Net : Type 0) : Type 0 where
  pub socket : ℤ
  pub status : ClientStatus
  pub net : Net
  pub closed : List ℤ
  pub calls : List CallbackMsg

-- A thread is in its loop, or it has returned.
pub data Thread (Net : Type 0) : Type 0 where
  running : CliOpreateHanle Net → Thread Net
  ended : CliOpreateHanle Net → Thread Net

module _ {Net : Type 0} where
  -- set_client_status, get_client_status, set_client_socket, get_client_socket; `none` is NULL.
  unfoldable pub set_client_status : ClientStatus → CliOpreateHanle Net → CliOpreateHanle Net
  set_client_status status h = record h { status = status }

  unfoldable pub set_client_socket : ℤ → CliOpreateHanle Net → CliOpreateHanle Net
  set_client_socket socket h = record h { socket = socket }

  -- the statements behind EXIT, with the local copy `client_socket`
  unfoldable pub at_exit : ℤ → ℤ → CliOpreateHanle Net → CliOpreateHanle Net
  unfolding set_client_status set_client_socket
  at_exit client_socket ret h =
      if not (eq_ℤ ret sok)
      then set_client_socket (negsuc 0) (record (set_client_status client_disconnect h) {
        closed = h.closed ++ client_socket ∷ [];
      })
      else h

  -- what a round does with the attempt to receive; the value of `dealFun` is only logged.
  unfoldable pub after_attempt : ℤ → Attempt Net → CliOpreateHanle Net → CliOpreateHanle Net
  unfolding at_exit
  after_attempt client_socket (dealt m net) h =
      at_exit client_socket sok (record h { net = net; calls = h.calls ++ m ∷ [] })
  after_attempt client_socket (bad_head net) h = at_exit client_socket sok (record h { net = net })
  after_attempt client_socket (lost ret net) h = at_exit client_socket ret (record h { net = net })

  -- the statements behind the loop that concern the socket
  unfoldable pub leave : ℤ → CliOpreateHanle Net → Thread Net
  leave client_socket h = ended (record h { closed = h.closed ++ client_socket ∷ [] })

module _ {Net : Type 0} (sock : Sock Net) where
  -- the loop; `stars` is what get_server_status says at each round.
  unfoldable pub process_loop :
      ℕ → (ℤ → Option (List ℕ)) → ℤ → List ServerStatus → CliOpreateHanle Net → Option (Thread Net)
  unfolding after_attempt leave
  process_loop fuel mem_alloc client_socket [] h = some (running h)
  process_loop fuel mem_alloc client_socket (star ∷ stars) h =
      let rest = process_loop fuel mem_alloc client_socket stars in
      if is_connect h.status && is_star star
      then elim (recv_msg sock fuel mem_alloc client_socket h.net) [
        | none ↦ none
        | some a ↦ rest (after_attempt client_socket a h)
      ]
      else some (leave client_socket h)

  -- OSA_processClient_thread, once its mutex is made
  unfoldable pub process_client :
      ℕ → (ℤ → Option (List ℕ)) → List ServerStatus → CliOpreateHanle Net → Option (Thread Net)
  unfolding process_loop set_client_status
  process_client fuel mem_alloc stars h =
      let h' = set_client_status client_connect h in
      process_loop fuel mem_alloc h'.socket stars
        (if ltb_ℤ h'.socket (pos 3) then set_client_status client_disconnect h' else h')

  -- OSA_server_sendMsg; `none` is NULL.
  unfoldable pub server_send_msg :
      ℕ
      → Option (CliOpreateHanle Net)
      → Option (List ℕ)
      → (n_len code : ℤ) → Option (ℤ × Option (CliOpreateHanle Net))
  unfolding send_msg
  server_send_msg fuel none message n_len code = some (negsuc 0, none)
  server_send_msg fuel (some h) message n_len code =
      elim (send_msg sock fuel false h.socket message n_len code h.net) [
        | none ↦ none
        | some (ret, net) ↦ some (ret, some (record h { net = net }))
      ]
