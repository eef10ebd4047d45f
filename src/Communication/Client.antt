-- ===== src/Communication/Client.antt =====
-- The client of communication/osa_communication.c: OSA_client_processThr where `client_type` is
-- MSG_TYPE, from REPEAT_CONNECT on, and OSA_client_sendMsg.
-- A handle is read and written under `mutex_handle`, one access at a time.
pub mod Steps
pub mod Visit
pub mod Reconnect
pub mod Sockets
pub mod Stays
pub mod Destroyed
mod Tests
use osa_base.Base.{
  ℕ, Bool, true, false, not, ◌&&◌, Option, none, some, List, [], ◌∷◌, ◌++◌, if◌then◌else◌, ℤ, pos,
  negsuc, sok, efail, eq_ℤ, ltb_ℤ,
}
use osa_base.Socket.{Sock}
use osa_base.Socket.Options.{connet_block_fd}
use osa_base.Communication.{
  ClientStatus, client_disconnect, client_connect, client_abor, is_connect,
}
use osa_base.Communication.Message.{CallbackMsg, Attempt, dealt, bad_head, lost, recv_msg, send_msg}

-- the part of OSA_ClientHandle_t that changes
pub record ClientHandle : Type 0 where
  pub client_socket : ℤ
  pub client_status : ClientStatus

-- where the thread is: at REPEAT_CONNECT, at the test of its loop, or returned
pub data Place : Type 0 where
  repeat_connect in_loop returned : Place

-- The thread: its place, its handle, its variable `client_socket` and the connection behind it; the
-- sockets that it has made, those that it has given to close, and what it has given to `msgFun`.
pub record Client (Net : Type 0) : Type 0 where
  pub place : Place
  pub handle : ClientHandle
  pub socket : ℤ
  pub net : Net
  pub made : List ℤ
  pub closed : List ℤ
  pub calls : List CallbackMsg

-- What the system and the other threads do about a step: what socket and connect return, with the
-- connection that there is then, and whether OSA_client_destory has set the status before the test
-- of the loop.
pub record Around (Net : Type 0) : Type 0 where
  pub socket : ℤ
  pub connected : ℤ
  pub net : Net
  pub destroyed : Bool

unfoldable pub set_re_client_status : ClientStatus → ClientHandle → ClientHandle
set_re_client_status status h = record h { client_status = status }

unfoldable pub set_re_client_socket : ℤ → ClientHandle → ClientHandle
set_re_client_socket socket h = record h { client_socket = socket }

-- the handle when OSA_client_destory may have set its status
unfoldable pub handle_now : Bool → ClientHandle → ClientHandle
unfolding set_re_client_status
handle_now destroyed h = if destroyed then set_re_client_status client_disconnect h else h

module _ {Net : Type 0} where
  -- the statements from REPEAT_CONNECT to the call of socket
  unfoldable pub renew : Around Net → Client Net → Client Net
  renew around c = record c {
    handle = record c.handle { client_socket = negsuc 0 };
    socket = around.socket;
    net = around.net;
    made = if ltb_ℤ around.socket (pos 0) then c.made else c.made ++ around.socket ∷ [];
    closed = if ltb_ℤ (pos 0) c.socket then c.closed ++ c.socket ∷ [] else c.closed;
  }

  -- the statements from the tests of a new socket to the loop
  unfoldable pub connect : (recon_flag server_port connected : ℤ) → Client Net → Client Net
  unfolding connet_block_fd set_re_client_status set_re_client_socket
  connect recon_flag server_port connected c =
      if ltb_ℤ c.socket (pos 3) && eq_ℤ recon_flag (pos 1)
      then c
      else if not (eq_ℤ (connet_block_fd c.socket server_port connected) sok)
          && eq_ℤ recon_flag (pos 1)
      then c
      else record c {
        place = in_loop;
        handle =
            set_re_client_socket c.socket
              (set_re_client_status client_connect (record c.handle { client_socket = c.socket }));
      }

  -- the statements behind EXIT
  unfoldable pub client_exit : (recon_flag ret : ℤ) → Client Net → Client Net
  unfolding set_re_client_socket
  client_exit recon_flag ret c =
      if not (eq_ℤ ret (pos 0)) && eq_ℤ recon_flag (pos 1)
      then record c { place = repeat_connect; handle = set_re_client_socket (negsuc 0) c.handle }
      else c

  -- what a round does with the attempt to receive; the value of `msgFun` is only logged.
  unfoldable pub client_attempt : (recon_flag : ℤ) → Attempt Net → Client Net → Client Net
  unfolding client_exit
  client_attempt recon_flag (dealt m net) c =
      client_exit recon_flag sok (record c { net = net; calls = c.calls ++ m ∷ [] })
  client_attempt recon_flag (bad_head net) c = client_exit recon_flag sok (record c { net = net })
  client_attempt recon_flag (lost ret net) c = client_exit recon_flag ret (record c { net = net })

  -- the statements behind the loop
  unfoldable pub client_leave : Client Net → Client Net
  unfolding set_re_client_status set_re_client_socket
  client_leave c = record c {
    place = returned;
    handle = set_re_client_status client_abor (set_re_client_socket (negsuc 0) c.handle);
    closed = c.closed ++ c.socket ∷ [];
  }

module _ {Net : Type 0} (sock : Sock Net) (fuel : ℕ) (mem_alloc : ℤ → Option (List ℕ))
    (recon_flag server_port : ℤ) where
  -- a round of the loop that finds the status CLIENT_CONNECT
  unfoldable pub client_round : Client Net → Option (Client Net)
  unfolding client_attempt
  client_round c = elim (recv_msg sock fuel mem_alloc c.socket c.net) [
    | none ↦ none
    | some a ↦ some (client_attempt recon_flag a c)
  ]

  -- one step of the thread
  unfoldable pub client_step : Around Net → Client Net → Option (Client Net)
  unfolding renew connect client_round client_leave handle_now
  client_step around c = elim c.place [
    | repeat_connect ↦ some (connect recon_flag server_port around.connected (renew around c))
    | in_loop ↦
        let c' = record c { handle = handle_now around.destroyed c.handle } in
        if is_connect c'.handle.client_status then client_round c' else some (client_leave c')
    | returned ↦ some c
  ]

  -- OSA_client_processThr from REPEAT_CONNECT on, as many steps as there are entries
  unfoldable pub client_process : List (Around Net) → Client Net → Option (Client Net)
  unfolding client_step
  client_process [] c = some c
  client_process (around ∷ rest) c = elim (client_step around c) [
    | none ↦ none
    | some c' ↦ client_process rest c'
  ]

module _ {Net : Type 0} (sock : Sock Net) where
  -- OSA_client_sendMsg; `none` is NULL.
  unfoldable pub client_send_msg :
      ℕ → Option ClientHandle → Option (List ℕ) → (n_len code : ℤ) → Net → Option (ℤ × Net)
  unfolding send_msg
  client_send_msg fuel none message n_len code net = some (negsuc 0, net)
  client_send_msg fuel (some h) message n_len code net =
      send_msg sock fuel false h.client_socket message n_len code net
