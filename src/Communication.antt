-- ===== src/Communication.antt =====
-- communication/osa_communication.c and communication/osa_communication.h: messages and frames over
-- connections (Socket), a server with a thread for each client, and a client that connects again.
pub mod Head
pub mod Message
pub mod Server
pub mod Client
pub mod Accept
pub mod Life
pub mod Heart
pub mod Stream
mod Tests
use osa_base.Base.{ℕ, Bool, true, false, ℤ, pos, negsuc}

-- Client_Status_t
pub data ClientStatus : Type 0 where
  client_disconnect client_connect client_abor : ClientStatus

-- Server_Staus_t
pub data ServerStatus : Type 0 where
  server_star server_stop server_abor : ServerStatus

-- OSA_ComType_t
pub data ComType : Type 0 where
  msg_type stream_type : ComType

abbrev pub max_recv : ℕ
max_recv = 4096

-- CMD_MSG_HEART
abbrev pub cmd_msg_heart : ℤ
cmd_msg_heart = pos 0x800

abbrev pub is_connect : ClientStatus → Bool
is_connect client_connect = true
is_connect client_disconnect = false
is_connect client_abor = false

abbrev pub is_star : ServerStatus → Bool
is_star server_star = true
is_star server_stop = false
is_star server_abor = false
