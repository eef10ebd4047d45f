-- ===== src/Socket/Options.antt =====
-- The functions of socket/osa_socket.c that make, accept, connect and set up a socket. What the calls
-- of the system return are arguments; the addresses only go to them.
use osa_base.Base.{not, ◌||◌, List, [], ◌∷◌, if◌then◌else◌, ℤ, pos, sok, efail, ltb_ℤ}

-- what OSA_createTcpFd leaves: its value, `*server_fd`, and the descriptors that it opened
pub record Created : Type 0 where
  pub status : ℤ
  pub server_fd : ℤ
  pub opened : List ℤ

-- OSA_createTcpFd, where socket returns `fd`, and setsockopt, bind and listen return the next three.
unfoldable pub create_tcp_fd : (port fd set_opt bound listening server_fd : ℤ) → Created
create_tcp_fd port fd set_opt bound listening server_fd =
    if not (ltb_ℤ (pos 0) port)
    then record { status = efail; server_fd = server_fd; opened = [] }
    else if ltb_ℤ fd (pos 0)
    then record { status = efail; server_fd = server_fd; opened = [] }
    else if ltb_ℤ set_opt (pos 0)
    then record { status = efail; server_fd = server_fd; opened = fd ∷ [] }
    else if ltb_ℤ bound (pos 0)
    then record { status = efail; server_fd = server_fd; opened = fd ∷ [] }
    else record { status = sok; server_fd = fd; opened = fd ∷ [] }

-- OSA_acceptNonblockFd, where select and accept return the last two
unfoldable pub accept_nonblock_fd : (fd ready accepted : ℤ) → ℤ
accept_nonblock_fd fd ready accepted =
    if ltb_ℤ fd (pos 3)
    then efail
    else if ltb_ℤ (pos 0) ready
    then if ltb_ℤ accepted (pos 0) then efail else accepted
    else efail

-- OSA_setSndTimeoutFd, where setsockopt returns `set_opt`
unfoldable pub set_snd_timeout_fd : (fd timeout_sec timeout_usec set_opt : ℤ) → ℤ
set_snd_timeout_fd fd timeout_sec timeout_usec set_opt =
    if ltb_ℤ fd (pos 0) || ltb_ℤ timeout_sec (pos 0) || ltb_ℤ timeout_usec (pos 0)
    then efail
    else if ltb_ℤ set_opt (pos 0)
    then efail
    else sok

-- OSA_setRevTimeoutFd, where setsockopt returns `set_opt`
unfoldable pub set_rev_timeout_fd : (fd timeout_sec timeout_usec set_opt : ℤ) → ℤ
set_rev_timeout_fd fd timeout_sec timeout_usec set_opt =
    if ltb_ℤ fd (pos 0) || ltb_ℤ timeout_sec (pos 0) || ltb_ℤ timeout_usec (pos 0)
    then efail
    else if ltb_ℤ set_opt (pos 0)
    then efail
    else sok

-- OSA_connetBlockFd with an address that is not NULL, where connect returns `connected`
unfoldable pub connet_block_fd : (fd serv_port connected : ℤ) → ℤ
connet_block_fd fd serv_port connected =
    if ltb_ℤ fd (pos 0) || ltb_ℤ serv_port (pos 1)
    then efail
    else if ltb_ℤ connected (pos 0)
    then efail
    else sok
