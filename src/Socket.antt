-- ===== src/Socket.antt =====
-- socket/osa_socket.c: bytes over a connection. What the operating system does is the section's
-- parameter `Sock`: the three calls that the loops make, and what their manual pages promise.
-- `sent` are the bytes that the system has taken from the program, `incoming` those that the peer
-- has sent or will send and that the program has not read. The log functions carry no data.
pub mod Send
pub mod Receive
pub mod Open
pub mod Options
pub mod Loopback
mod Tests
use osa_base.Base.{
  ℕ, zero, suc, ◌+◌, ◌-◌, ◌≤◌, ◌≡◌, Bool, true, false, ◌||◌, Option, none, some, List, [], ◌∷◌,
  ◌++◌, if◌then◌else◌, ltb, length, take, drop, ℤ, pos, negsuc, sok, efail, ltb_ℤ, eq_ℤ, write_at,
}

-- What recv returns: some bytes, none at the end of the stream; -1 with `errno` one of EAGAIN,
-- EWOULDBLOCK and EINTR; or -1 with another.
pub data Recv : Type 0 where
  bytes : List ℕ → Recv
  again : Recv
  error : Recv

abbrev pub bytes_of : Recv → List ℕ
bytes_of (bytes bs) = bs
bytes_of again = []
bytes_of error = []

-- what select returns: its value, and whether the descriptor is in the set afterwards
pub record Selected (Net : Type 0) : Type 0 where
  pub ret : ℤ
  pub is_set : Bool
  pub net : Net

-- the number of bytes that a value of send or recv stands for
abbrev pub taken_by : ℤ → ℕ
taken_by (pos n) = n
taken_by (negsuc n) = 0

-- `select` is given whether the descriptor is in the set.
pub record Sock (Net : Type 0) : Type 0 where
  pub select : Bool → Net → Selected Net
  pub send : List ℕ → Net → ℤ × Net
  pub recv : ℕ → Net → Recv × Net
  pub sent : Net → List ℕ
  pub incoming : Net → List ℕ
  pub select_sent : (w : Bool) (net : Net) → sent ((select w net).net) ≡ sent net
  pub select_unset : (net : Net) → (select false net).is_set ≡ false
  pub select_idle : (net : Net) → ltb_ℤ (pos 0) ((select false net).ret) ≡ false
  pub select_expired :
      (w : Bool) (net : Net) → (select w net).ret ≡ pos 0 → (select w net).is_set ≡ false
  pub send_le : (bs : List ℕ) (net : Net) → taken_by ((send bs net).0) ≤ length bs
  pub send_sent :
      (bs : List ℕ) (net : Net)
      → sent ((send bs net).1) ≡ sent net ++ take (taken_by ((send bs net).0)) bs
  pub recv_le : (n : ℕ) (net : Net) → length (bytes_of ((recv n net).0)) ≤ n
  pub recv_incoming :
      (n : ℕ) (net : Net) → incoming net ≡ bytes_of ((recv n net).0) ++ incoming ((recv n net).1)

-- what OSA_tcpSndNonblockFd leaves: its value, `*SndLen`, and the connection
pub record Sent (Net : Type 0) : Type 0 where
  pub status : ℤ
  pub snd_len : ℤ
  pub net : Net

-- what OSA_tcpRcvBlockFd leaves: its value, `*readlen` if it was written, the buffer, the connection
pub record Received (Net : Type 0) : Type 0 where
  pub status : ℤ
  pub read_len : Option ℕ
  pub buf : List ℕ
  pub net : Net

module _ {Net : Type 0} (sock : Sock Net) where
  -- the branch with send, in the loop of OSA_tcpSndNonblockFd
  unfoldable pub snd_ready : (ℕ → Bool → Net → Option (Sent Net)) → ℕ → ℤ × Net → Option (Sent Net)
  snd_ready go total (pos zero, net) =
      some (record { status = efail; snd_len = pos total; net = net })
  snd_ready go total (pos (suc n), net) = go (total + suc n) true net
  snd_ready go total (negsuc n, net) =
      some (record { status = efail; snd_len = pos total; net = net })

  -- the branches on the value of select; `go` goes on with `total`, `try` and the set.
  unfoldable pub snd_selected :
      (ℕ → ℕ → Bool → Net → Option (Sent Net))
      → List ℕ
      → (len total try : ℕ) → ℤ
      → Bool
      → Net
      → Option (Sent Net)
  unfolding snd_ready
  snd_selected go buf len total try (negsuc n) is_set net =
      some (record { status = efail; snd_len = pos total; net = net })
  snd_selected go buf len total try (pos zero) is_set net =
      if ltb 5 try
      then some (record { status = efail; snd_len = pos total; net = net })
      else go total (try + 1) is_set net
  snd_selected go buf len total try (pos (suc n)) is_set net =
      if is_set
      then snd_ready (λ t w n'. go t try w n') total
          (sock.send (take (len - total) (drop total buf)) net)
      else some (record { status = efail; snd_len = pos total; net = net })

  -- the loop of OSA_tcpSndNonblockFd. `watched` says that `Fd` is in `SndSet`, which select
  -- overwrites; without fuel it is `none`.
  unfoldable pub snd_loop : ℕ → List ℕ → (len total try : ℕ) → Bool → Net → Option (Sent Net)
  unfolding snd_selected
  snd_loop zero buf len total try watched net = none
  snd_loop (suc k) buf len total try watched net =
      let go = snd_loop k buf len in
      let s = sock.select watched net in
      if ltb total len
      then snd_selected go buf len total try s.ret s.is_set s.net
      else some (record { status = sok; snd_len = pos total; net = net })

  -- OSA_tcpSndNonblockFd. The time limit only sets the `timeval` of select.
  unfoldable pub tcp_snd_nonblock_fd :
      ℕ → ℤ → Option (List ℕ) → Option ℤ → Net → Option (ℤ × Option ℤ × Net)
  unfolding snd_loop
  tcp_snd_nonblock_fd fuel fd none snd_len net = some (efail, snd_len, net)
  tcp_snd_nonblock_fd fuel fd (some buf) none net = some (efail, none, net)
  tcp_snd_nonblock_fd fuel fd (some buf) (some (negsuc n)) net = some (efail, some (negsuc n), net)
  tcp_snd_nonblock_fd fuel fd (some buf) (some (pos zero)) net = some (efail, some (pos zero), net)
  tcp_snd_nonblock_fd fuel fd (some buf) (some (pos (suc n))) net =
      if ltb_ℤ fd (pos 0)
      then some (efail, some (pos (suc n)), net)
      else elim (snd_loop fuel buf (suc n) 0 0 true net) [
        | none ↦ none
        | some r ↦ some (r.status, some r.snd_len, r.net)
      ]

  -- the branches on the value of recv; `go` goes on with `total`, the count of timeouts and `RcvBuf`.
  unfoldable pub rcv_step :
      (ℕ → ℕ → List ℕ → Net → Option (Received Net))
      → (total cnt : ℕ) → List ℕ
      → Recv × Net
      → Option (Received Net)
  rcv_step go total cnt buf (bytes [], net) =
      some (record { status = efail; read_len = some total; buf = buf; net = net })
  rcv_step go total cnt buf (bytes (b ∷ bs), net) =
      go (total + suc (length bs)) cnt (write_at total (b ∷ bs) buf) net
  rcv_step go total cnt buf (again, net) =
      if ltb (cnt + 1) 3
      then go total (cnt + 1) buf net
      else some (record { status = efail; read_len = some total; buf = buf; net = net })
  rcv_step go total cnt buf (error, net) =
      some (record { status = efail; read_len = some total; buf = buf; net = net })

  -- the loop of OSA_tcpRcvBlockFd
  unfoldable pub rcv_loop : ℕ → (len total cnt : ℕ) → List ℕ → Net → Option (Received Net)
  unfolding rcv_step
  rcv_loop zero len total cnt buf net = none
  rcv_loop (suc k) len total cnt buf net =
      let go = rcv_loop k len in
      if ltb total len
      then rcv_step go total cnt buf (sock.recv (len - total) net)
      else some (record { status = sok; read_len = some total; buf = buf; net = net })

  -- OSA_tcpRcvBlockFd; `readlen` is not NULL.
  unfoldable pub tcp_rcv_block_fd : ℕ → ℤ → Option (List ℕ) → ℤ → Net → Option (Received Net)
  unfolding rcv_loop
  tcp_rcv_block_fd fuel fd none rcv_len net =
      some (record { status = efail; read_len = none; buf = []; net = net })
  tcp_rcv_block_fd fuel fd (some buf) (negsuc n) net =
      some (record { status = efail; read_len = none; buf = buf; net = net })
  tcp_rcv_block_fd fuel fd (some buf) (pos zero) net =
      some (record { status = efail; read_len = none; buf = buf; net = net })
  tcp_rcv_block_fd fuel fd (some buf) (pos (suc n)) net =
      if ltb_ℤ fd (pos 0)
      then some (record { status = efail; read_len = none; buf = buf; net = net })
      else rcv_loop fuel (suc n) 0 0 buf net
