-- ===== src/Communication/Server/Dealing.antt =====
-- What the server's thread for a client of messages makes of the bytes that the client sends.
use osa_base.Base.{
  ℕ, suc, ◌+◌, ◌≤◌, ◌<◌, ◌≡◌, ◌≢◌, refl, sym, ap, ◌∙◌, true, false, ◌&&◌, Option, some, List, [],
  ◌∷◌, ◌++◌, append_assoc, append-nil, length, take, replicate, All, ℤ, pos, negsuc, sok, efail,
  eq_ℤ, ltb_ℤ, arith,
}
use osa_base.Socket.{Sock, bytes, Received, tcp_rcv_block_fd, rcv_loop, rcv_step}
use osa_base.Socket.Receive.{Prompt, rcv_all}
use osa_base.Communication.{
  client_disconnect, client_connect, ServerStatus, server_star, server_stop, is_connect, is_star,
}
use osa_base.Communication.Head.{head_of, check_msg_head, init_msg_head}
use osa_base.Communication.Head.Bytes.{IsInt}
use osa_base.Communication.Message.{
  head_len, head_for, CallbackMsg, Attempt, bad_head, lost, recv_msg, recv_load,
}
use osa_base.Communication.Message.Exchange.{wire, take_whole, recv_msg-wire}
use osa_base.Communication.Server.{
  CliOpreateHanle, ended, at_exit, after_attempt, leave, process_loop, process_client,
  set_client_status, set_client_socket,
}

-- a message: its code, and its bytes, of which there is one at least
pub record Message : Type 0 where
  pub code : ℤ
  pub first : ℕ
  pub rest : List ℕ

abbrev pub text : Message → List ℕ
text m = m.first ∷ m.rest

-- the messages on the wire, one behind the other
abbrev pub wires : List Message → List ℕ → List ℕ
wires [] more = more
wires (m ∷ ms) more = wire (length m.rest) m.code (text m) ++ wires ms more

-- what a callback can read: the code, and as many bytes as the head says
abbrev pub length_of : ℤ → ℕ
length_of (pos n) = n
length_of (negsuc n) = 0

abbrev pub read_by : CallbackMsg → ℤ × List ℕ
read_by m = (m.msg_head.msg_code, take (length_of m.msg_head.load_len) m.recv_value)

abbrev pub reads : List CallbackMsg → List (ℤ × List ℕ)
reads [] = []
reads (m ∷ ms) = read_by m ∷ reads ms

abbrev pub meant : List Message → List (ℤ × List ℕ)
meant [] = []
meant (m ∷ ms) = (m.code, text m) ∷ meant ms

pub reads-append : (xs ys : List CallbackMsg) → reads (xs ++ ys) ≡ reads xs ++ reads ys
reads-append [] ys = refl
reads-append (x ∷ xs) ys = ap (λ l. read_by x ∷ l) (reads-append xs ys)

-- A message fits: its code is an `int`, and its length one that the sender can count, the loops can
-- read and the memory can hold.
pub record Fits (fuel : ℕ) (mem_alloc : ℤ → Option (List ℕ)) (m : Message) : Type 0 where
  pub code_in : IsInt m.code
  pub int : suc (length m.rest) < 2147483648
  pub rounds : length m.rest + 23 < fuel
  pub block : List ℕ
  pub alloc : mem_alloc (pos (suc (length m.rest))) ≡ some block
  pub room : suc (length m.rest) ≤ length block

module _ {Net : Type 0} (sock : Sock Net) (fuel fd : ℕ) (mem_alloc : ℤ → Option (List ℕ)) where
  bad_attempt :
      (net : Net) {r : Received Net}
      → tcp_rcv_block_fd sock fuel (pos fd) (some (replicate head_len 0)) (pos head_len) net
        ≡ some r
      → r.status ≡ sok
      → check_msg_head (some (head_of r.buf)) ≢ pos 0
      → recv_msg sock fuel mem_alloc (pos fd) net ≡ some (bad_head r.net)
  unfolding recv_msg recv_load
  bad_attempt net {r} q s bad =
      let t : eq_ℤ (check_msg_head (some (head_of r.buf))) (pos 0) ≡ false = ground arith in
      rw (q, s, t)

  -- one round of the loop
  one_round :
      (stars : List ServerStatus) (h : CliOpreateHanle Net) {a : Attempt Net}
      → h.status ≡ client_connect
      → recv_msg sock fuel mem_alloc (pos fd) h.net ≡ some a
      → process_loop sock fuel mem_alloc (pos fd) (server_star ∷ stars) h
        ≡ process_loop sock fuel mem_alloc (pos fd) stars (after_attempt (pos fd) a h)
  unfolding process_loop
  one_round stars h c q =
      let t : is_connect h.status && is_star server_star ≡ true =
        ap (λ s. is_connect s && is_star server_star) c in
      rw (t, q)

  -- one round at the front of the wire
  deal_one :
      (m : Message) (more : List ℕ) (stars : List ServerStatus) (h : CliOpreateHanle Net)
      → Prompt sock
      → Fits fuel mem_alloc m
      → h.status ≡ client_connect
      → sock.incoming h.net ≡ wire (length m.rest) m.code (text m) ++ more
      → (h' : CliOpreateHanle Net) × (process_loop sock fuel mem_alloc
            (pos fd)
            (server_star ∷ stars)
            h
          ≡ process_loop sock fuel mem_alloc (pos fd) stars h')
        × (h'.status ≡ client_connect)
        × (sock.incoming h'.net ≡ more)
        × (h'.closed ≡ h.closed)
        × (reads h'.calls ≡ reads h.calls ++ (m.code, text m) ∷ [])
  unfolding after_attempt at_exit init_msg_head
  deal_one m more stars h prompt f c e =
      let (buf, net', q, t, i) =
        recv_msg-wire sock fuel fd (length m.rest) m.code (text m) h.net mem_alloc f.block more
          prompt (omega arith) f.int f.code_in f.alloc f.room f.rounds e in
      let msg : CallbackMsg = record {
        msg_head = head_for (pos (suc (length m.rest))) m.code;
        recv_value = buf;
      } in
      let read : take (suc (length m.rest)) buf ≡ text m = t ∙ take_whole (text m) refl in
      (
        record h { net = net'; calls = h.calls ++ msg ∷ [] },
        one_round stars h c q,
        c,
        i,
        refl,
        reads-append h.calls (msg ∷ []) ∙ ap (λ b. reads h.calls ++ (m.code, b) ∷ []) read,
      )

  abbrev pub all_star : List Message → List ServerStatus → List ServerStatus
  all_star [] stars = stars
  all_star (m ∷ ms) stars = server_star ∷ all_star ms stars

  deal_each :
      (ms : List Message) (more : List ℕ) (stars : List ServerStatus) (h : CliOpreateHanle Net)
      → Prompt sock
      → All (Fits fuel mem_alloc) ms
      → h.status ≡ client_connect
      → sock.incoming h.net ≡ wires ms more
      → (h' : CliOpreateHanle Net) × (process_loop sock fuel mem_alloc
            (pos fd)
            (all_star ms (server_stop ∷ stars))
            h
          ≡ some (leave (pos fd) h'))
        × (sock.incoming h'.net ≡ more)
        × (h'.closed ≡ h.closed)
        × (reads h'.calls ≡ reads h.calls ++ meant ms)
  deal_each [] more stars h prompt f c e =
      (h, unfold process_loop in rw c, e, refl, sym (append-nil (reads h.calls)))
  deal_each (m ∷ ms) more stars h prompt (fm, fms) c e =
      let (h₁, q, c₁, e₁, d₁, r₁) =
        deal_one m (wires ms more) (all_star ms (server_stop ∷ stars)) h prompt fm c e in
      let (h', q', e', d', r') = deal_each ms more stars h₁ prompt fms c₁ e₁ in
      (
        h',
        q ∙ q',
        e',
        d' ∙ d₁,
        r'
            ∙ ap (λ l. l ++ meant ms) r₁
            ∙ append_assoc (reads h.calls) ((m.code, text m) ∷ []) (meant ms),
      )

  -- A server's thread whose client sends some messages that fit, on a connection that gives what it
  -- has, hands each of them to the callback, in order, with its code and its bytes, and nothing else;
  -- when the server then stops, the thread returns and has closed its socket once.
  pub process_client-meant :
      (ms : List Message) (more : List ℕ) (stars : List ServerStatus) (h : CliOpreateHanle Net)
      → Prompt sock
      → 3 ≤ fd
      → h.socket ≡ pos fd
      → All (Fits fuel mem_alloc) ms
      → sock.incoming h.net ≡ wires ms more
      → (h' : CliOpreateHanle Net) × (process_client sock fuel mem_alloc
            (all_star ms (server_stop ∷ stars))
            h
          ≡ some (ended h'))
        × (sock.incoming h'.net ≡ more)
        × (h'.closed ≡ h.closed ++ pos fd ∷ [])
        × (reads h'.calls ≡ reads h.calls ++ meant ms)
  unfolding process_client leave
  process_client-meant ms more stars h prompt usable s f e =
      let t : ltb_ℤ (pos fd) (pos 3) ≡ false = ground arith in
      let (h', q, i, d, r) =
        deal_each ms more stars (record h { status = client_connect; socket = pos fd }) prompt f
          refl e in
      (
        record h' { closed = h'.closed ++ pos fd ∷ [] },
        rw (s, t) q,
        i,
        ap (λ l. l ++ pos fd ∷ []) d,
        r,
      )

  pub closed_attempt :
      (k : ℕ) (net : Net)
      → (sock.recv head_len net).0 ≡ bytes []
      → recv_msg sock (suc k) mem_alloc (pos fd) net
        ≡ some (lost efail ((sock.recv head_len net).1))
  unfolding recv_msg recv_load tcp_rcv_block_fd rcv_loop rcv_step
  closed_attempt k net e = let t : ltb_ℤ (pos fd) (pos 0) ≡ false = ground arith in rw (t, e)

  -- When the peer has closed the connection, the thread closes the descriptor when it notices, and
  -- once more before it returns, when another thread may have it.
  pub process_loop-closed :
      (k : ℕ) (star : ServerStatus) (stars : List ServerStatus) (h : CliOpreateHanle Net)
      → fuel ≡ suc k
      → h.status ≡ client_connect
      → (sock.recv head_len h.net).0 ≡ bytes []
      → (h' : CliOpreateHanle Net) × (process_loop sock fuel mem_alloc
            (pos fd)
            (server_star ∷ star ∷ stars)
            h
          ≡ some (ended h'))
        × (h'.closed ≡ h.closed ++ pos fd ∷ pos fd ∷ [])
        × (h'.calls ≡ h.calls)
  unfolding after_attempt at_exit set_client_status set_client_socket leave
  process_loop-closed k star stars h f c e =
      let net = (sock.recv head_len h.net).1 in
      let q : recv_msg sock fuel mem_alloc (pos fd) h.net ≡ some (lost efail net) =
        ap (λ n. recv_msg sock n mem_alloc (pos fd) h.net) f ∙ closed_attempt k h.net e in
      (
        record h {
          net = net;
          status = client_disconnect;
          socket = negsuc 0;
          closed = (h.closed ++ pos fd ∷ []) ++ pos fd ∷ [];
        },
        one_round (star ∷ stars) h c q ∙ unfold process_loop in refl,
        append_assoc h.closed (pos fd ∷ []) (pos fd ∷ []),
        refl,
      )

  -- Sixteen bytes that are no head are dropped: nothing is dealt with, the client stays connected,
  -- and the thread takes the bytes behind them for a head.
  pub process_loop-bad :
      (xs more : List ℕ) (stars : List ServerStatus) (h : CliOpreateHanle Net)
      → Prompt sock
      → 18 < fuel
      → h.status ≡ client_connect
      → length xs ≡ head_len
      → check_msg_head (some (head_of xs)) ≢ pos 0
      → sock.incoming h.net ≡ xs ++ more
      → (net' : Net) × (process_loop sock fuel mem_alloc (pos fd) (server_star ∷ stars) h
          ≡ process_loop sock fuel mem_alloc (pos fd) stars (record h { net = net' }))
        × (sock.incoming net' ≡ more)
  unfolding after_attempt at_exit
  process_loop-bad xs more stars h prompt enough c size bad e =
      let (r, q, s, t, i, l) =
        rcv_all sock fuel fd 15 (replicate head_len 0) h.net xs more prompt size (omega arith) e
          (omega arith) in
      let same : r.buf ≡ xs = sym (take_whole r.buf l) ∙ t in
      let a : recv_msg sock fuel mem_alloc (pos fd) h.net ≡ some (bad_head r.net) =
        bad_attempt h.net q s
          (λ z. bad (ap (λ b. check_msg_head (some (head_of b))) (sym same) ∙ z)) in
      (r.net, one_round stars h c a, i)
