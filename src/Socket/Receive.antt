-- ===== src/Socket/Receive.antt =====
-- What OSA_tcpRcvBlockFd of socket/osa_socket.c reads, and when it ends.
use osa_base.Base.{
  ℕ, zero, suc, ◌+◌, ◌-◌, ◌≤◌, ◌<◌, ◌≡◌, refl, sym, ap, ◌∙◌, false, Option, some, List, [], ◌∷◌,
  ◌++◌, append_assoc, ◌⊎◌, inl, inr, Bool-cases, ltb, length, take, length-append, append_cancel,
  some_eq, overlay, take-overlay, write_at, length-write_at, write_at_twice, pos, sok, efail, ltb_ℤ,
  arith,
}
use osa_base.Socket.{
  Sock, Recv, bytes, again, error, bytes_of, Received, rcv_step, rcv_loop, tcp_rcv_block_fd,
}

module _ {Net : Type 0} (sock : Sock Net) where
  -- What a call leaves that began with `buf` and the stream `stream`: it has read the bytes `got` from
  -- the front of the stream and written them to the front of the buffer, `len` of them exactly if
  -- the status is `OSA_SOK`.
  pub record Gathered (stream buf : List ℕ) (len : ℕ) (r : Received Net) : Type 0 where
    pub got : List ℕ
    pub counted : r.read_len ≡ some (length got)
    pub placed : r.buf ≡ write_at 0 got buf
    pub read : stream ≡ got ++ sock.incoming r.net
    pub ends : ((r.status ≡ sok) × (length got ≡ len)) ⊎ ((r.status ≡ efail) × (length got < len))

  -- the state of the loop after the bytes `got`
  record Midway (stream buf₀ got : List ℕ) (total : ℕ) (buf : List ℕ) (net : Net) : Type 0 where
    counted : length got ≡ total
    placed : buf ≡ write_at 0 got buf₀
    read : stream ≡ got ++ sock.incoming net

  module _ (stream buf₀ : List ℕ) (len : ℕ) where
    -- what a continuation of the loop does with `bound` rounds
    Goes : (ℕ → ℕ → List ℕ → Net → Option (Received Net)) → ℕ → Type 0
    Goes go bound =
        (t c : ℕ) (b : List ℕ) (n : Net) (got : List ℕ)
        → t ≤ len
        → c ≤ 2
        → Midway stream buf₀ got t b n
        → (len - t) + (2 - c) < bound
        → (r : Received Net) × (go t c b n ≡ some r) × Gathered stream buf₀ len r

    failed :
        (got : List ℕ) (total : ℕ) (b : List ℕ) (n : Net)
        → Midway stream buf₀ got total b n
        → total < len
        → Gathered stream buf₀ len
            (record { status = efail; read_len = some total; buf = b; net = n })
    failed got total b n m h = record {
      got = got;
      counted = ap some (sym m.counted);
      placed = m.placed;
      read = m.read;
      ends = inr (refl, omega (arith, m.counted));
    }

    -- one recv moves the loop on
    moved :
        (got bs : List ℕ) (total k : ℕ) (b : List ℕ) (n n' : Net)
        → Midway stream buf₀ got total b n
        → sock.incoming n ≡ bs ++ sock.incoming n'
        → k ≡ total + length bs
        → Midway stream buf₀ (got ++ bs) k (write_at total bs b) n'
    moved got bs total k b n n' m e q = record {
      counted = omega (arith, length-append got bs, m.counted);
      placed =
          ap (write_at total bs) m.placed
          ∙ write_at_twice 0 total got bs buf₀ (omega (arith, m.counted));
      read = m.read ∙ ap (λ l. got ++ l) e ∙ sym (append_assoc got bs (sock.incoming n'));
    }

    step-Gathered :
        (go : ℕ → ℕ → List ℕ → Net → Option (Received Net)) (bound total c : ℕ) (b : List ℕ)
        (got : List ℕ) (n : Net) (v : Recv) (n' : Net)
        → Goes go bound
        → total < len
        → c ≤ 2
        → Midway stream buf₀ got total b n
        → (len - total) + (2 - c) < suc bound
        → sock.incoming n ≡ bytes_of v ++ sock.incoming n'
        → length (bytes_of v) ≤ len - total
        → (r : Received Net) × (rcv_step sock go total c b (v, n') ≡ some r)
          × Gathered stream buf₀ len r
    unfolding rcv_step Goes
    step-Gathered go bound total c b got n (bytes []) n' goes h hc m hb e le = (
      record { status = efail; read_len = some total; buf = b; net = n' },
      refl,
      failed got total b n'
          (record { counted = m.counted; placed = m.placed; read = m.read ∙ ap (λ l. got ++ l) e })
          h,
    )
    step-Gathered go bound total c b got n (bytes (x ∷ xs)) n' goes h hc m hb e le =
        goes (total + suc (length xs)) c (write_at total (x ∷ xs) b) n' (got ++ x ∷ xs)
          (omega arith) hc (moved got (x ∷ xs) total (total + suc (length xs)) b n n' m e refl)
          (omega arith)
    step-Gathered go bound total c b got n again n' goes h hc m hb e le =
        let m' : Midway stream buf₀ got total b n' = record {
          counted = m.counted;
          placed = m.placed;
          read = m.read ∙ ap (λ l. got ++ l) e;
        } in
        elim (Bool-cases (ltb (c + 1) 3)) [
          | inl more ↦
              let lt : c + 1 < 3 = ground arith in
              rw more (goes total (c + 1) b n' got (omega arith) (omega arith) m' (omega arith))
          | inr last ↦ (
            record { status = efail; read_len = some total; buf = b; net = n' },
            rw last,
            failed got total b n' m' h,
          )
        ]
    step-Gathered go bound total c b got n error n' goes h hc m hb e le = (
      record { status = efail; read_len = some total; buf = b; net = n' },
      refl,
      failed got total b n'
          (record { counted = m.counted; placed = m.placed; read = m.read ∙ ap (λ l. got ++ l) e })
          h,
    )

    loop-Gathered : (fuel : ℕ) → Goes (rcv_loop sock fuel len) fuel
    unfolding rcv_loop Goes
    loop-Gathered zero t c b n got le hc m hb = absurd (omega arith)
    loop-Gathered (suc k) t c b n got le hc m hb = elim (Bool-cases (ltb t len)) [
      | inl more ↦
          let lt : t < len = ground arith in
          rw more (
            step-Gathered (rcv_loop sock k len) k t c b got n ((sock.recv (len - t) n).0)
              ((sock.recv (len - t) n).1) (loop-Gathered k) lt hc m hb
              (sock.recv_incoming (len - t) n) (sock.recv_le (len - t) n))
      | inr done ↦
          let z : t ≡ len = ground arith in
          (
            record { status = sok; read_len = some t; buf = b; net = n },
            rw done,
            record {
              got = got;
              counted = ap some (sym m.counted);
              placed = m.placed;
              read = m.read;
              ends = inl (refl, m.counted ∙ z);
            },
          )
    ]

  gathered_all :
      {stream buf : List ℕ} {len : ℕ} {r : Received Net} (g : Gathered stream buf len r)
      → r.status ≡ sok
      → length g.got ≡ len
  gathered_all g s = elim g.ends [ inl (a, b) ↦ b | inr (a, b) ↦ absurd (cc) ]

  -- OSA_tcpRcvBlockFd of `n + 1` bytes ends within `n + 4` rounds. It has read `k` bytes from the
  -- front of the stream and put them at the front of the buffer, `*readlen` is `k`, and the status is
  -- `OSA_SOK` if `k` is `n + 1` and `OSA_EFAIL` if it is less.
  pub rcv-Gathered :
      (fuel fd n : ℕ) (buf : List ℕ) (net : Net)
      → n + 3 < fuel
      → (r : Received Net) × (tcp_rcv_block_fd sock fuel (pos fd) (some buf) (pos (suc n)) net
          ≡ some r)
        × Gathered (sock.incoming net) buf (suc n) r
  unfolding tcp_rcv_block_fd Goes
  rcv-Gathered fuel fd n buf net enough =
      let (r, e, g) =
        loop-Gathered (sock.incoming net) buf (suc n) fuel 0 0 buf net [] (omega arith)
          (omega arith) (record { counted = refl; placed = refl; read = refl }) (omega arith) in
      let t : ltb_ℤ (pos fd) (pos 0) ≡ false = ground arith in (r, rw (t, e), g)

  -- The next read of a stream that has bytes gives at least one of them: a recv that waits is woken
  -- by data, and neither by a signal nor by the time limit of OSA_setRevTimeoutFd.
  unfoldable pub Prompt : Type 0
  Prompt =
      (n : ℕ) (net : Net)
      → 0 < n
      → 0 < length (sock.incoming net)
      → 0 < length (bytes_of ((sock.recv n net).0))

  prompt_step :
      (go : ℕ → ℕ → List ℕ → Net → Option (Received Net)) (t c : ℕ) (b : List ℕ) (v : Recv)
      (n : Net)
      → 0 < length (bytes_of v)
      → ((b' : List ℕ)
          → (r : Received Net) × (go (t + length (bytes_of v)) c b' n ≡ some r) × (r.status ≡ sok))
      → (r : Received Net) × (rcv_step sock go t c b (v, n) ≡ some r) × (r.status ≡ sok)
  unfolding rcv_step
  prompt_step go t c b (bytes []) n h goes = absurd (omega arith)
  prompt_step go t c b (bytes (x ∷ xs)) n h goes = goes (write_at t (x ∷ xs) b)
  prompt_step go t c b again n h goes = absurd (omega arith)
  prompt_step go t c b error n h goes = absurd (omega arith)

  prompt_sok :
      (fuel len t c : ℕ) (b : List ℕ) (n : Net)
      → Prompt
      → t ≤ len
      → len - t ≤ length (sock.incoming n)
      → len - t < fuel
      → (r : Received Net) × (rcv_loop sock fuel len t c b n ≡ some r) × (r.status ≡ sok)
  unfolding rcv_loop Prompt
  prompt_sok zero len t c b n prompt le full hb = absurd (omega arith)
  prompt_sok (suc k) len t c b n prompt le full hb = elim (Bool-cases (ltb t len)) [
    | inl more ↦
        let v = (sock.recv (len - t) n).0 in
        let n' = (sock.recv (len - t) n).1 in
        let lt : t < len = ground arith in
        let some_in : 0 < length (bytes_of v) = prompt (len - t) n (omega arith) (omega arith) in
        let fits = sock.recv_le (len - t) n in
        let all : length (sock.incoming n) ≡ length (bytes_of v) + length (sock.incoming n') =
          ap length (sock.recv_incoming (len - t) n)
          ∙ length-append (bytes_of v) (sock.incoming n') in
        rw more (
          prompt_step (rcv_loop sock k len) t c b v n' some_in (λ b'.
            prompt_sok k len (t + length (bytes_of v)) c b' n' prompt (omega arith) (omega arith)
              (omega arith)))
    | inr done ↦ (record { status = sok; read_len = some t; buf = b; net = n }, rw done, refl)
  ]

  -- On a connection that gives what it has, OSA_tcpRcvBlockFd of as many bytes as `xs` reads exactly
  -- `xs` off a stream that begins with it, into the front of a buffer that
  -- is large enough and keeps its length.
  pub rcv_all :
      (fuel fd n : ℕ) (buf : List ℕ) (net : Net) (xs more : List ℕ)
      → Prompt
      → length xs ≡ suc n
      → suc n ≤ length buf
      → sock.incoming net ≡ xs ++ more
      → n + 3 < fuel
      → (r : Received Net) × (tcp_rcv_block_fd sock fuel (pos fd) (some buf) (pos (suc n)) net
          ≡ some r)
        × (r.status ≡ sok)
        × (take (suc n) r.buf ≡ xs)
        × (sock.incoming r.net ≡ more)
        × (length r.buf ≡ length buf)
  unfolding tcp_rcv_block_fd Goes
  rcv_all fuel fd n buf net xs more prompt size fits e enough =
      let (r, q, g) =
        loop-Gathered (sock.incoming net) buf (suc n) fuel 0 0 buf net [] (omega arith)
          (omega arith) (record { counted = refl; placed = refl; read = refl }) (omega arith) in
      let whole : length (sock.incoming net) ≡ length xs + length more =
        ap length e ∙ length-append xs more in
      let (r', q', s') =
        prompt_sok fuel (suc n) 0 0 buf net prompt (omega arith) (omega arith) (omega arith) in
      let same : r' ≡ r = some_eq (sym q' ∙ q) in
      let all = gathered_all g (ap (λ x. x.status) (sym same) ∙ s') in
      let (x, y) = append_cancel g.got xs (sym g.read ∙ e) (all ∙ sym size) in
      let t : ltb_ℤ (pos fd) (pos 0) ≡ false = ground arith in
      (
        r,
        rw (t, q),
        ap (λ z. z.status) (sym same) ∙ s',
        ap (take (suc n)) (g.placed ∙ ap (λ l. overlay l buf) x)
            ∙ ap (λ k. take k (overlay xs buf)) (sym size)
            ∙ take-overlay xs buf (omega arith),
        y,
        ap length g.placed ∙ length-write_at 0 g.got buf,
      )
