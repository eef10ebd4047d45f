-- ===== src/Communication/Stream/Sender/Sends.antt =====
-- A round of the thread of communication/osa_communication.c that sends frames to a client, on a
-- connection that always takes something.
use osa_base.Base.{
  ℕ, suc, ◌<◌, ◌≤◌, ◌≡◌, sym, ap, ap₂, ◌∙◌, subst, true, false, Option, none, some, List, [], ◌∷◌,
  ◌++◌, append_assoc, get_elem?, set, length, take, take_all, arith, ℤ, pos, negsuc, sok, ltb_ℤ,
  not, ◌&&◌,
}
use osa_base.Base.Count.{one_if, eq_ℤ_self, erase, count}
use osa_base.Monitor.{returned, timeout_forever}
use osa_base.Ring.{put_cell, drop_cell}
use osa_base.Ring.Fifo.{contents}
use osa_base.Que.Waiting.{put_now, get_now}
use osa_base.Socket.{Sock, tcp_snd_nonblock_fd}
use osa_base.Socket.Open.{Open, snd_open}
use osa_base.Buf.{BufHndl, full_at, empty_at, get_full, put_empty}
use osa_base.Buf.Pool.{in_range, Conserved}
use osa_base.Buf.Pool.Moves.{drop_cell-Took, put_cell-Gave, after_take_f, after_give_e}
use osa_base.Buf.Pool.Safety.{held-in_range, in_guard}
use osa_base.Communication.{is_star}
use osa_base.Communication.Head.{FrameHead}
use osa_base.Communication.Stream.{BufInfo, net_send_buf, store_info}
use osa_base.Communication.Stream.Wire.{bytes_in, frame_wire}
use osa_base.Communication.Stream.Sender.{
  StreamClient, Others, goes, free_data, give_back, send_frame, stream_round,
}

-- Nobody touches the pool between OSA_bufPutEmpty and the release of the data, and the server runs.
pub record Quiet {R : Type 0} (others : Others R) : Type 0 where
  pub runs : is_star others.star ≡ true
  pub alone : (h : BufHndl (BufInfo R)) → others.between h ≡ h

module _ {R : Type 0} where
  pub freed :
      (k : ℕ) (info : BufInfo R) (h : BufHndl (BufInfo R))
      → get_elem? h.buf_info k ≡ some info
      → free_data (pos k) h
        ≡ some (record h { buf_info = set h.buf_info k (record info { frame_data = none }) })
  unfolding free_data
  freed k info h e = rw (free_data, e, store_info, e)

module _ {R Net : Type 0} (sock : Sock Net) (fuel head_size fd n : ℕ)
    (head_bytes : FrameHead R → List ℕ) where
  -- what is asked of the bytes of a head, the socket and the fuel
  pub record Ready : Type 0 where
    pub always : Open sock
    pub sized : (h : FrameHead R) → length (head_bytes h) ≡ suc head_size
    pub usable : 3 ≤ fd
    pub rounds : suc head_size < fuel

  -- A frame that is not empty, and has its data.
  pub record Sendable (info : BufInfo R) : Type 0 where
    pub pred : ℕ
    pub data_of : List ℕ
    pub size : info.head.n_frame_length ≡ suc pred
    pub has : info.frame_data ≡ some data_of
    pub fits : suc pred ≤ length data_of
    pub fueled : suc pred < fuel

  net_send_runs :
      (info : BufInfo R) (data_of : List ℕ) (net net₁ net₂ : Net) (sent₁ sent₂ : Option ℤ)
      → ltb_ℤ (pos fd) (pos 3) ≡ false
      → info.frame_data ≡ some data_of
      → tcp_snd_nonblock_fd sock fuel
          (pos fd)
          (some (head_bytes info.head))
          (some (pos (length (head_bytes info.head))))
          net
        ≡ some (sok, sent₁, net₁)
      → tcp_snd_nonblock_fd sock fuel
          (pos fd)
          (some data_of)
          (some (pos info.head.n_frame_length))
          net₁
        ≡ some (sok, sent₂, net₂)
      → net_send_buf sock fuel head_bytes (pos fd) info net ≡ some (pos 0, net₂)
  unfolding net_send_buf
  net_send_runs info data_of net net₁ net₂ sent₁ sent₂ low has e f = rw (has, low, e, f)

  pub net_send_open :
      (info : BufInfo R) (net : Net)
      → Ready
      → Sendable info
      → (net' : Net) × (net_send_buf sock fuel head_bytes (pos fd) info net ≡ some (pos 0, net'))
        × (sock.sent net' ≡ sock.sent net ++ frame_wire head_bytes info)
  net_send_open info net ready s =
      let head = head_bytes info.head in
      let len : length head ≡ suc head_size = ready.sized info.head in
      let r : 3 ≤ fd = ready.usable in
      let low : ltb_ℤ (pos fd) (pos 3) ≡ false = ground arith in
      let (net₁, run₁, sent₁) =
        snd_open sock ready.always fuel fd head_size head net (omega (arith, len)) ready.rounds in
      let (net₂, run₂, sent₂) =
        snd_open sock ready.always fuel fd s.pred s.data_of net₁ s.fits s.fueled in
      let whole : take (suc head_size) head ≡ head =
        ap (λ k. take k head) (sym len) ∙ take_all head in
      (
        net₂,
        net_send_runs info s.data_of net net₁ net₂ (some (pos (suc head_size)))
            (some (pos (suc s.pred))) low s.has
            (ap (λ k. tcp_snd_nonblock_fd sock fuel (pos fd) (some head) (some (pos k)) net) len
              ∙ run₁)
            (ap (λ k. tcp_snd_nonblock_fd sock fuel (pos fd) (some s.data_of) (some (pos k)) net₁)
                s.size
              ∙ run₂),
        sent₂
            ∙ ap (λ l. l ++ take (suc s.pred) s.data_of)
                (sent₁ ∙ ap (λ l. sock.sent net ++ l) whole)
            ∙ append_assoc (sock.sent net) head (take (suc s.pred) s.data_of)
            ∙ ap₂ (λ k d. sock.sent net ++ (head ++ take k (bytes_in d))) (sym s.size) (sym s.has),
      )

  -- the pool when the frame in buffer `k`, the oldest of the full ones, has been sent
  abbrev pub sent_pool : ℕ → BufInfo R → BufHndl (BufInfo R) → BufHndl (BufInfo R)
  sent_pool k info h = record h {
    full_que = drop_cell h.full_que;
    empty_que = put_cell (pos k) h.empty_que;
    buf_info = set h.buf_info k (record info { frame_data = none });
  }

  -- The oldest of the full buffers is `k`, it has the frame `info`, and no thread holds a buffer.
  pub record Next (k : ℕ) (info : BufInfo R) (c : StreamClient R Net) : Type 0 where
    pub own : Conserved n (record { hndl = c.pool; held = [] })
    pub room : n ≤ length c.pool.buf_info
    pub some_full : 0 < c.pool.full_que.count
    pub oldest : get_elem? c.pool.full_que.queue c.pool.full_que.cur_rd ≡ some (pos k)
    pub first : contents c.pool.full_que ≡ pos k ∷ contents (drop_cell c.pool.full_que)
    pub frame : get_elem? c.pool.buf_info k ≡ some info
    pub socket : c.client.socket ≡ pos fd

  Next-taken :
      {k : ℕ} {info : BufInfo R} {c : StreamClient R Net}
      → Next k info c
      → Conserved n (record {
        hndl = record c.pool { full_que = drop_cell c.pool.full_que };
        held = pos k ∷ [];
      })
  Next-taken {k} {info} {c} x =
      after_take_f x.own (drop_cell-Took x.own.valid_f x.some_full x.first)

  -- the pool when the number has been given back
  abbrev pub given_pool : ℕ → BufHndl (BufInfo R) → BufHndl (BufInfo R)
  given_pool k h = record h {
    full_que = drop_cell h.full_que;
    empty_que = put_cell (pos k) h.empty_que;
  }

  -- There is room among the empty ones, of which `k` then is the newest.
  pub Next-room :
      {k : ℕ} {info : BufInfo R} {c : StreamClient R Net}
      → Next k info c
      → c.pool.empty_que.count < c.pool.empty_que.len
  Next-room x = omega (arith, (Next-taken x).total, x.own.len_e)

  pub given-Conserved :
      {k : ℕ} {info : BufInfo R} {c : StreamClient R Net}
      → Next k info c
      → Conserved n (record { hndl = given_pool k c.pool; held = [] })
  given-Conserved {k} {info} {c} x =
      let c' = Next-taken x in
      let mine : 0 < count (pos k) (pos k ∷ []) = omega (arith, ap one_if (eq_ℤ_self (pos k))) in
      let none_left : erase (pos k) (pos k ∷ []) ≡ [] = rw (eq_ℤ_self (pos k)) in
      subst (λ xs. Conserved n (record { hndl = given_pool k c.pool; held = xs })) none_left
        (after_give_e c' (pos k) mine (put_cell-Gave (pos k) c'.valid_e (Next-room x)))

  pub Next-Conserved :
      {k : ℕ} {info : BufInfo R} {c : StreamClient R Net}
      → Next k info c
      → Conserved n (record { hndl = sent_pool k info c.pool; held = [] })
  Next-Conserved {k} {info} {c} x =
      let g = given-Conserved x in
      record {
        valid_e = g.valid_e;
        valid_f = g.valid_f;
        len_e = g.len_e;
        len_f = g.len_f;
        num = g.num;
        total = g.total;
        each = g.each;
      }

  taken_now :
      {k : ℕ} {info : BufInfo R} {c : StreamClient R Net}
      (wakes : List (BufHndl (BufInfo R) → BufHndl (BufInfo R)))
      → Next k info c
      → get_full false false timeout_forever wakes c.pool
        ≡ returned sok (some (pos k)) (record c.pool { full_que = drop_cell c.pool.full_que }) wakes
  unfolding get_full
  taken_now {k} {info} {c} wakes x =
      rw (get_now full_at true timeout_forever wakes c.pool x.some_full, x.oldest)

  Next-in_range :
      {k : ℕ} {info : BufInfo R} {c : StreamClient R Net}
      → Next k info c
      → in_range n (pos k) ≡ true
  Next-in_range {k} x =
      held-in_range (pos k) (Next-taken x) (omega (arith, ap one_if (eq_ℤ_self (pos k))))

  given_now :
      {k : ℕ} {info : BufInfo R} {c : StreamClient R Net}
      (wakes : List (BufHndl (BufInfo R) → BufHndl (BufInfo R)))
      → Next k info c
      → put_empty false (pos k) wakes (record c.pool { full_que = drop_cell c.pool.full_que })
        ≡ returned sok tt (given_pool k c.pool) wakes
  unfolding put_empty
  given_now {k} {info} {c} wakes x =
      let taken = record c.pool { full_que = drop_cell c.pool.full_que } in
      rw (
        in_guard n (pos k) c.pool.num_buf (Next-in_range x) x.own.num,
        put_now empty_at (pos k) timeout_forever wakes taken (Next-room x),
      )

  -- A round whose frame is sent, when the others have made `h` of the pool before the data are freed.
  pub round_sends :
      (others : Others R) (buf_id : ℤ) (k : ℕ) (info late : BufInfo R) (c : StreamClient R Net)
      (net : Net) (h : BufHndl (BufInfo R))
      → Next k info c
      → others.between (given_pool k c.pool) ≡ h
      → get_elem? h.buf_info k ≡ some late
      → net_send_buf sock fuel head_bytes (pos fd) info c.client.net ≡ some (pos 0, net)
      → stream_round sock fuel head_bytes (pos fd) (pos n) others buf_id c
        ≡ goes (pos k) (record {
          client = record c.client { net = net };
          pool = record h { buf_info = set h.buf_info k (record late { frame_data = none }) };
        })
  unfolding stream_round send_frame give_back
  round_sends others buf_id k info late c net h x after_others has run =
      let r = Next-in_range x in
      let inside : (ltb_ℤ (negsuc 0) (pos k) && not (ltb_ℤ (pos n) (pos k))) ≡ true =
        ground arith in
      rw (
        stream_round,
        taken_now others.wakes x,
        send_frame,
        inside,
        x.frame,
        ap (λ s. net_send_buf sock fuel head_bytes s info c.client.net) x.socket ∙ run,
        give_back,
        given_now others.put_wakes x,
        ap (free_data (pos k)) after_others ∙ freed k late h has,
      )
