-- ===== src/Communication/Stream/Sender/Lost.antt =====
-- A frame that communication/osa_communication.c loses: the thread that sends frames gives a buffer back
-- before it frees the data in it.
use osa_base.Base.{
  ℕ, ◌<◌, ◌≡◌, refl, sym, ap, ◌∙◌, Option, none, some, List, [], ◌∷◌, ◌++◌, get_elem?, set,
  get_elem?-set_there, length, arith, ℤ, pos,
}
use osa_base.Monitor.{Outcome, returned, waiting, stopped}
use osa_base.Ring.{drop_cell}
use osa_base.Ring.Fifo.{contents, contents-put_cell, length-contents}
use osa_base.Socket.{Sock}
use osa_base.Buf.{BufHndl}
use osa_base.Communication.Head.{FrameHead}
use osa_base.Communication.Stream.{BufInfo, fill_buf}
use osa_base.Communication.Stream.Frames.{stored, fill_buf-stored}
use osa_base.Communication.Stream.Wire.{frame_wire}
use osa_base.Communication.Stream.Sender.{StreamClient, Others, goes, stream_round}
use osa_base.Communication.Stream.Sender.Sends.{
  Ready, Sendable, Next, given_pool, given-Conserved, Next-room, net_send_open, round_sends,
}

-- the state that a call leaves, however it ends
abbrev pub left_by : {A W : Type 0} → Outcome A W → W
left_by (returned s a w wakes) = w
left_by (waiting w) = w
left_by (stopped why w) = w

no_contents : (xs : List ℤ) → length xs ≡ 0 → xs ≡ []
no_contents [] e = refl
no_contents (x ∷ xs) e = absurd (omega arith)

module _ {R Net : Type 0} (sock : Sock Net) (fuel head_size fd n : ℕ)
    (head_bytes : FrameHead R → List ℕ) where
  -- On a connection that always takes something, where all other buffers of a client are full and
  -- the server hands in the frame `late` after a sent frame's buffer has been given back and before its
  -- data are freed: the thread frees the data of the new frame in place of those of the old one. Its
  -- buffer is the newest of the full ones, without data.
  pub late_frame-freed :
      (mem_alloc : ℕ → Option (List ℕ)) (block bytes : List ℕ) (others : Others R) (buf_id : ℤ)
      (k : ℕ) (info late : BufInfo R) (c : StreamClient R Net)
      → Ready sock fuel head_size fd n head_bytes
      → Sendable sock fuel head_size fd n head_bytes info
      → Next sock fuel head_size fd n head_bytes k info c
      → c.pool.empty_que.count ≡ 0
      → mem_alloc late.head.n_frame_length ≡ some block
      → 0 < late.head.n_frame_length
      → ((h : BufHndl (BufInfo R))
          → others.between h ≡ left_by (fill_buf mem_alloc (pos fd) late bytes [] h))
      → (c' : StreamClient R Net) × (stream_round sock fuel head_bytes
            (pos fd)
            (pos n)
            others
            buf_id
            c
          ≡ goes (pos k) c')
        × (sock.sent c'.client.net ≡ sock.sent c.client.net ++ frame_wire head_bytes info)
        × (contents c'.pool.full_que ≡ contents (drop_cell c.pool.full_que) ++ pos k ∷ [])
        × (get_elem? c'.pool.buf_info k ≡ some (record (stored late bytes) { frame_data = none }))
  late_frame-freed mem_alloc block bytes others buf_id k info late c ready sendable x z alloc
        some_bytes acts =
      let given : BufHndl (BufInfo R) = given_pool sock fuel head_size fd n head_bytes k c.pool in
      let room = Next-room sock fuel head_size fd n head_bytes x in
      let only : contents given.empty_que ≡ pos k ∷ [] =
        contents-put_cell (pos k) x.own.valid_e room
        ∙ ap (λ l. l ++ pos k ∷ [])
            (no_contents (contents c.pool.empty_que) (length-contents x.own.valid_e ∙ z)) in
      let own = given-Conserved sock fuel head_size fd n head_bytes x in
      let (j, h, run, l, full, at, marked) =
        fill_buf-stored mem_alloc block late bytes n [] fd [] given ready.usable alloc some_bytes
          own x.room (omega (arith, length-contents own.valid_e, ap length only)) in
      let whole : pos j ∷ contents h.empty_que ≡ pos k ∷ [] = sym l ∙ only in
      let same : j ≡ k = cc in
      let there : get_elem? h.buf_info k ≡ some (stored late bytes) =
        ap (get_elem? h.buf_info) (sym same) ∙ at in
      let (net, sends, sent) =
        net_send_open sock fuel head_size fd n head_bytes info c.client.net ready sendable in
      let freed : BufInfo R = record (stored late bytes) { frame_data = none } in
      (
        record {
          client = record c.client { net = net };
          pool = record h { buf_info = set h.buf_info k freed };
        },
        round_sends sock fuel head_size fd n head_bytes others buf_id k info (stored late bytes) c
            net h x (acts given ∙ ap left_by run) there sends,
        sent,
        full ∙ ap (λ i. contents given.full_que ++ pos i ∷ []) same,
        get_elem?-set_there h.buf_info k freed there,
      )
