-- ===== src/Communication/Stream/Receiver/Arrival.antt =====
-- What the client of frames in communication/osa_communication.c makes of the bytes that the thread of the
-- server puts on the wire.
use osa_base.Base.{
  of_u32, ℕ, suc, ◌+◌, ◌≤◌, ◌<◌, ◌≡◌, refl, sym, ap, ◌∙◌, true, false, Option, some, List, [], ◌∷◌,
  ◌++◌, append_assoc, append-nil, length, length-take, length-replicate, take, replicate, ltb, All,
  ℤ, pos, arith,
}
use osa_base.Socket.{Sock, tcp_rcv_block_fd}
use osa_base.Socket.Receive.{Prompt, rcv_all}
use osa_base.Communication.{client_connect, is_connect}
use osa_base.Communication.Head.{FrameHead, check_stream_head}
use osa_base.Communication.Message.Exchange.{take_whole}
use osa_base.Communication.Client.{Around, in_loop, handle_now, client_exit}
use osa_base.Communication.Stream.{BufInfo}
use osa_base.Communication.Stream.Wire.{bytes_in, payload, frames_of, frame_wire, all_wires}
use osa_base.Communication.Stream.Receiver.{
  FrameMsg, FrameAttempt, dealt, Viewer, goes, with_net, viewer_exit, frame_attempt, recv_data,
  recv_frame, viewer_round, viewer_step, viewer_process,
}

-- what `msgFun` can read: the head, and as many bytes as it says
abbrev pub shown_by : {R : Type 0} → FrameMsg R → FrameHead R × List ℕ
shown_by m = (m.stream_head, take m.stream_head.n_frame_length m.recv_value)

module _ {R : Type 0} where
  abbrev pub shown : List (FrameMsg R) → List (FrameHead R × List ℕ)
  shown [] = []
  shown (m ∷ ms) = shown_by m ∷ shown ms

  shown-append : (xs ys : List (FrameMsg R)) → shown (xs ++ ys) ≡ shown xs ++ shown ys
  shown-append [] ys = refl
  shown-append (x ∷ xs) ys = ap (λ l. shown_by x ∷ l) (shown-append xs ys)

module _ {R Net : Type 0} (sock : Sock Net) (fuel head_size : ℕ) (head_of : List ℕ → FrameHead R)
    (get_emptybuf : ℤ → Option (List ℕ)) where
  -- The client has room for a frame: it has at least a byte, its length is an `int`, and
  -- `get_emptybuf` returns a block for it.
  pub record Fits (info : BufInfo R) : Type 0 where
    pub pred : ℕ
    pub size : info.head.n_frame_length ≡ suc pred
    pub whole : suc pred ≤ length (bytes_in info.frame_data)
    pub is_int : suc pred < 2147483648
    pub block : List ℕ
    pub given : get_emptybuf (pos info.head.n_frame_length) ≡ some block
    pub room : suc pred ≤ length block
    pub rounds : pred + 3 < fuel

  -- It takes a frame for which it has room, with the marks.
  pub record Takes (info : BufInfo R) : Type 0 where
    pub fits : Fits info
    pub marked : check_stream_head (some info.head) ≡ pos 0

  recv_data-wire :
      (fd : ℕ) (info : BufInfo R) (net : Net) (more : List ℕ)
      → Prompt sock
      → Fits info
      → sock.incoming net ≡ payload info ++ more
      → (buf : List ℕ) × (net' : Net) × (recv_data sock fuel head_size head_of get_emptybuf
            (pos fd)
            info.head
            net
          ≡ some (dealt (record { stream_head = info.head; recv_value = buf }) net'))
        × (take info.head.n_frame_length buf ≡ payload info)
        × (sock.incoming net' ≡ more)
  unfolding recv_data
  recv_data-wire fd info net more prompt t e =
      let n = info.head.n_frame_length in
      let len : length (payload info) ≡ suc t.pred =
        length-take n (bytes_in info.frame_data) (omega (arith, t.size, t.whole)) ∙ t.size in
      let (r, run, s, got, rest, l) =
        rcv_all sock fuel fd t.pred t.block net (payload info) more prompt len t.room e t.rounds in
      let small : ltb n 2147483648 ≡ true = let i = t.is_int in let z = t.size in ground arith in
      let int : of_u32 n ≡ pos n = rw small refl in
      let given : get_emptybuf (of_u32 n) ≡ some t.block = ap get_emptybuf int ∙ t.given in
      let run' : tcp_rcv_block_fd sock fuel (pos fd) (some t.block) (of_u32 n) net ≡ some r =
        ap (λ k. tcp_rcv_block_fd sock fuel (pos fd) (some t.block) k net) (int ∙ ap pos t.size)
        ∙ run in
      (r.buf, r.net, rw (recv_data, given, run', s) refl, ap (λ k. take k r.buf) t.size ∙ got, rest)

  -- The bytes of a head are those of a Frame_Head_t, and stand for that head.
  pub record Layout (head_bytes : FrameHead R → List ℕ) : Type 0 where
    pub pred : ℕ
    pub size : head_size ≡ suc pred
    pub sized : (h : FrameHead R) → length (head_bytes h) ≡ head_size
    pub back : (h : FrameHead R) → head_of (head_bytes h) ≡ h
    pub rounds : pred + 3 < fuel

  -- Where the stream begins with a frame on the wire, the client calls back with the head and the
  -- frame that were sent, and reads them off the stream.
  pub recv_frame-wire :
      (head_bytes : FrameHead R → List ℕ) (fd : ℕ) (info : BufInfo R) (net : Net) (more : List ℕ)
      → Prompt sock
      → Layout head_bytes
      → Takes info
      → sock.incoming net ≡ frame_wire head_bytes info ++ more
      → (buf : List ℕ) × (net' : Net) × (recv_frame sock fuel head_size head_of get_emptybuf
            (pos fd)
            net
          ≡ some (dealt (record { stream_head = info.head; recv_value = buf }) net'))
        × (take info.head.n_frame_length buf ≡ payload info)
        × (sock.incoming net' ≡ more)
  unfolding recv_frame
  recv_frame-wire head_bytes fd info net more prompt layout t e =
      let zeros = replicate head_size 0 in
      let (r, run, s, got, rest, l) =
        rcv_all sock fuel fd layout.pred zeros net (head_bytes info.head) (payload info ++ more)
          prompt (layout.sized info.head ∙ layout.size)
          (omega (arith, length-replicate {A = ℕ} head_size 0, layout.size))
          (e ∙ append_assoc (head_bytes info.head) (payload info) more) layout.rounds in
      let run' : tcp_rcv_block_fd sock fuel (pos fd) (some zeros) (pos head_size) net ≡ some r =
        ap (λ k. tcp_rcv_block_fd sock fuel (pos fd) (some zeros) (pos k) net) layout.size ∙ run in
      let whole : head_of r.buf ≡ info.head =
        ap head_of
          (sym (take_whole r.buf (l ∙ length-replicate {A = ℕ} head_size 0 ∙ layout.size)) ∙ got)
        ∙ layout.back info.head in
      let (buf, net', q, i, m) = recv_data-wire fd info r.net more prompt t.fits rest in
      (buf, net', rw (recv_frame, run', s, whole, t.marked, q) refl, i, m)

  module _ (recon_flag server_port : ℤ) where
    -- the thread in its loop on the socket `fd`
    pub record Watches (fd : ℕ) (v : Viewer R Net) : Type 0 where
      pub place : v.client.place ≡ in_loop
      pub status : v.client.handle.client_status ≡ client_connect
      pub socket : v.client.socket ≡ pos fd

    round_step :
        (around : Around Net) (v : Viewer R Net) {a : FrameAttempt R Net}
        → around.destroyed ≡ false
        → v.client.place ≡ in_loop
        → v.client.handle.client_status ≡ client_connect
        → recv_frame sock fuel head_size head_of get_emptybuf v.client.socket v.client.net ≡ some a
        → viewer_step sock fuel head_size head_of get_emptybuf recon_flag server_port around v
          ≡ frame_attempt recon_flag a v
    unfolding viewer_step viewer_round handle_now
    round_step around v {a} live p s q =
        let w : Viewer R Net = record v { client = record v.client { place = in_loop } } in
        let same : v ≡ w = ap (λ p. record v { client = record v.client { place = p } }) p in
        let t : is_connect v.client.handle.client_status ≡ true = ap is_connect s in
        let stays : handle_now around.destroyed v.client.handle ≡ v.client.handle =
          rw (handle_now, live) refl in
        let step =
          viewer_step sock fuel head_size head_of get_emptybuf recon_flag server_port around in
        let looped : step w ≡ frame_attempt recon_flag a w =
          rw (viewer_step, stays, t, viewer_round, q)
            (ap
              (λ h.
                frame_attempt recon_flag a (record w { client = record w.client { handle = h } }))
              stays) in
        ap step same ∙ looped ∙ ap (frame_attempt recon_flag a) (sym same)

    frame_dealt :
        (m : FrameMsg R) (net : Net) (v : Viewer R Net)
        → frame_attempt recon_flag (dealt m net) v
          ≡ goes (record (with_net net v) { frames = v.frames ++ m ∷ [] })
    unfolding frame_attempt viewer_exit client_exit
    frame_dealt m net v = refl

    one_shown :
        (head_bytes : FrameHead R → List ℕ) (fd : ℕ) (info : BufInfo R) (around : Around Net)
        (v : Viewer R Net) (more : List ℕ)
        → Prompt sock
        → Layout head_bytes
        → Takes info
        → around.destroyed ≡ false
        → Watches fd v
        → sock.incoming v.client.net ≡ frame_wire head_bytes info ++ more
        → (v' : Viewer R Net) × (viewer_step sock fuel head_size head_of get_emptybuf recon_flag
              server_port around v
            ≡ goes v')
          × Watches fd v'
          × (shown v'.frames ≡ shown v.frames ++ (info.head, payload info) ∷ [])
          × (sock.incoming v'.client.net ≡ more)
    one_shown head_bytes fd info around v more prompt layout t live w e =
        let (buf, net, run, got, rest) =
          recv_frame-wire head_bytes fd info v.client.net more prompt layout t e in
        let m : FrameMsg R = record { stream_head = info.head; recv_value = buf } in
        (
          record (with_net net v) { frames = v.frames ++ m ∷ [] },
          round_step around v live w.place w.status (
                ap (λ s. recv_frame sock fuel head_size head_of get_emptybuf s v.client.net)
                  w.socket
                ∙ run)
              ∙ frame_dealt m net v,
          record { place = w.place; status = w.status; socket = w.socket },
          shown-append v.frames (m ∷ []) ∙ ap (λ b. shown v.frames ++ (info.head, b) ∷ []) got,
          rest,
        )

    -- A client in its loop on a connection that brings some frames, each of which it takes, shows
    -- them to its callback, in order, and nothing else, in a round for each.
    pub viewer_process-shows :
        (head_bytes : FrameHead R → List ℕ) (fd : ℕ) (qs : List (ℕ × BufInfo R))
        (arounds : List (Around Net)) (v : Viewer R Net) (more : List ℕ)
        → Prompt sock
        → Layout head_bytes
        → All (λ q. Takes (q.1)) qs
        → All (λ around. around.destroyed ≡ false) arounds
        → length arounds ≡ length qs
        → Watches fd v
        → sock.incoming v.client.net ≡ all_wires head_bytes qs ++ more
        → (v' : Viewer R Net) × (viewer_process sock fuel head_size head_of get_emptybuf recon_flag
              server_port arounds v
            ≡ goes v')
          × Watches fd v'
          × (shown v'.frames ≡ shown v.frames ++ frames_of qs)
          × (sock.incoming v'.client.net ≡ more)
    unfolding viewer_process
    viewer_process-shows head_bytes fd [] [] v more prompt layout t live n w e =
        (v, refl, w, sym (append-nil (shown v.frames)), e)
    viewer_process-shows head_bytes fd [] (around ∷ arounds) v more prompt layout t live n w e =
        absurd (omega arith)
    viewer_process-shows head_bytes fd (q ∷ qs) [] v more prompt layout t live n w e =
        absurd (omega arith)
    viewer_process-shows head_bytes fd ((k, info) ∷ qs) (around ∷ arounds) v more prompt layout
          (t, ts) (live, lives) n w e =
        let (v₁, run, w₁, seen, rest) =
          one_shown head_bytes fd info around v (all_wires head_bytes qs ++ more) prompt layout t
            live w (e ∙ append_assoc (frame_wire head_bytes info) (all_wires head_bytes qs) more) in
        let (v₂, run', w₂, seen', rest') =
          viewer_process-shows head_bytes fd qs arounds v₁ more prompt layout ts lives (omega arith)
            w₁ rest in
        (
          v₂,
          rw (viewer_process, run) run',
          w₂,
          seen'
              ∙ ap (λ l. l ++ frames_of qs) seen
              ∙ append_assoc (shown v.frames) ((info.head, payload info) ∷ []) (frames_of qs),
          rest',
        )
