-- ===== src/Communication/Stream/Sender/Deliver.antt =====
-- What the thread of communication/osa_communication.c that sends frames to a client puts on the wire.
use osa_base.Base.{
  ℕ, ◌<◌, ◌≤◌, ◌≡◌, ◌≢◌, refl, sym, ap, ◌∙◌, true, none, some, List, [], ◌∷◌, ◌++◌, append-nil,
  append_assoc, All, get_elem?, set, get_elem?-set_ne, length, length-set, arith, ℤ, pos,
  Bool-cases, inl, inr, ◌==◌,
}
use osa_base.Base.Count.{count, one_if, one_if_le, eq_ℤ_self}
use osa_base.Ring.Fifo.{contents, contents-drop_cell, length-contents}
use osa_base.Ring.{drop_cell}
use osa_base.Socket.{Sock}
use osa_base.Buf.Pool.{in_range, Conserved}
use osa_base.Communication.{is_connect}
use osa_base.Communication.Head.{FrameHead}
use osa_base.Communication.Stream.{BufInfo}
use osa_base.Communication.Stream.Wire.{frame_wire, all_wires}
use osa_base.Communication.Stream.Sender.{StreamClient, Others, goes, stream_round, stream_loop}
use osa_base.Communication.Stream.Sender.Sends.{
  Quiet, Ready, Sendable, Next, Next-Conserved, net_send_open, round_sends, sent_pool, given_pool,
}

module _ {R : Type 0} where
  -- the numbers of some buffers with the frames in them
  abbrev pub ids : List (ℕ × BufInfo R) → List ℤ
  ids [] = []
  ids ((k, info) ∷ qs) = pos k ∷ ids qs

  abbrev pub Stored : List (BufInfo R) → List (ℕ × BufInfo R) → Type 0
  Stored infos qs = All (λ q. get_elem? infos (q.0) ≡ some (q.1)) qs

  -- Another buffer is written.
  pub Stored-set :
      (k : ℕ) (info : BufInfo R) (infos : List (BufInfo R)) (qs : List (ℕ × BufInfo R))
      → count (pos k) (ids qs) ≡ 0
      → Stored infos qs
      → Stored (set infos k info) qs
  Stored-set k info infos [] e s = tt
  Stored-set k info infos ((j, other) ∷ qs) e (s, ss) = elim (Bool-cases (k == j)) [
    | inl same ↦ absurd (omega (arith, ap one_if same))
    | inr differ ↦
        let ne : k ≢ j = ground arith in
        (
          get_elem?-set_ne infos info ne ∙ s,
          Stored-set k info infos qs (omega (arith, ap one_if differ)) ss,
        )
  ]

module _ {R Net : Type 0} (sock : Sock Net) (fuel head_size fd n : ℕ)
    (head_bytes : FrameHead R → List ℕ) where
  -- The full buffers are those of `qs`, the oldest first, and the thread is connected.
  pub record Queued (qs : List (ℕ × BufInfo R)) (c : StreamClient R Net) : Type 0 where
    pub own : Conserved n (record { hndl = c.pool; held = [] })
    pub room : n ≤ length c.pool.buf_info
    pub full : contents c.pool.full_que ≡ ids qs
    pub stored : Stored c.pool.buf_info qs
    pub socket : c.client.socket ≡ pos fd
    pub connected : is_connect c.client.status ≡ true

  Queued-Next :
      {k : ℕ} {info : BufInfo R} {qs : List (ℕ × BufInfo R)} {c : StreamClient R Net}
      → Queued ((k, info) ∷ qs) c
      → Next sock fuel head_size fd n head_bytes k info c
        × (contents (drop_cell c.pool.full_que) ≡ ids qs)
  Queued-Next {k} {info} {qs} {c} q =
      let more : 0 < c.pool.full_que.count =
        omega (arith, length-contents q.own.valid_f, ap length q.full) in
      let (x, at, l) = contents-drop_cell q.own.valid_f more in
      let whole : x ∷ contents (drop_cell c.pool.full_que) ≡ pos k ∷ ids qs = sym l ∙ q.full in
      let same : x ≡ pos k = cc in
      (
        record {
          own = q.own;
          room = q.room;
          some_full = more;
          oldest = at ∙ ap some same;
          first = l ∙ ap (λ y. y ∷ contents (drop_cell c.pool.full_que)) same;
          frame = q.stored.0;
          socket = q.socket;
        },
        cc,
      )

  -- one round, from a queue of frames to the rest of it
  pub round_delivers :
      {k : ℕ} {info : BufInfo R} {qs : List (ℕ × BufInfo R)} (others : Others R) (buf_id : ℤ)
      (c : StreamClient R Net)
      → Ready sock fuel head_size fd n head_bytes
      → Sendable sock fuel head_size fd n head_bytes info
      → Quiet others
      → Queued ((k, info) ∷ qs) c
      → (c' : StreamClient R Net) × (stream_round sock fuel head_bytes
            (pos fd)
            (pos n)
            others
            buf_id
            c
          ≡ goes (pos k) c')
        × Queued qs c'
        × (sock.sent c'.client.net ≡ sock.sent c.client.net ++ frame_wire head_bytes info)
  round_delivers {k} {info} {qs} others buf_id c ready sendable quiet q =
      let (next, rest) = Queued-Next q in
      let (net, run, sent) =
        net_send_open sock fuel head_size fd n head_bytes info c.client.net ready sendable in
      let alone : count (pos k) (ids qs) ≡ 0 = omega (
        arith,
        q.own.each (pos k),
        ap (count (pos k)) q.full,
        ap one_if (eq_ℤ_self (pos k)),
        one_if_le (in_range n (pos k)),
      ) in
      (
        record {
          client = record c.client { net = net };
          pool = sent_pool sock fuel head_size fd n head_bytes k info c.pool;
        },
        round_sends sock fuel head_size fd n head_bytes others buf_id k info info c net
            (given_pool sock fuel head_size fd n head_bytes k c.pool) next
            (quiet.alone (given_pool sock fuel head_size fd n head_bytes k c.pool)) next.frame run,
        record {
          own = Next-Conserved sock fuel head_size fd n head_bytes next;
          room =
              omega
                (arith, q.room, length-set c.pool.buf_info k (record info { frame_data = none }));
          full = rest;
          stored =
              Stored-set k (record info { frame_data = none }) c.pool.buf_info qs alone
                (q.stored.1);
          socket = q.socket;
          connected = q.connected;
        },
        sent,
      )

  -- On a connection that always takes something, a thread that is connected, whose full buffers have
  -- frames that are not empty, puts them on the wire in as many rounds as there are of them, where the
  -- server runs and nobody touches the pool while it frees the data: the heads and the data, in the
  -- order of the queue, behind what was sent before. It is then connected still, its full queue is
  -- empty, and each buffer of the pool is among the empty ones.
  pub stream_loop-delivers :
      (qs : List (ℕ × BufInfo R)) (rounds : List (Others R)) (buf_id : ℤ) (c : StreamClient R Net)
      → Ready sock fuel head_size fd n head_bytes
      → All (λ q. Sendable sock fuel head_size fd n head_bytes (q.1)) qs
      → All Quiet rounds
      → length rounds ≡ length qs
      → Queued qs c
      → (last : ℤ) × (c' : StreamClient R Net) × (stream_loop sock fuel head_bytes
            (pos fd)
            (pos n)
            rounds
            buf_id
            c
          ≡ goes last c')
        × Queued [] c'
        × (sock.sent c'.client.net ≡ sock.sent c.client.net ++ all_wires head_bytes qs)
  unfolding stream_loop
  stream_loop-delivers [] [] buf_id c ready sendable quiet e q =
      (buf_id, c, refl, q, sym (append-nil (sock.sent c.client.net)))
  stream_loop-delivers [] (others ∷ rounds) buf_id c ready sendable quiet e q = absurd (omega arith)
  stream_loop-delivers (f ∷ qs) [] buf_id c ready sendable quiet e q = absurd (omega arith)
  stream_loop-delivers ((k, info) ∷ qs) (others ∷ rounds) buf_id c ready (s, ss) (w, ws) e q =
      let (c₁, run, q₁, sent) = round_delivers others buf_id c ready s w q in
      let (last, c₂, run', q₂, sent') =
        stream_loop-delivers qs rounds (pos k) c₁ ready ss ws (omega arith) q₁ in
      (
        last,
        c₂,
        rw (q.connected, w.runs, run) run',
        q₂,
        sent'
            ∙ ap (λ l. l ++ all_wires head_bytes qs) sent
            ∙ append_assoc (sock.sent c.client.net) (frame_wire head_bytes info)
                (all_wires head_bytes qs),
      )
