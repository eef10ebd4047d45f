-- ===== src/Communication/Stream/Broadcast/Served.antt =====
-- Frames that a server of communication/osa_communication.c sends one by one to a client whose thread waits
-- for them, from the beginning of that thread to the callback of the client.
use osa_base.Base.{
  ℕ, ◌≤◌, ◌<◌, ◌≡◌, ◌≢◌, refl, sym, ap, ap₂, ◌∙◌, true, false, Option, some, List, [], ◌∷◌, ◌++◌,
  append-nil, append_assoc, length, All, ℤ, pos, arith,
}
use osa_base.Monitor.{timeout_none, timeout_forever}
use osa_base.Que.Waiting.{get_woken}
use osa_base.Socket.{Sock}
use osa_base.Socket.Receive.{Prompt}
use osa_base.Que.{InitStatus}
use osa_base.Que.Observers.{AllZero}
use osa_base.Ring.Fifo.{length-contents}
use osa_base.Buf.{BufHndl, full_at, get_full, buf_num_max}
use osa_base.Communication.{server_star}
use osa_base.Communication.Head.{FrameHead, init_stream_head}
use osa_base.Communication.Client.{Around}
use osa_base.Communication.Stream.{BufInfo, fill_buf}
use osa_base.Communication.Stream.Wire.{bytes_in, frames_of, frame_wire, all_wires}
use osa_base.Communication.Stream.Sender.{
  StreamClient, Others, Turn, goes, stream_round, stream_loop, process_stream,
}
use osa_base.Communication.Stream.Sender.Sends.{Quiet, Ready, Sendable}
use osa_base.Communication.Stream.Sender.Lost.{left_by}
use osa_base.Communication.Stream.Sender.Begins.{process_stream-Queued}
use osa_base.Communication.Stream.Sender.Deliver.{Queued, round_delivers}
use osa_base.Communication.Stream.Receiver
use osa_base.Communication.Stream.Receiver.{Viewer, with_net, viewer_process}
use osa_base.Communication.Stream.Receiver.Arrival.{
  Fits, Takes, Layout, Watches, shown, viewer_process-shows,
}
use osa_base.Communication.Stream.Broadcast.{
  marked, meant_frames, Allocates, fill_buf-Holds, payload-marked, stored-Sendable, stored-Takes,
}
use osa_base.Communication.Stream.Broadcast.Arrives.{each}

module _ {R Net : Type 0} (sock : Sock Net) (fuel head_size fd n : ℕ)
    (head_bytes : FrameHead R → List ℕ) (mem_alloc : ℕ → Option (List ℕ)) where
  -- a round in which the thread waits for a full buffer until the server sends a frame
  abbrev pub woken_by : BufInfo R → Others R
  woken_by info = record {
    star = server_star;
    wakes = (λ h. left_by (fill_buf mem_alloc (pos fd) info (bytes_in info.frame_data) [] h)) ∷ [];
    put_wakes = [];
    between = λ h. h;
    stale = false;
  }

  abbrev pub rounds_of : List (BufInfo R) → List (Others R)
  rounds_of [] = []
  rounds_of (info ∷ frames) = woken_by info ∷ rounds_of frames

  abbrev round : Others R → ℤ → StreamClient R Net → Turn R Net
  round = stream_round sock fuel head_bytes (pos fd) (pos n)

  abbrev Queue : List (ℕ × BufInfo R) → StreamClient R Net → Type 0
  Queue = Queued sock fuel head_size fd n head_bytes

  -- a thread that waits goes on with the pool that a wake-up leaves
  round_woken :
      (others : Others R) (wake : BufHndl (BufInfo R) → BufHndl (BufInfo R)) (buf_id : ℤ)
      (c : StreamClient R Net)
      → c.pool.full_que.count ≡ 0
      → round (record others { wakes = wake ∷ [] }) buf_id c
        ≡ round (record others { wakes = [] }) buf_id (record c { pool = wake c.pool })
  unfolding stream_round get_full
  round_woken others wake buf_id c empty =
      let t : timeout_forever ≢ timeout_none = λ e. absurd (omega (arith, e)) in
      rw (stream_round, get_full, get_woken full_at true timeout_forever wake [] c.pool t empty)

  served_one :
      (info : BufInfo R) (buf_id : ℤ) (c : StreamClient R Net)
      → Ready sock fuel head_size fd n head_bytes
      → Allocates mem_alloc info
      → Sendable sock fuel head_size fd n head_bytes (marked info)
      → 0 < n
      → Queue [] c
      → (k : ℕ) × (c' : StreamClient R Net) × (round (woken_by info) buf_id c ≡ goes (pos k) c')
        × Queue [] c'
        × (sock.sent c'.client.net ≡ sock.sent c.client.net ++ frame_wire head_bytes (marked info))
  served_one info buf_id c ready (block, e) sendable some_room q =
      let (k, h, run, holds) =
        fill_buf-Holds mem_alloc block info n fd [] c.pool ready.usable e
          (record { own = q.own; room = q.room; full = q.full; kept = tt }) (omega arith) in
      let queued : Queue ((k, marked info) ∷ []) (record c { pool = h }) = record {
        own = holds.own;
        room = holds.room;
        full = holds.full;
        stored = holds.kept;
        socket = q.socket;
        connected = q.connected;
      } in
      let quiet : Quiet (record (woken_by info) { wakes = [] }) = record {
        runs = refl;
        alone = λ h. refl;
      } in
      let (c', go, q', sent) =
        round_delivers sock fuel head_size fd n head_bytes (record (woken_by info) { wakes = [] })
          buf_id (record c { pool = h }) ready sendable quiet queued in
      let empty : c.pool.full_que.count ≡ 0 =
        sym (length-contents q.own.valid_f) ∙ ap (λ (l : List ℤ). length l) q.full in
      (
        k,
        c',
        round_woken (woken_by info)
              ((λ h. left_by (fill_buf mem_alloc (pos fd) info (bytes_in info.frame_data) [] h)))
              buf_id c empty
            ∙ ap (λ h. round (record (woken_by info) { wakes = [] }) buf_id (record c { pool = h }))
                (ap left_by run)
            ∙ go,
        q',
        sent,
      )

  loop_served :
      (P : BufInfo R → Type 0) (frames : List (BufInfo R)) (buf_id : ℤ) (c : StreamClient R Net)
      → Ready sock fuel head_size fd n head_bytes
      → All (Allocates mem_alloc) frames
      → All (λ info. Sendable sock fuel head_size fd n head_bytes (marked info)) frames
      → All (λ info. P (marked info)) frames
      → 0 < n
      → Queue [] c
      → (new : List (ℕ × BufInfo R)) × (last : ℤ) × (c' : StreamClient R Net) × (stream_loop sock
            fuel head_bytes
            (pos fd)
            (pos n)
            (rounds_of frames)
            buf_id
            c
          ≡ goes last c')
        × Queue [] c'
        × (sock.sent c'.client.net ≡ sock.sent c.client.net ++ all_wires head_bytes new)
        × (length new ≡ length frames)
        × All (λ q. P (q.1)) new
        × (frames_of new ≡ meant_frames frames)
  unfolding stream_loop
  loop_served P [] buf_id c ready alloc sendable p some_room q =
      ([], buf_id, c, refl, q, sym (append-nil (sock.sent c.client.net)), refl, tt, refl)
  loop_served P (info ∷ frames) buf_id c ready (a, alloc) (s, sendable) (p, ps) some_room q =
      let (k, c₁, run, q₁, sent) = served_one info buf_id c ready a s some_room q in
      let (new, last, c₂, run', q₂, sent', l, ps', same) =
        loop_served P frames (pos k) c₁ ready alloc sendable ps some_room q₁ in
      (
        (k, marked info) ∷ new,
        last,
        c₂,
        rw (q.connected, run) run',
        q₂,
        sent'
            ∙ ap (λ b. b ++ all_wires head_bytes new) sent
            ∙ append_assoc (sock.sent c.client.net) (frame_wire head_bytes (marked info))
                (all_wires head_bytes new),
        omega (arith, l),
        (p, ps'),
        ap₂ (λ b rest. ((init_stream_head info.head).1, b) ∷ rest) (payload-marked info) same,
      )

module _ {R Net Net' : Type 0} (sock : Sock Net) (fuel head_size fd n : ℕ)
    (head_bytes : FrameHead R → List ℕ) (sock' : Sock Net') (fuel' head_size' : ℕ)
    (head_of : List ℕ → FrameHead R) (get_emptybuf : ℤ → Option (List ℕ))
    (recon_flag server_port : ℤ) where
  -- Any number of frames that a server sends to a client with a new connection, one each time its
  -- thread waits for one, each with the bytes that its head says and at least one: from its beginning
  -- that thread makes its buffers, puts each frame on the wire in a round, and gives the buffer back;
  -- in a round for each the callback of the client is given their heads, with the marks, and their
  -- bytes, in the order in which they were sent, and nothing else. There are 1 to OSA_BUF_NUM_MAX
  -- buffers, memory is not exhausted and get_emptybuf has room, the connection always takes something,
  -- brings what was sent and gives what it has, neither thread is stopped, and nobody touches the pool
  -- while the thread frees the data.
  pub stream_served :
      (mem_alloc : ℕ → Option (List ℕ)) (frames : List (BufInfo R)) (arounds : List (Around Net'))
      (zeroed : BufInfo R) (cells_e cells_f : List ℤ) (inits_e inits_f : InitStatus) (fd' : ℕ)
      (c : StreamClient R Net) (v : Viewer R Net') (brings : Net → Net')
      → Ready sock fuel head_size fd n head_bytes
      → All (Allocates mem_alloc) frames
      → All (Sendable sock fuel head_size fd n head_bytes) frames
      → All (Fits sock' fuel' head_size' head_of get_emptybuf) frames
      → c.client.socket ≡ pos fd
      → 0 < n
      → n ≤ buf_num_max
      → length cells_e ≡ n
      → length cells_f ≡ n
      → AllZero inits_e
      → AllZero inits_f
      → Prompt sock'
      → Layout sock' fuel' head_size' head_of get_emptybuf head_bytes
      → All (λ around. around.destroyed ≡ false) arounds
      → length arounds ≡ length frames
      → Watches sock' fuel' head_size' head_of get_emptybuf recon_flag server_port fd' v
      → sock.sent c.client.net ≡ []
      → ((net : Net) → sock'.incoming (brings net) ≡ sock.sent net)
      → (last : ℤ) × (c' : StreamClient R Net) × (v' : Viewer R Net') × (process_stream sock fuel
            head_bytes
            (pos n)
            zeroed
            (some cells_e)
            (some cells_f)
            inits_e
            inits_f
            (rounds_of sock fuel head_size fd n head_bytes mem_alloc frames)
            c
          ≡ goes last c')
        × Queued sock fuel head_size fd n head_bytes [] c'
        × (viewer_process sock' fuel' head_size' head_of get_emptybuf recon_flag server_port arounds
              (with_net (brings c'.client.net) v)
            ≡ Receiver.goes v')
        × (shown v'.frames ≡ shown v.frames ++ meant_frames frames)
  stream_served mem_alloc frames arounds zeroed cells_e cells_f inits_e inits_f fd' c v brings ready
        alloc sendable fits at low high le lf ze zf prompt layout live l watches fresh joins =
      let T = Takes sock' fuel' head_size' head_of get_emptybuf in
      let S = Sendable sock fuel head_size fd n head_bytes in
      let (c₀, begins, q, same_net) =
        process_stream-Queued sock fuel head_size fd n head_bytes zeroed cells_e cells_f inits_e
          inits_f (rounds_of sock fuel head_size fd n head_bytes mem_alloc frames) c ready.usable at
          low high le lf ze zf in
      let (new, last, c', run, done, sent, same, takes, meant) =
        loop_served sock fuel head_size fd n head_bytes mem_alloc T frames (pos 0) c₀ ready alloc
          (each S (λ info. S (marked info)) frames
            (stored-Sendable sock fuel head_size fd n head_bytes) sendable)
          (each (Fits sock' fuel' head_size' head_of get_emptybuf) (λ info. T (marked info)) frames
            (stored-Takes sock' fuel' head_size' head_of get_emptybuf) fits)
          low q in
      let comes : sock'.incoming (brings c'.client.net) ≡ all_wires head_bytes new ++ [] =
        joins c'.client.net
        ∙ sent
        ∙ ap (λ b. b ++ all_wires head_bytes new) (ap sock.sent same_net ∙ fresh)
        ∙ sym (append-nil (all_wires head_bytes new)) in
      let (v', run', w, seen, rest) =
        viewer_process-shows sock' fuel' head_size' head_of get_emptybuf recon_flag server_port
          head_bytes fd' new arounds (with_net (brings c'.client.net) v) [] prompt layout takes live
          (omega (arith, l, same))
          (record { place = watches.place; status = watches.status; socket = watches.socket })
          comes in
      (last, c', v', begins ∙ run, done, run', seen ∙ ap (λ b. shown v.frames ++ b) meant)
