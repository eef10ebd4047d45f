-- ===== src/Communication/Stream/Broadcast/Arrives.antt =====
-- A frame that a server of communication/osa_communication.c sends is the frame that the callback of a client
-- is given.
use osa_base.Base.{
  ℕ, ◌≤◌, ◌≡◌, sym, ap, ◌∙◌, false, Option, List, [], ◌∷◌, ◌++◌, append-nil, length, All, ℤ, pos,
  arith,
}
use osa_base.Monitor.{returned}
use osa_base.Socket.{Sock}
use osa_base.Socket.Receive.{Prompt}
use osa_base.Buf.{BufHndl}
use osa_base.Communication.Head.{FrameHead}
use osa_base.Communication.Client.{Around}
use osa_base.Communication.Stream.{BufInfo}
use osa_base.Communication.Stream.Wire.{all_wires}
use osa_base.Communication.Stream.Sender.{StreamClient, Others, goes, stream_loop}
use osa_base.Communication.Stream.Sender.Sends.{Quiet, Ready, Sendable}
use osa_base.Communication.Stream.Sender.Deliver.{Queued, stream_loop-delivers}
use osa_base.Communication.Stream.Receiver
use osa_base.Communication.Stream.Receiver.{Viewer, with_net, viewer_process}
use osa_base.Communication.Stream.Receiver.Arrival.{
  Fits, Takes, Layout, Watches, shown, viewer_process-shows,
}
use osa_base.Communication.Stream.Broadcast.{
  marked, meant_frames, fill_all, Allocates, fill_all-Holds, stored-Sendable, stored-Takes,
}

-- what holds of each, in two lists of facts or in one
module _ {ℓ κ μ} {A : Type ℓ} (P : A → Type κ) (Q : A → Type μ) where
  pub both : (xs : List A) → All P xs → All Q xs → All (λ x. P x × Q x) xs
  both [] ps qs = tt
  both (x ∷ xs) (p, ps) (q, qs) = ((p, q), both xs ps qs)

  pub each : (xs : List A) → ((x : A) → P x → Q x) → All P xs → All Q xs
  each [] f ps = tt
  each (x ∷ xs) f (p, ps) = (f x p, each xs f ps)

module _ {R Net Net' : Type 0} (sock : Sock Net) (fuel head_size fd n : ℕ)
    (head_bytes : FrameHead R → List ℕ) (sock' : Sock Net') (fuel' head_size' : ℕ)
    (head_of : List ℕ → FrameHead R) (get_emptybuf : ℤ → Option (List ℕ))
    (recon_flag server_port : ℤ) where
  -- Frames that a server sends to a connected client with a new connection, none of whose buffers is
  -- full: as many as there are buffers at most, each with the bytes that its head says and at least
  -- one. Each finds a buffer; in a round for each the thread for the client puts them on the wire and
  -- gives the buffers back; in a round for each the callback of the client is given their heads, with
  -- the marks, and their bytes, in the order in which they were sent, and nothing else. Memory is not
  -- exhausted and get_emptybuf has room, the connection always takes something, brings what was sent
  -- and gives what it has, neither thread is stopped, and nobody touches the pool while the thread
  -- frees the data.
  pub frames_arrive :
      (mem_alloc : ℕ → Option (List ℕ)) (frames : List (BufInfo R)) (rounds : List (Others R))
      (arounds : List (Around Net')) (buf_id : ℤ) (fd' : ℕ) (c : StreamClient R Net)
      (v : Viewer R Net') (brings : Net → Net')
      → Ready sock fuel head_size fd n head_bytes
      → All (Allocates mem_alloc) frames
      → All (Sendable sock fuel head_size fd n head_bytes) frames
      → All (Fits sock' fuel' head_size' head_of get_emptybuf) frames
      → length frames ≤ n
      → Queued sock fuel head_size fd n head_bytes [] c
      → All Quiet rounds
      → length rounds ≡ length frames
      → Prompt sock'
      → Layout sock' fuel' head_size' head_of get_emptybuf head_bytes
      → All (λ around. around.destroyed ≡ false) arounds
      → length arounds ≡ length frames
      → Watches sock' fuel' head_size' head_of get_emptybuf recon_flag server_port fd' v
      → sock.sent c.client.net ≡ []
      → ((net : Net) → sock'.incoming (brings net) ≡ sock.sent net)
      → (h : BufHndl (BufInfo R)) × (last : ℤ) × (c' : StreamClient R Net) × (v' : Viewer R Net')
        × (fill_all mem_alloc (pos fd) frames c.pool ≡ returned (pos 0) tt h [])
        × (stream_loop sock fuel head_bytes (pos fd) (pos n) rounds buf_id (record c { pool = h })
            ≡ goes last c')
        × Queued sock fuel head_size fd n head_bytes [] c'
        × (viewer_process sock' fuel' head_size' head_of get_emptybuf recon_flag server_port arounds
              (with_net (brings c'.client.net) v)
            ≡ Receiver.goes v')
        × (shown v'.frames ≡ shown v.frames ++ meant_frames frames)
  frames_arrive mem_alloc frames rounds arounds buf_id fd' c v brings ready alloc sendable fits
        space q quiet l prompt layout live l' watches fresh joins =
      let S = Sendable sock fuel head_size fd n head_bytes in
      let T = Takes sock' fuel' head_size' head_of get_emptybuf in
      let good : All (λ info. S (marked info) × T (marked info)) frames =
        both (λ info. S (marked info)) (λ info. T (marked info)) frames
          (each S (λ info. S (marked info)) frames
            (stored-Sendable sock fuel head_size fd n head_bytes) sendable)
          (each (Fits sock' fuel' head_size' head_of get_emptybuf) (λ info. T (marked info)) frames
            (stored-Takes sock' fuel' head_size' head_of get_emptybuf) fits) in
      let (new, h, run, holds, same, are, meant) =
        fill_all-Holds (λ info. S info × T info) mem_alloc n fd frames [] c.pool ready.usable alloc
          good (record { own = q.own; room = q.room; full = q.full; kept = tt })
          (omega (arith, space)) in
      let queued : Queued sock fuel head_size fd n head_bytes new (record c { pool = h }) = record {
        own = holds.own;
        room = holds.room;
        full = holds.full;
        stored = holds.kept;
        socket = q.socket;
        connected = q.connected;
      } in
      let (last, c', run', done, sent) =
        stream_loop-delivers sock fuel head_size fd n head_bytes new rounds buf_id
          (record c { pool = h }) ready
          (each (λ q. S (q.1) × T (q.1)) (λ q. S (q.1)) new (λ q p. p.0) are) quiet
          (omega (arith, l, same)) queued in
      let comes : sock'.incoming (brings c'.client.net) ≡ all_wires head_bytes new ++ [] =
        joins c'.client.net
        ∙ sent
        ∙ ap (λ b. b ++ all_wires head_bytes new) fresh
        ∙ sym (append-nil (all_wires head_bytes new)) in
      let (v', run'', w, seen, rest) =
        viewer_process-shows sock' fuel' head_size' head_of get_emptybuf recon_flag server_port
          head_bytes fd' new arounds (with_net (brings c'.client.net) v) [] prompt layout
          (each (λ q. S (q.1) × T (q.1)) (λ q. T (q.1)) new (λ q p. p.1) are) live
          (omega (arith, l', same))
          (record { place = watches.place; status = watches.status; socket = watches.socket })
          comes in
      (h, last, c', v', run, run', done, run'', seen ∙ ap (λ b. shown v.frames ++ b) meant)
