-- ===== src/Communication/Stream/Broadcast.antt =====
-- Frames from a call of OSA_server_sendBuf in communication/osa_communication.c to the callback of a client:
-- the buffers, the thread that sends them, and the thread of the client that receives them.
pub mod Arrives
pub mod Served
mod Tests
use osa_base.Base.{
  ap₂, subst, ℕ, zero, suc, ◌+◌, ◌≤◌, ◌<◌, ◌≡◌, refl, sym, ap, ◌∙◌, true, false, Option, none, some,
  List, [], ◌∷◌, ◌++◌, append_assoc, append-nil, length, length-take, length-append, length-set,
  take, take-take, All, get_elem?, get_elem?-set_self, ℤ, pos, arith,
}
use osa_base.Base.Count.{count, count-append, one_if, one_if_le, eq_ℤ_self}
use osa_base.Monitor.{Outcome, returned, after}
use osa_base.Ring.{put_cell, drop_cell}
use osa_base.Ring.Fifo.{contents, length-contents}
use osa_base.Socket.{Sock}
use osa_base.Socket.Receive.{Prompt}
use osa_base.Buf.{BufHndl}
use osa_base.Buf.Pool.{in_range, Conserved}
use osa_base.Communication.Head.{FrameHead, init_stream_head}
use osa_base.Communication.Client.{Around}
use osa_base.Communication.Stream.{BufInfo, fill_buf}
use osa_base.Communication.Stream.Frames.{stored, filled, fill_buf_lem, stored_marked}
use osa_base.Communication.Stream.Wire.{bytes_in, payload, frames_of, frame_wire, all_wires}
use osa_base.Communication.Stream.Sender.{StreamClient, Others, Turn, goes, stream_loop}
use osa_base.Communication.Stream.Sender.Sends.{Quiet, Ready, Sendable}
use osa_base.Communication.Stream.Sender.Deliver.{
  ids, Stored, Stored-set, Queued, stream_loop-delivers,
}
use osa_base.Communication.Stream.Receiver.{Viewer, with_net, viewer_process}
use osa_base.Communication.Stream.Receiver.Arrival.{
  Fits, Takes, Layout, Watches, shown, viewer_process-shows,
}

module _ {R : Type 0} where
  -- a frame as it is put into a buffer
  abbrev pub marked : BufInfo R → BufInfo R
  marked info = stored info (bytes_in info.frame_data)

  -- the heads, with their marks, and the bytes of some frames
  abbrev pub meant_frames : List (BufInfo R) → List (FrameHead R × List ℕ)
  meant_frames [] = []
  meant_frames (info ∷ frames) =
      ((init_stream_head info.head).1, payload info) ∷ meant_frames frames

  pub payload-marked : (info : BufInfo R) → payload (marked info) ≡ payload info
  unfolding init_stream_head
  payload-marked info =
      take-take info.head.n_frame_length info.head.n_frame_length (bytes_in info.frame_data)
        (omega arith)

  -- the calls of server_fill_buf for one client by which some frames are sent
  unfoldable pub fill_all :
      (ℕ → Option (List ℕ))
      → (socket : ℤ) → List (BufInfo R)
      → BufHndl (BufInfo R)
      → Outcome (Unit {0}) (BufHndl (BufInfo R))
  fill_all mem_alloc socket [] h = returned (pos 0) tt h []
  fill_all mem_alloc socket (info ∷ frames) h =
      after (fill_buf mem_alloc socket info (bytes_in info.frame_data) [] h)
        λ s u h' wakes. fill_all mem_alloc socket frames h'

  -- The full buffers of a pool of `n` are those of `qs`, the oldest first.
  pub record Holds (n : ℕ) (qs : List (ℕ × BufInfo R)) (h : BufHndl (BufInfo R)) : Type 0 where
    pub own : Conserved n (record { hndl = h; held = [] })
    pub room : n ≤ length h.buf_info
    pub full : contents h.full_que ≡ ids qs
    pub kept : Stored h.buf_info qs

  ids-append : (xs ys : List (ℕ × BufInfo R)) → ids (xs ++ ys) ≡ ids xs ++ ids ys
  ids-append [] ys = refl
  ids-append ((k, info) ∷ xs) ys = ap (λ l. pos k ∷ l) (ids-append xs ys)

  length-ids : (qs : List (ℕ × BufInfo R)) → length (ids qs) ≡ length qs
  length-ids [] = refl
  length-ids ((k, info) ∷ qs) = omega (arith, length-ids qs)

  Stored-append :
      (infos : List (BufInfo R)) (xs ys : List (ℕ × BufInfo R))
      → Stored infos xs
      → Stored infos ys
      → Stored infos (xs ++ ys)
  Stored-append infos [] ys a b = b
  Stored-append infos (x ∷ xs) ys (a, rest) b = (a, Stored-append infos xs ys rest b)

  pub fill_buf-Holds :
      (mem_alloc : ℕ → Option (List ℕ)) (block : List ℕ) (info : BufInfo R) (n socket : ℕ)
      (qs : List (ℕ × BufInfo R)) (h : BufHndl (BufInfo R))
      → 3 ≤ socket
      → mem_alloc info.head.n_frame_length ≡ some block
      → Holds n qs h
      → length qs < n
      → (k : ℕ) × (h' : BufHndl (BufInfo R)) × (fill_buf mem_alloc
            (pos socket)
            info
            (bytes_in info.frame_data)
            []
            h
          ≡ returned (pos 0) tt h' [])
        × Holds n (qs ++ (k, marked info) ∷ []) h'
  fill_buf-Holds mem_alloc block info n socket qs h usable e q space =
      let bytes = bytes_in info.frame_data in
      let some_in : 0 < h.empty_que.count =
        omega
          (arith, q.own.total, length-contents q.own.valid_f, ap length q.full, length-ids qs) in
      let (k, run, empties, fulls, inside, own) =
        fill_buf_lem mem_alloc block info bytes n [] socket [] h usable e q.own q.room some_in in
      let fresh : count (pos k) (ids qs) ≡ 0 = omega (
        arith,
        q.own.each (pos k),
        ap (count (pos k)) q.full,
        ap (count (pos k)) empties,
        ap one_if (eq_ℤ_self (pos k)),
        one_if_le (in_range n (pos k)),
      ) in
      (
        k,
        filled k info bytes h,
        run,
        record {
          own = own;
          room = omega (arith, q.room, length-set h.buf_info k (marked info));
          full =
              fulls
              ∙ ap (λ l. l ++ pos k ∷ []) q.full
              ∙ sym (ids-append qs ((k, marked info) ∷ []));
          kept =
              Stored-append (filled k info bytes h).buf_info qs ((k, marked info) ∷ [])
                (Stored-set k (marked info) h.buf_info qs fresh q.kept)
                (get_elem?-set_self h.buf_info k (marked info) inside, tt);
        },
      )

  -- OSA_memAlloc has a block for a frame.
  abbrev pub Allocates : (ℕ → Option (List ℕ)) → BufInfo R → Type 0
  Allocates mem_alloc info = (block : List ℕ) × (mem_alloc info.head.n_frame_length ≡ some block)

  -- A client's pool with a buffer for each of some frames takes them all, in order.
  pub fill_all-Holds :
      (P : BufInfo R → Type 0) (mem_alloc : ℕ → Option (List ℕ)) (n socket : ℕ)
      (frames : List (BufInfo R)) (qs : List (ℕ × BufInfo R)) (h : BufHndl (BufInfo R))
      → 3 ≤ socket
      → All (Allocates mem_alloc) frames
      → All (λ info. P (marked info)) frames
      → Holds n qs h
      → length qs + length frames ≤ n
      → (new : List (ℕ × BufInfo R)) × (h' : BufHndl (BufInfo R)) × (fill_all mem_alloc
            (pos socket)
            frames
            h
          ≡ returned (pos 0) tt h' [])
        × Holds n (qs ++ new) h'
        × (length new ≡ length frames)
        × All (λ q. P (q.1)) new
        × (frames_of new ≡ meant_frames frames)
  unfolding fill_all
  fill_all-Holds P mem_alloc n socket [] qs h usable alloc p q space =
      ([], h, refl, subst (λ l. Holds n l h) (sym (append-nil qs)) q, refl, tt, refl)
  fill_all-Holds P mem_alloc n socket (info ∷ frames) qs h usable ((block, e), alloc) (p, ps) q
        space =
      let (k, h₁, run, q₁) =
        fill_buf-Holds mem_alloc block info n socket qs h usable e q (omega arith) in
      let one = (k, marked info) ∷ [] in
      let (new, h₂, run', q₂, l, ps', same) =
        fill_all-Holds P mem_alloc n socket frames (qs ++ one) h₁ usable alloc ps q₁
          (omega (arith, length-append qs one)) in
      (
        (k, marked info) ∷ new,
        h₂,
        rw (fill_all, run) run',
        subst (λ l. Holds n l h₂) (append_assoc qs one new) q₂,
        omega (arith, l),
        (p, ps'),
        ap₂ (λ b l. ((init_stream_head info.head).1, b) ∷ l) (payload-marked info) same,
      )

-- The frame is one that the thread can send once it is stored.
pub stored-Sendable :
    {R Net : Type 0} (sock : Sock Net) (fuel head_size fd n : ℕ) (head_bytes : FrameHead R → List ℕ)
    (info : BufInfo R)
    → Sendable sock fuel head_size fd n head_bytes info
    → Sendable sock fuel head_size fd n head_bytes (marked info)
unfolding init_stream_head
stored-Sendable sock fuel head_size fd n head_bytes info s =
    let has : bytes_in info.frame_data ≡ s.data_of = ap bytes_in s.has in
    record {
      pred = s.pred;
      data_of = payload info;
      size = s.size;
      has = refl;
      fits = omega (
        arith,
        length-take info.head.n_frame_length (bytes_in info.frame_data)
            (omega (arith, s.size, s.fits, ap length has)),
        s.size,
      );
      fueled = s.fueled;
    }

-- and one that the client takes.
pub stored-Takes :
    {R Net : Type 0} (sock : Sock Net) (fuel head_size : ℕ) (head_of : List ℕ → FrameHead R)
    (get_emptybuf : ℤ → Option (List ℕ)) (info : BufInfo R)
    → Fits sock fuel head_size head_of get_emptybuf info
    → Takes sock fuel head_size head_of get_emptybuf (marked info)
unfolding init_stream_head
stored-Takes sock fuel head_size head_of get_emptybuf info f = record {
  fits = record {
    pred = f.pred;
    size = f.size;
    whole = omega (
      arith,
      length-take info.head.n_frame_length (bytes_in info.frame_data)
          (omega (arith, f.size, f.whole)),
      f.size,
    );
    is_int = f.is_int;
    block = f.block;
    given = f.given;
    room = f.room;
    rounds = f.rounds;
  };
  marked = stored_marked info (bytes_in info.frame_data) (omega (arith, f.size));
}
