-- ===== src/Communication/Stream/Sender/Tests.antt =====
-- Two frames that wait for a client, and one that comes too early.
use osa_base.Base.{
  ℕ, ◌+◌, ◌≡◌, refl, true, false, Option, none, some, List, [], ◌∷◌, get_elem?, length, replicate,
  arith, ℤ, pos, negsuc,
}
use osa_base.Base.Count.{count, one_if}
use osa_base.Ring.{drop_cell}
use osa_base.Ring.Fifo.{contents}
use osa_base.Socket.Loopback.{Wire, loopback, loopback-Open}
use osa_base.Buf.{BufHndl}
use osa_base.Buf.Pool.{in_range, Conserved}
use osa_base.Communication.{server_star, server_stop, client_connect}
use osa_base.Communication.Head.{Mark, FrameHead}
use osa_base.Communication.Stream.{BufInfo, fill_buf}
use osa_base.Communication.Stream.Frames.{stored}
use osa_base.Communication.Stream.Sender.{
  StreamClient, Others, goes, left, stream_round, stream_loop,
}
use osa_base.Communication.Stream.Sender.Sends.{Quiet, Ready, Sendable, Next}
use osa_base.Communication.Stream.Sender.Deliver.{Queued}
use osa_base.Communication.Stream.Sender.Ends.{Freed, Spared, stream_loop-left}
use osa_base.Communication.Stream.Sender.Lost.{left_by, late_frame-freed}

abbrev marks : Mark
marks = record { first = 64; second = 35; third = 36; fourth = 38 }

-- a head whose other members are one number
abbrev head_of : ℕ → FrameHead ℕ
head_of len = record { check_start = marks; n_frame_length = len; others = 25; check_end = marks }

abbrev head_bytes : FrameHead ℕ → List ℕ
head_bytes h = h.check_start.first ∷ h.n_frame_length ∷ h.others ∷ []

sized : (h : FrameHead ℕ) → length (head_bytes h) ≡ 3
sized h = refl

abbrev one : BufInfo ℕ
one = record { head = head_of 3; frame_data = some (7 ∷ 8 ∷ 9 ∷ []) }

abbrev two : BufInfo ℕ
two = record { head = head_of 2; frame_data = some (5 ∷ 6 ∷ 0 ∷ []) }

abbrev waiting_frames : BufHndl (BufInfo ℕ)
waiting_frames = record {
  buf_info = one ∷ two ∷ [];
  empty_que = record { cur_rd = 0; cur_wr = 0; len = 2; count = 0; queue = pos 9 ∷ pos 9 ∷ [] };
  full_que = record { cur_rd = 0; cur_wr = 0; len = 2; count = 2; queue = pos 1 ∷ pos 0 ∷ [] };
  num_buf = pos 2;
}

each_full : (i : ℤ) → count i [] + count i (pos 1 ∷ pos 0 ∷ []) + count i [] ≡ one_if (in_range 2 i)
each_full (pos k) = ground arith
each_full (negsuc k) = refl

waiting_frames-Conserved : Conserved 2 (record { hndl = waiting_frames; held = [] })
waiting_frames-Conserved = record {
  valid_e = omega arith;
  valid_f = omega arith;
  len_e = refl;
  len_f = refl;
  num = refl;
  total = refl;
  each = each_full;
}

abbrev slow_client : StreamClient ℕ Wire
slow_client = record {
  client = record {
    socket = pos 4;
    status = client_connect;
    net = record { out = []; inc = [] };
    closed = [];
    calls = [];
  };
  pool = waiting_frames;
}

ready : Ready (loopback 2 true) 9 2 4 2 head_bytes
ready = record {
  always = loopback-Open 1;
  sized = sized;
  usable = omega arith;
  rounds = omega arith;
}

one-Sendable : Sendable (loopback 2 true) 9 2 4 2 head_bytes one
one-Sendable = record {
  pred = 2;
  data_of = 7 ∷ 8 ∷ 9 ∷ [];
  size = refl;
  has = refl;
  fits = omega arith;
  fueled = omega arith;
}

two-Sendable : Sendable (loopback 2 true) 9 2 4 2 head_bytes two
two-Sendable = record {
  pred = 1;
  data_of = 5 ∷ 6 ∷ 0 ∷ [];
  size = refl;
  has = refl;
  fits = omega arith;
  fueled = omega arith;
}

abbrev nobody : Others ℕ
nobody = record { star = server_star; wakes = []; put_wakes = []; between = λ h. h; stale = false }

nobody-Quiet : Quiet nobody
nobody-Quiet = record { runs = refl; alone = λ h. refl }

slow_client-Queued :
    Queued (loopback 2 true) 9 2 4 2 head_bytes ((1, two) ∷ (0, one) ∷ []) slow_client
slow_client-Queued = record {
  own = waiting_frames-Conserved;
  room = omega arith;
  full = refl;
  stored = (refl, (refl, tt));
  socket = refl;
  connected = refl;
}

abbrev any_block : ℕ → Option (List ℕ)
any_block n = some (replicate n 0)

-- The server sends frame `one` again in the middle of a round.
abbrev busy : Others ℕ
busy = record {
  star = server_star;
  wakes = [];
  put_wakes = [];
  between = λ h. left_by (fill_buf any_block (pos 4) one (7 ∷ 8 ∷ 9 ∷ []) [] h);
  stale = false;
}

slow_client-Next : Next (loopback 2 true) 9 2 4 2 head_bytes 1 two slow_client
unfolding drop_cell
slow_client-Next = record {
  own = waiting_frames-Conserved;
  room = omega arith;
  some_full = omega arith;
  oldest = refl;
  first = refl;
  frame = refl;
  socket = refl;
}

late_frame-freed_example :
    (c : StreamClient ℕ Wire) × (stream_round
        (loopback 2 true)
        9
        head_bytes
        (pos 4)
        (pos 2)
        busy
        (pos 0)
        slow_client
      ≡ goes (pos 1) c)
    × (c.client.net.out ≡ 64 ∷ 2 ∷ 25 ∷ 5 ∷ 6 ∷ [])
    × (contents c.pool.full_que ≡ pos 0 ∷ pos 1 ∷ [])
    × (get_elem? c.pool.buf_info 1
        ≡ some (record (stored one (7 ∷ 8 ∷ 9 ∷ [])) { frame_data = none }))
unfolding drop_cell
late_frame-freed_example =
    late_frame-freed (loopback 2 true) 9 2 4 2 head_bytes any_block (replicate 3 0) (7 ∷ 8 ∷ 9 ∷ [])
      busy (pos 0) 1 two one slow_client ready two-Sendable slow_client-Next refl refl (omega arith)
      (λ h. refl)

-- The server stops while the two frames wait.
stream_loop-left_example :
    (h : BufHndl (BufInfo ℕ)) × (stream_loop
        (loopback 2 true)
        9
        head_bytes
        (pos 4)
        (pos 2)
        (record nobody { star = server_stop } ∷ [])
        (pos 0)
        slow_client
      ≡ left (record { client = record slow_client.client { closed = pos 4 ∷ [] }; pool = h }))
    × Freed h.buf_info ((1, two) ∷ (0, one) ∷ [])
    × Spared waiting_frames.buf_info h.buf_info ((1, two) ∷ (0, one) ∷ [])
stream_loop-left_example =
    stream_loop-left (loopback 2 true) 9 head_bytes (pos 4) (pos 2) 2 [] ((1, two) ∷ (0, one) ∷ [])
      (record nobody { star = server_stop }) [] (pos 0) slow_client refl waiting_frames-Conserved
      refl (refl, (refl, tt)) (omega arith)
