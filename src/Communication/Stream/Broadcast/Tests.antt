-- ===== src/Communication/Stream/Broadcast/Tests.antt =====
-- Frames from a server with two buffers to a client.
use osa_base.Base.{
  ℕ, ◌+◌, ◌≡◌, refl, true, false, Option, none, some, List, [], ◌∷◌, ◌++◌, replicate, arith, ℤ, pos,
  negsuc,
}
use osa_base.Base.Count.{count, one_if}
use osa_base.Monitor.{returned}
use osa_base.Que.{InitStatus}
use osa_base.Que.Observers.{AllZero}
use osa_base.Socket.Loopback.{Wire, loopback, loopback-Open, loopback-Prompt}
use osa_base.Buf.{BufHndl}
use osa_base.Buf.Pool.{in_range, Conserved}
use osa_base.Communication.{server_star, client_connect}
use osa_base.Communication.Head.{Mark, FrameHead, byte_at}
use osa_base.Communication.Client.{Around, in_loop}
use osa_base.Communication.Stream.{BufInfo}
use osa_base.Communication.Stream.Sender.{StreamClient, Others, goes, stream_loop, process_stream}
use osa_base.Communication.Stream.Sender.Sends.{Quiet, Ready, Sendable}
use osa_base.Communication.Stream.Sender.Deliver.{Queued}
use osa_base.Communication.Stream.Receiver
use osa_base.Communication.Stream.Receiver.{Viewer, with_net, viewer_process}
use osa_base.Communication.Stream.Receiver.Arrival.{Fits, Layout, Watches, shown}
use osa_base.Communication.Stream.Broadcast.{fill_all, meant_frames}
use osa_base.Communication.Stream.Broadcast.Arrives.{frames_arrive}
use osa_base.Communication.Stream.Broadcast.Served.{rounds_of, stream_served}

abbrev no_mark : Mark
no_mark = record { first = 0; second = 0; third = 0; fourth = 0 }

-- a head whose other members are one number, before it is marked
abbrev head_with : ℕ → FrameHead ℕ
head_with len = record {
  check_start = no_mark;
  n_frame_length = len;
  others = 25;
  check_end = no_mark;
}

abbrev to_bytes : FrameHead ℕ → List ℕ
to_bytes h =
    h.check_start.first ∷ h.check_start.second ∷ h.check_start.third ∷ h.check_start.fourth
    ∷ h.n_frame_length ∷ h.others ∷ h.check_end.first ∷ h.check_end.second ∷ h.check_end.third
    ∷ h.check_end.fourth ∷ []

abbrev of_bytes : List ℕ → FrameHead ℕ
of_bytes bs = record {
  check_start = record {
    first = byte_at bs 0;
    second = byte_at bs 1;
    third = byte_at bs 2;
    fourth = byte_at bs 3;
  };
  n_frame_length = byte_at bs 4;
  others = byte_at bs 5;
  check_end = record {
    first = byte_at bs 6;
    second = byte_at bs 7;
    third = byte_at bs 8;
    fourth = byte_at bs 9;
  };
}

abbrev three_bytes : BufInfo ℕ
three_bytes = record { head = head_with 3; frame_data = some (7 ∷ 8 ∷ 9 ∷ []) }

abbrev two_bytes : BufInfo ℕ
two_bytes = record { head = head_with 2; frame_data = some (5 ∷ 6 ∷ 0 ∷ []) }

abbrev both_frames : List (BufInfo ℕ)
both_frames = three_bytes ∷ two_bytes ∷ []

abbrev all_empty : BufHndl (BufInfo ℕ)
all_empty = record {
  buf_info =
      record { head = head_with 0; frame_data = none }
      ∷ record { head = head_with 0; frame_data = none }
      ∷ [];
  empty_que = record { cur_rd = 0; cur_wr = 0; len = 2; count = 2; queue = pos 0 ∷ pos 1 ∷ [] };
  full_que = record { cur_rd = 0; cur_wr = 0; len = 2; count = 0; queue = pos 9 ∷ pos 9 ∷ [] };
  num_buf = pos 2;
}

each_empty :
    (i : ℤ) → count i (pos 0 ∷ pos 1 ∷ []) + count i [] + count i [] ≡ one_if (in_range 2 i)
each_empty (pos k) = ground arith
each_empty (negsuc k) = refl

all_empty-Conserved : Conserved 2 (record { hndl = all_empty; held = [] })
all_empty-Conserved = record {
  valid_e = omega arith;
  valid_f = omega arith;
  len_e = refl;
  len_f = refl;
  num = refl;
  total = refl;
  each = each_empty;
}

abbrev idle_client : StreamClient ℕ Wire
idle_client = record {
  client = record {
    socket = pos 4;
    status = client_connect;
    net = record { out = []; inc = [] };
    closed = [];
    calls = [];
  };
  pool = all_empty;
}

idle_client-Queued : Queued (loopback 2 true) 20 9 4 2 to_bytes [] idle_client
idle_client-Queued = record {
  own = all_empty-Conserved;
  room = omega arith;
  full = refl;
  stored = tt;
  socket = refl;
  connected = refl;
}

ready : Ready (loopback 2 true) 20 9 4 2 to_bytes
ready = record {
  always = loopback-Open 1;
  sized = λ h. refl;
  usable = omega arith;
  rounds = omega arith;
}

three_bytes-Sendable : Sendable (loopback 2 true) 20 9 4 2 to_bytes three_bytes
three_bytes-Sendable = record {
  pred = 2;
  data_of = 7 ∷ 8 ∷ 9 ∷ [];
  size = refl;
  has = refl;
  fits = omega arith;
  fueled = omega arith;
}

two_bytes-Sendable : Sendable (loopback 2 true) 20 9 4 2 to_bytes two_bytes
two_bytes-Sendable = record {
  pred = 1;
  data_of = 5 ∷ 6 ∷ 0 ∷ [];
  size = refl;
  has = refl;
  fits = omega arith;
  fueled = omega arith;
}

abbrev nobody : Others ℕ
nobody = record { star = server_star; wakes = []; put_wakes = []; between = λ h. h; stale = false }

nobody-Quiet : Quiet nobody
nobody-Quiet = record { runs = refl; alone = λ h. refl }

abbrev any_block : ℕ → Option (List ℕ)
any_block n = some (replicate n 0)

-- the client's get_emptybuf
abbrev eight_bytes : ℤ → Option (List ℕ)
eight_bytes n = some (replicate 8 0)

three_bytes-Fits : Fits (loopback 3 true) 20 10 of_bytes eight_bytes three_bytes
three_bytes-Fits = record {
  pred = 2;
  size = refl;
  whole = omega arith;
  is_int = omega arith;
  block = replicate 8 0;
  given = refl;
  room = omega arith;
  rounds = omega arith;
}

two_bytes-Fits : Fits (loopback 3 true) 20 10 of_bytes eight_bytes two_bytes
two_bytes-Fits = record {
  pred = 1;
  size = refl;
  whole = omega arith;
  is_int = omega arith;
  block = replicate 8 0;
  given = refl;
  room = omega arith;
  rounds = omega arith;
}

layout : Layout (loopback 3 true) 20 10 of_bytes eight_bytes to_bytes
layout = record { pred = 9; size = refl; sized = λ h. refl; back = λ h. refl; rounds = omega arith }

abbrev watcher : Viewer ℕ Wire
watcher = record {
  client = record {
    place = in_loop;
    handle = record { client_socket = pos 5; client_status = client_connect };
    socket = pos 5;
    net = record { out = []; inc = [] };
    made = pos 5 ∷ [];
    closed = [];
    calls = [];
  };
  frames = [];
}

watcher-Watches : Watches (loopback 3 true) 20 10 of_bytes eight_bytes (pos 1) (pos 9000) 5 watcher
watcher-Watches = record { place = refl; status = refl; socket = refl }

abbrev calm : Around Wire
calm = record {
  socket = pos 5;
  connected = pos 0;
  net = record { out = []; inc = [] };
  destroyed = false;
}

-- the client's end of the connection
abbrev other_end : Wire → Wire
other_end net = record { out = []; inc = net.out }

frames_arrive_example :
    (h : BufHndl (BufInfo ℕ)) × (last : ℤ) × (c' : StreamClient ℕ Wire) × (v' : Viewer ℕ Wire)
    × (fill_all any_block (pos 4) both_frames all_empty ≡ returned (pos 0) tt h [])
    × (stream_loop
          (loopback 2 true)
          20
          to_bytes
          (pos 4)
          (pos 2)
          (nobody ∷ nobody ∷ [])
          (pos 0)
          (record idle_client { pool = h })
        ≡ goes last c')
    × Queued (loopback 2 true) 20 9 4 2 to_bytes [] c'
    × (viewer_process
          (loopback 3 true)
          20
          10
          of_bytes
          eight_bytes
          (pos 1)
          (pos 9000)
          (calm ∷ calm ∷ [])
          (with_net (other_end c'.client.net) watcher)
        ≡ Receiver.goes v')
    × (shown v'.frames ≡ [] ++ meant_frames both_frames)
frames_arrive_example =
    frames_arrive (loopback 2 true) 20 9 4 2 to_bytes (loopback 3 true) 20 10 of_bytes eight_bytes
      (pos 1) (pos 9000) any_block both_frames (nobody ∷ nobody ∷ []) (calm ∷ calm ∷ []) (pos 0) 5
      idle_client watcher other_end ready ((replicate 3 0, refl), ((replicate 2 0, refl), tt))
      (three_bytes-Sendable, (two_bytes-Sendable, tt)) (three_bytes-Fits, (two_bytes-Fits, tt))
      (omega arith) idle_client-Queued (nobody-Quiet, (nobody-Quiet, tt)) refl
      (loopback-Prompt 3 true (omega arith)) layout (refl, (refl, tt)) refl watcher-Watches refl
      (λ net. refl)

abbrev zeros : InitStatus
zeros = record { mutexattr = 0; condattr = 0; mutex = 0; cond_rd = 0; cond_wr = 0 }

zeros-AllZero : AllZero zeros
zeros-AllZero = record {
  mutexattr = refl;
  condattr = refl;
  mutex = refl;
  cond_rd = refl;
  cond_wr = refl;
}

abbrev cells : List ℤ
cells = pos 9 ∷ pos 9 ∷ []

-- Three frames go through two buffers.
abbrev all_three : List (BufInfo ℕ)
all_three = three_bytes ∷ two_bytes ∷ three_bytes ∷ []

stream_served_example :
    (last : ℤ) × (c' : StreamClient ℕ Wire) × (v' : Viewer ℕ Wire) × (process_stream
        (loopback 2 true)
        20
        to_bytes
        (pos 2)
        three_bytes
        (some cells)
        (some cells)
        zeros
        zeros
        (rounds_of (loopback 2 true) 20 9 4 2 to_bytes any_block all_three)
        idle_client
      ≡ goes last c')
    × Queued (loopback 2 true) 20 9 4 2 to_bytes [] c'
    × (viewer_process
          (loopback 3 true)
          20
          10
          of_bytes
          eight_bytes
          (pos 1)
          (pos 9000)
          (calm ∷ calm ∷ calm ∷ [])
          (with_net (other_end c'.client.net) watcher)
        ≡ Receiver.goes v')
    × (shown v'.frames ≡ [] ++ meant_frames all_three)
stream_served_example =
    stream_served (loopback 2 true) 20 9 4 2 to_bytes (loopback 3 true) 20 10 of_bytes eight_bytes
      (pos 1) (pos 9000) any_block all_three (calm ∷ calm ∷ calm ∷ []) three_bytes cells cells zeros
      zeros 5 idle_client watcher other_end ready
      ((replicate 3 0, refl), ((replicate 2 0, refl), ((replicate 3 0, refl), tt)))
      (three_bytes-Sendable, (two_bytes-Sendable, (three_bytes-Sendable, tt)))
      (three_bytes-Fits, (two_bytes-Fits, (three_bytes-Fits, tt))) refl (omega arith) (omega arith)
      refl refl zeros-AllZero zeros-AllZero (loopback-Prompt 3 true (omega arith)) layout
      (refl, (refl, (refl, tt))) refl watcher-Watches refl (λ net. refl)
