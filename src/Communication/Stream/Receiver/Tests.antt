-- ===== src/Communication/Stream/Receiver/Tests.antt =====
-- A client of frames that is given no buffer, and one that is sent no head.
use osa_base.Base.{ℕ, ◌≡◌, refl, true, Option, none, List, [], ◌∷◌, ℤ, pos}
use osa_base.Monitor.{assertion}
use osa_base.Socket.{tcp_rcv_block_fd}
use osa_base.Socket.Loopback.{Wire, loopback}
use osa_base.Communication.{client_connect}
use osa_base.Communication.Head.{check_stream_head, FrameHead, identifier_mark, byte_at}
use osa_base.Communication.Client.{in_loop}
use osa_base.Communication.Stream.Receiver.{Viewer, goes, stops, viewer_round}

-- a head of two bytes: the first is that of both marks, the second the length
abbrev short_head : List ℕ → FrameHead ℕ
short_head bs = record {
  check_start = record identifier_mark { first = byte_at bs 0 };
  n_frame_length = byte_at bs 1;
  others = 0;
  check_end = record identifier_mark { first = byte_at bs 0 };
}

abbrev no_block : ℤ → Option (List ℕ)
no_block n = none

abbrev watcher : List ℕ → Viewer ℕ Wire
watcher bytes = record {
  client = record {
    place = in_loop;
    handle = record { client_socket = pos 5; client_status = client_connect };
    socket = pos 5;
    net = record { out = []; inc = bytes };
    made = pos 5 ∷ [];
    closed = [];
    calls = [];
  };
  frames = [];
}

no_block_stops :
    viewer_round
      (loopback 4 true)
      9
      2
      short_head
      no_block
      (pos 1)
      (pos 9000)
      (watcher (64 ∷ 3 ∷ 7 ∷ []))
    ≡ stops assertion (watcher (7 ∷ []))
unfolding viewer_round tcp_rcv_block_fd check_stream_head
no_block_stops = refl

no_head_goes_on :
    viewer_round
      (loopback 4 true)
      9
      2
      short_head
      no_block
      (pos 1)
      (pos 9000)
      (watcher (63 ∷ 3 ∷ 7 ∷ []))
    ≡ goes (watcher (7 ∷ []))
unfolding viewer_round tcp_rcv_block_fd check_stream_head
no_head_goes_on = refl
