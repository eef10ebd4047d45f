-- ===== src/Socket/Tests.antt =====
-- The loops over a connection at concrete bytes.
use osa_base.Base.{
  ℕ, ◌≡◌, refl, true, some, List, [], ◌∷◌, take, length, pos, sok, arith, replicate,
}
use osa_base.Socket.{Sent, Received, tcp_snd_nonblock_fd, tcp_rcv_block_fd}
use osa_base.Socket.Send.{Delivered, snd-Delivered}
use osa_base.Socket.Receive.{Gathered, rcv-Gathered, rcv_all}
use osa_base.Socket.Loopback.{Wire, loopback, loopback-Prompt}

abbrev fresh : Wire
fresh = record { out = 9 ∷ []; inc = 1 ∷ 2 ∷ 3 ∷ 4 ∷ [] }

abbrev text : List ℕ
text = 10 ∷ 20 ∷ 30 ∷ 40 ∷ 50 ∷ []

snd-Delivered_example :
    (r : Sent Wire) × (tcp_snd_nonblock_fd
        (loopback 2 true)
        20
        (pos 7)
        (some text)
        (some (pos 4))
        fresh
      ≡ some (r.status, some r.snd_len, r.net))
    × Delivered (loopback 2 true) (9 ∷ []) text 4 r
snd-Delivered_example =
    snd-Delivered (loopback 2 true) 20 7 3 text fresh (omega arith) (omega arith)

snd_runs :
    tcp_snd_nonblock_fd (loopback 2 true) 20 (pos 7) (some text) (some (pos 4)) fresh
    ≡ some (sok, some (pos 4), record { out = 9 ∷ 10 ∷ 20 ∷ 30 ∷ 40 ∷ []; inc = fresh.inc })
unfolding tcp_snd_nonblock_fd
snd_runs = refl

rcv-Gathered_example :
    (r : Received Wire) × (tcp_rcv_block_fd
        (loopback 2 true)
        20
        (pos 7)
        (some (replicate 8 0))
        (pos 6)
        fresh
      ≡ some r)
    × Gathered (loopback 2 true) (1 ∷ 2 ∷ 3 ∷ 4 ∷ []) (replicate 8 0) 6 r
rcv-Gathered_example = rcv-Gathered (loopback 2 true) 20 7 5 (replicate 8 0) fresh (omega arith)

rcv_all_example :
    (r : Received Wire) × (tcp_rcv_block_fd
        (loopback 2 true)
        20
        (pos 7)
        (some (replicate 8 0))
        (pos 3)
        fresh
      ≡ some r)
    × (r.status ≡ sok)
    × (take 3 r.buf ≡ 1 ∷ 2 ∷ 3 ∷ [])
    × (r.net.inc ≡ 4 ∷ [])
    × (length r.buf ≡ 8)
rcv_all_example =
    rcv_all (loopback 2 true) 20 7 2 (replicate 8 0) fresh (1 ∷ 2 ∷ 3 ∷ []) (4 ∷ [])
      (loopback-Prompt 2 true (omega arith)) refl (omega arith) refl (omega arith)
