-- ===== src/Communication/Stream/Sender/Begins.antt =====
-- How the thread of communication/osa_communication.c that sends frames to a client begins.
use osa_base.Base.{
  ℕ, ◌≤◌, ◌<◌, ◌≡◌, refl, ap, ◌∙◌, false, some, List, [], length, arith, ℤ, pos, ltb_ℤ,
}
use osa_base.Socket.{Sock}
use osa_base.Que.{InitStatus}
use osa_base.Que.Observers.{AllZero}
use osa_base.Buf.{buf_num_max}
use osa_base.Buf.Fresh.{create-Conserved}
use osa_base.Communication.{client_connect}
use osa_base.Communication.Head.{FrameHead}
use osa_base.Communication.Server.{set_client_status}
use osa_base.Communication.Stream.{BufInfo}
use osa_base.Communication.Stream.Sender.{StreamClient, Others, stream_loop, process_stream}
use osa_base.Communication.Stream.Sender.Deliver.{Queued}

module _ {R Net : Type 0} (sock : Sock Net) (fuel head_size fd n : ℕ)
    (head_bytes : FrameHead R → List ℕ) where
  -- The thread of a client whose socket is none of the first three gets to its loop, connected, and
  -- with `n` empty buffers, where there is memory and the initialisers succeed, and `n` is 1 to
  -- OSA_BUF_NUM_MAX.
  pub process_stream-Queued :
      (zeroed : BufInfo R) (cells_e cells_f : List ℤ) (inits_e inits_f : InitStatus)
      (rounds : List (Others R)) (c : StreamClient R Net)
      → 3 ≤ fd
      → c.client.socket ≡ pos fd
      → 0 < n
      → n ≤ buf_num_max
      → length cells_e ≡ n
      → length cells_f ≡ n
      → AllZero inits_e
      → AllZero inits_f
      → (c' : StreamClient R Net) × (process_stream sock fuel head_bytes
            (pos n)
            zeroed
            (some cells_e)
            (some cells_f)
            inits_e
            inits_f
            rounds
            c
          ≡ stream_loop sock fuel head_bytes (pos fd) (pos n) rounds (pos 0) c')
        × Queued sock fuel head_size fd n head_bytes [] c'
        × (c'.client.net ≡ c.client.net)
  unfolding process_stream set_client_status
  process_stream-Queued zeroed cells_e cells_f inits_e inits_f rounds c usable at low high le lf ze
        zf =
      let (h, run, own, empties, fulls, infos) =
        create-Conserved zeroed n cells_e cells_f inits_e inits_f c.pool low high le lf ze zf in
      let low_fd : ltb_ℤ (pos fd) (pos 3) ≡ false = ground arith in
      let above : ltb_ℤ c.client.socket (pos 3) ≡ false = ap (λ s. ltb_ℤ s (pos 3)) at ∙ low_fd in
      let d : StreamClient R Net = record {
        client = set_client_status client_connect c.client;
        pool = h;
      } in
      (
        d,
        rw (process_stream, run, above)
            (ap (λ s. stream_loop sock fuel head_bytes s (pos n) rounds (pos 0) d) at),
        record {
          own = own;
          room = omega (arith, infos, high);
          full = fulls;
          stored = tt;
          socket = at;
          connected = refl;
        },
        refl,
      )
