-- ===== src/Communication/Stream.antt =====
-- Frames in communication/osa_communication.c: server_fill_buf, OSA_server_sendBuf and net_send_buf.
pub mod Frames
pub mod Wire
pub mod Sender
pub mod Receiver
pub mod Broadcast
use osa_base.Base.{
  ℕ, zero, suc, Bool, true, false, not, ◌&&◌, ◌||◌, Option, none, some, List, [], ◌∷◌, ◌++◌,
  if◌then◌else◌, length, get_elem?, set, take, ℤ, pos, negsuc, sok, efail, eq_ℤ, ltb_ℤ,
}
use osa_base.Monitor.{
  Outcome, returned, waiting, stopped, fault, assertion, after, timeout_none, timeout_forever,
}
use osa_base.Socket.{Sock, tcp_snd_nonblock_fd}
use osa_base.Buf.{BufHndl}
use osa_base.Buf
use osa_base.Communication.Head.{FrameHead, init_stream_head}

-- OSA_BufInfo, with the bytes behind `data` in `frame_data`; `none` is NULL.
pub record BufInfo (R : Type 0) : Type 0 where
  pub head : FrameHead R
  pub frame_data : Option (List ℕ)

module _ {R : Type 0} where
  -- `clientBuf_Hndl.bufInfo[bufId] = info`; what is not in the array is a fault.
  abbrev pub store_info : ℤ → BufInfo R → BufHndl (BufInfo R) → Option (BufHndl (BufInfo R))
  store_info (negsuc n) info h = none
  store_info (pos n) info h = elim (get_elem? h.buf_info n) [
    | none ↦ none
    | some old ↦ some (record h { buf_info = set h.buf_info n info })
  ]

  -- server_fill_buf, once it has an empty buffer; `mem_alloc` is OSA_memAlloc, and the data are not
  -- NULL.
  unfoldable pub fill_at :
      (ℕ → Option (List ℕ))
      → BufInfo R
      → List ℕ
      → ℤ
      → List (BufHndl (BufInfo R) → BufHndl (BufInfo R))
      → BufHndl (BufInfo R)
      → Outcome (Unit {0}) (BufHndl (BufInfo R))
  unfolding init_stream_head
  fill_at mem_alloc info bytes buf_id wakes h =
      let head = (init_stream_head info.head).1 in
      elim (mem_alloc head.n_frame_length) [
        | none ↦ stopped assertion h
        | some block ↦
            elim (store_info buf_id
              (record { head = head; frame_data = some (take head.n_frame_length bytes) }) h) [
                | none ↦ stopped fault h
                | some h' ↦
                    after (Buf.put_full false buf_id wakes h')
                      λ s u h'' rest. returned (pos 0) tt h'' rest
              ]
      ]

  -- server_fill_buf; `socket` is what get_client_socket returns.
  unfoldable pub fill_buf :
      (ℕ → Option (List ℕ))
      → (socket : ℤ) → BufInfo R
      → List ℕ
      → List (BufHndl (BufInfo R) → BufHndl (BufInfo R))
      → BufHndl (BufInfo R)
      → Outcome (Unit {0}) (BufHndl (BufInfo R))
  unfolding fill_at
  fill_buf mem_alloc socket info bytes wakes h =
      if ltb_ℤ socket (pos 3)
      then returned (negsuc 0) tt h wakes
      else after (Buf.get_empty false false timeout_none wakes h) λ s out h' wakes'.
        if not (eq_ℤ s sok) then returned (pos 0) tt h' wakes' else elim out [
          | none ↦ stopped fault h'
          | some buf_id ↦ fill_at mem_alloc info bytes buf_id wakes' h'
        ]

  -- the loop of OSA_server_sendBuf over the list of clients, each with its socket and its buffers; it
  -- ends at a call that does not return.
  unfoldable pub send_bufs :
      (ℕ → Option (List ℕ))
      → BufInfo R
      → List ℕ
      → List (ℤ × BufHndl (BufInfo R))
      → List (Outcome (Unit {0}) (BufHndl (BufInfo R)))
  unfolding fill_buf
  send_bufs mem_alloc info bytes [] = []
  send_bufs mem_alloc info bytes ((socket, h) ∷ cs) =
      let rest = send_bufs mem_alloc info bytes cs in
      elim (fill_buf mem_alloc socket info bytes [] h) [
        | returned s u h' wakes ↦ returned s u h' wakes ∷ rest
        | waiting h' ↦ waiting h' ∷ []
        | stopped why h' ↦ stopped why h' ∷ []
      ]

  -- OSA_server_sendBuf; the lock keeps the list as it is.
  unfoldable pub send_buf :
      (handle_null : Bool)
      → (ℕ → Option (List ℕ))
      → BufInfo R
      → List (ℤ × BufHndl (BufInfo R))
      → ℤ × List (Outcome (Unit {0}) (BufHndl (BufInfo R)))
  unfolding send_bufs
  send_buf handle_null mem_alloc info clients = elim info.frame_data [
    | none ↦ (efail, [])
    | some bytes ↦
        if handle_null then (efail, []) else (sok, send_bufs mem_alloc info bytes clients)
  ]

  module _ {Net : Type 0} (sock : Sock Net) where
    -- net_send_buf; `head_bytes` are the bytes of a Frame_Head_t in memory, all of them.
    unfoldable pub net_send_buf :
        ℕ → (head_bytes : FrameHead R → List ℕ) → (socket : ℤ) → BufInfo R → Net → Option (ℤ × Net)
    net_send_buf fuel head_bytes socket info net = elim info.frame_data [
      | none ↦ some (negsuc 0, net)
      | some bytes ↦
          if ltb_ℤ socket (pos 3)
          then some (negsuc 0, net)
          else elim (tcp_snd_nonblock_fd sock fuel socket (some (head_bytes info.head))
              (some (pos (length (head_bytes info.head)))) net) [
                | none ↦ none
                | some (ret, len, net') ↦
                    if not (eq_ℤ ret sok)
                    then some (ret, net')
                    else elim (tcp_snd_nonblock_fd sock fuel socket (some bytes)
                        (some (pos info.head.n_frame_length)) net') [
                          | none ↦ none
                          | some (ret', len', net'') ↦ some (ret', net'')
                        ]
              ]
    ]
