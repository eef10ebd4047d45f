-- ===== src/Communication/Message/Ends.antt =====
-- Receiving a message ends, whatever the peer sends and the system answers.
use osa_base.Base.{
  of_u32, ℕ, zero, suc, ◌+◌, ◌*◌, ◌<◌, ◌≡◌, refl, Option, none, some, List, inl, inr, Bool-cases,
  ltb, replicate, ℤ, pos, negsuc, sok, eq_ℤ, arith,
}
use osa_base.Socket.{Sock, Received, taken_by, tcp_rcv_block_fd}
use osa_base.Socket.Receive.{rcv-Gathered}
use osa_base.Communication.Head.{head_of, byte_at, check_msg_head}
use osa_base.Communication.Message.{
  Attempt, dealt, bad_head, lost, head_len, buffer_for, recv_msg, recv_load, recv_body,
}

of_u32_lt : (u : ℕ) → taken_by (of_u32 u) < 2147483648
of_u32_lt u = elim (Bool-cases (ltb u 2147483648)) [
  | inl small ↦ rw small (ground arith)
  | inr large ↦ rw large (omega arith)
]

load_len_lt : (bs : List ℕ) → taken_by ((head_of bs).load_len) < 2147483648
unfolding head_of
load_len_lt bs =
    of_u32_lt (byte_at bs 4 + 256 * byte_at bs 5 + 65536 * byte_at bs 6 + 16777216 * byte_at bs 7)

module _ {Net : Type 0} (sock : Sock Net) (fuel : ℕ) (mem_alloc : ℤ → Option (List ℕ)) where
  -- OSA_tcpRcvBlockFd ends for all arguments.
  rcv_ends :
      (fd : ℤ) (buf : Option (List ℕ)) (len : ℤ) (net : Net)
      → taken_by len + 3 < fuel
      → (r : Received Net) × (tcp_rcv_block_fd sock fuel fd buf len net ≡ some r)
  unfolding tcp_rcv_block_fd
  rcv_ends fd none len net enough = (_, refl)
  rcv_ends fd (some buf) (negsuc n) net enough = (_, refl)
  rcv_ends fd (some buf) (pos zero) net enough = (_, refl)
  rcv_ends (negsuc fd) (some buf) (pos (suc n)) net enough = (_, refl)
  rcv_ends (pos fd) (some buf) (pos (suc n)) net enough =
      let (r, e, g) = rcv-Gathered sock fuel fd n buf net (omega arith) in (r, e)

  body_ends :
      (fd : ℤ) (r : Received Net)
      → 2147483650 < fuel
      → (a : Attempt Net) × (recv_body sock fuel fd (head_of r.buf) (
            tcp_rcv_block_fd sock fuel fd
              (buffer_for sock mem_alloc ((head_of r.buf).load_len))
              ((head_of r.buf).load_len)
              r.net)
          ≡ some a)
  unfolding recv_body
  body_ends fd r enough =
      let head = head_of r.buf in
      let (r', e) =
        rcv_ends fd (buffer_for sock mem_alloc head.load_len) head.load_len r.net
          (omega (arith, load_len_lt r.buf)) in
      elim (Bool-cases (eq_ℤ r'.status sok)) [
        | inl good ↦ (dealt (record { msg_head = head; recv_value = r'.buf }) r'.net, rw (e, good))
        | inr bad ↦ (lost r'.status r'.net, rw (e, bad))
      ]

  -- An attempt to receive a message ends, as a length is below 2^31.
  pub recv_msg-ends :
      (fd : ℤ) (net : Net)
      → 2147483650 < fuel
      → (a : Attempt Net) × (recv_msg sock fuel mem_alloc fd net ≡ some a)
  unfolding recv_msg recv_load
  recv_msg-ends fd net enough =
      let (r, e) = rcv_ends fd (some (replicate head_len 0)) (pos head_len) net (omega arith) in
      elim (Bool-cases (eq_ℤ r.status sok)) [
        | inr bad ↦ (lost r.status r.net, rw (e, bad))
        | inl good ↦ elim (Bool-cases (eq_ℤ (check_msg_head (some (head_of r.buf))) (pos 0))) [
          | inr wrong ↦ (bad_head r.net, rw (e, good, wrong))
          | inl right ↦ let (a, f) = body_ends fd r enough in (a, rw (e, good, right) f)
        ]
      ]
