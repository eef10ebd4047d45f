-- ===== src/Communication/Message/Exchange.antt =====
-- A message that one end sends is the message that the other end deals with.
use osa_base.Base.{
  ℕ, suc, ◌+◌, ◌≤◌, ◌<◌, ◌≡◌, refl, sym, ap, ◌∙◌, true, false, Option, some, List, ◌++◌,
  append_assoc, length-append, take-take, take-append_front, take-append_back, ◌⊎◌, inl, inr,
  Bool-cases, length, take, take_all, length-take, replicate, ℤ, pos, sok, efail, ltb_ℤ, eq_ℤ,
  arith,
}
use osa_base.Socket.{Sock, Sent}
use osa_base.Socket.Send.{Delivered, snd-Delivered}
use osa_base.Socket.Receive.{Prompt, rcv_all}
use osa_base.Communication.{max_recv}
use osa_base.Communication.Head.{head_bytes, head_of, check_msg_head, init_msg_head}
use osa_base.Communication.Head.Bytes.{IsInt, head_of-head_bytes, length-head_bytes}
use osa_base.Communication.Message.{
  head_len, head_for, dealt, send_body, send_msg, buffer_for, recv_body, recv_load, recv_msg,
}

-- a message as it stands on the wire
abbrev pub wire : ℕ → ℤ → List ℕ → List ℕ
wire n code message = head_bytes (head_for (pos (suc n)) code) ++ take (suc n) message

-- all of a list
pub take_whole : {k : ℕ} (xs : List ℕ) → length xs ≡ k → take k xs ≡ xs
take_whole {k} xs e = ap (λ n. take n xs) (sym e) ∙ take_all xs

module _ {Net : Type 0} (sock : Sock Net) where
  -- what a call of the sending function leaves, as a part of what it was to send
  pub record SentPart (base whole : List ℕ) (ret : ℤ) (net' : Net) : Type 0 where
    pub k : ℕ
    pub given : sock.sent net' ≡ base ++ take k whole
    pub ends : ((ret ≡ sok) × (k ≡ length whole)) ⊎ ((ret ≡ efail) × (k < length whole))

  -- the head failed, or the message after it
  head_part :
      {base head : List ℕ} (rest : List ℕ) {r : Sent Net} {len : ℕ}
      → Delivered sock base head len r
      → len ≡ length head
      → eq_ℤ r.status sok ≡ false
      → SentPart base (head ++ rest) r.status r.net
  head_part {base} {head} rest d e bad = elim d.ends [
    | inl (a, b) ↦ absurd (ground arith)
    | inr (a, b) ↦ record {
      k = d.k;
      given = d.given ∙ ap (λ l. base ++ l) (sym (take-append_front d.k head rest (omega arith)));
      ends = inr (a, omega (arith, length-append head rest));
    }
  ]

  sent_whole :
      {base buf : List ℕ} {len : ℕ} {r : Sent Net}
      → Delivered sock base buf len r
      → eq_ℤ r.status sok ≡ true
      → sock.sent r.net ≡ base ++ take len buf
  sent_whole {base} {buf} d s = elim d.ends [
    | inl (a, b) ↦ d.given ∙ ap (λ k. base ++ take k buf) b
    | inr (a, b) ↦ absurd (ground arith)
  ]

  body_part :
      (base₀ head : List ℕ) {base message : List ℕ} {r : Sent Net} {len : ℕ}
      → Delivered sock base message len r
      → base ≡ base₀ ++ head
      → len ≤ length message
      → SentPart base₀ (head ++ take len message) r.status r.net
  body_part base₀ head {base} {message} {r} {len} d e fits =
      let size : length (head ++ take len message) ≡ length head + len =
        omega (arith, length-append head (take len message), length-take len message fits) in
      let le : d.k ≤ len = elim d.ends [ inl (a, b) ↦ omega arith | inr (a, b) ↦ omega arith ] in
      record {
        k = length head + d.k;
        given =
            d.given
            ∙ ap (λ b. b ++ take d.k message) e
            ∙ append_assoc base₀ head (take d.k message)
            ∙ ap (λ l. base₀ ++ (head ++ l)) (sym (take-take len d.k message le))
            ∙ ap (λ l. base₀ ++ l)
                (sym (take-append_back (length head + d.k) d.k head (take len message) refl));
        ends = elim d.ends [
          | inl (a, b) ↦ inl (a, omega arith)
          | inr (a, b) ↦ inr (a, omega arith)
        ];
      }

  module _ (fuel fd n : ℕ) (code : ℤ) (message : List ℕ) (net : Net) where
    -- OSA_client_sendMsg and OSA_server_sendMsg of `n + 1` bytes, on a socket that is not one of the
    -- first three, end within `n + 24` rounds of each loop. The bytes that the system has taken are
    -- the first `k` of the head and the message: all of them exactly if the status is `OSA_SOK`.
    pub send_msg-wire :
        3 ≤ fd
        → suc n ≤ length message
        → n + 23 < fuel
        → (ret : ℤ) × (net' : Net) × (send_msg sock fuel false
              (pos fd)
              (some message)
              (pos (suc n))
              code
              net
            ≡ some (ret, net'))
          × SentPart (sock.sent net) (wire n code message) ret net'
    unfolding send_msg send_body
    send_msg-wire usable fits enough =
        let head = head_bytes (head_for (pos (suc n)) code) in
        let t : ltb_ℤ (pos fd) (pos 3) ≡ false = ground arith in
        let p : ltb_ℤ (pos 0) (pos (suc n)) ≡ true = ground arith in
        let size = length-head_bytes (head_for (pos (suc n)) code) in
        let (r, e, d) = snd-Delivered sock fuel fd 15 head net (omega arith) (omega arith) in
        elim (Bool-cases (eq_ℤ r.status sok)) [
          | inr bad ↦ (
            r.status,
            r.net,
            rw (t, p, e, bad),
            head_part (take (suc n) message) d (sym size) bad,
          )
          | inl good ↦
              let (r', e', d') = snd-Delivered sock fuel fd n message r.net fits (omega arith) in
              (
                r'.status,
                r'.net,
                rw (t, p, e, good, e'),
                body_part (sock.sent net) head d'
                    (sent_whole d good ∙ ap (λ l. sock.sent net ++ l) (take_whole head size)) fits,
              )
        ]

    check_fits : check_msg_head (some (head_for (pos (suc n)) code)) ≡ pos 0
    unfolding check_msg_head init_msg_head
    check_fits = ground arith

    block_for :
        (mem_alloc : ℤ → Option (List ℕ)) (block : List ℕ)
        → mem_alloc (pos (suc n)) ≡ some block
        → suc n ≤ length block
        → (b : List ℕ) × (buffer_for sock mem_alloc (pos (suc n)) ≡ some b) × (suc n ≤ length b)
    block_for mem_alloc block e room = elim (Bool-cases (ltb_ℤ (pos max_recv) (pos (suc n)))) [
      | inl large ↦ (block, rw (large, e), room)
      | inr small ↦
          let le : suc n ≤ max_recv = ground arith in (replicate max_recv 0, rw small, omega arith)
    ]

    -- Where the stream begins with a message on the wire, the receiving end of either thread calls
    -- back with the head and the message that were sent and reads them off the stream, however the
    -- connection cuts them up, provided it gives what it has and memory is not exhausted.
    pub recv_msg-wire :
        (mem_alloc : ℤ → Option (List ℕ)) (block more : List ℕ)
        → Prompt sock
        → suc n ≤ length message
        → suc n < 2147483648
        → IsInt code
        → mem_alloc (pos (suc n)) ≡ some block
        → suc n ≤ length block
        → n + 23 < fuel
        → sock.incoming net ≡ wire n code message ++ more
        → (buf : List ℕ) × (net' : Net) × (recv_msg sock fuel mem_alloc (pos fd) net
            ≡ some
                (dealt (record { msg_head = head_for (pos (suc n)) code; recv_value = buf }) net'))
          × (take (suc n) buf ≡ take (suc n) message)
          × (sock.incoming net' ≡ more)
    unfolding recv_msg recv_load recv_body init_msg_head
    recv_msg-wire mem_alloc block more prompt fits int int' alloc room enough e =
        let head = head_for (pos (suc n)) code in
        let (r, q, s, t, i, l) =
          rcv_all sock fuel fd 15 (replicate head_len 0) net (head_bytes head)
            (take (suc n) message ++ more) prompt (length-head_bytes head) (omega arith)
            (e ∙ append_assoc (head_bytes head) (take (suc n) message) more) (omega arith) in
        let whole : head_of r.buf ≡ head =
          ap head_of (sym (take_whole r.buf l) ∙ t)
          ∙ head_of-head_bytes head int int' (omega arith) in
        let (b, f, size) = block_for mem_alloc block alloc room in
        let (r', q', s', t', i', l') =
          rcv_all sock fuel fd n b r.net (take (suc n) message) more prompt
            (length-take (suc n) message fits) size i (omega arith) in
        (r'.buf, r'.net, rw (q, s, whole, check_fits, f, q', s'), t', i')
