-- ===== src/Socket/Send.antt =====
-- What OSA_tcpSndNonblockFd of socket/osa_socket.c hands to the system, and when it ends.
use osa_base.Base.{
  ℕ, zero, suc, ◌+◌, ◌-◌, ◌≤◌, ◌<◌, ◌≡◌, refl, sym, ap, ◌∙◌, Bool, true, false, Option, some, List,
  ◌++◌, append-nil, append_assoc, ◌⊎◌, inl, inr, Bool-cases, ltb, length, take, drop, length-take,
  length-drop, take_more, take-take, ℤ, pos, negsuc, sok, efail, ltb_ℤ, arith,
}
use osa_base.Socket.{Sock, Sent, taken_by, snd_ready, snd_selected, snd_loop, tcp_snd_nonblock_fd}

module _ {Net : Type 0} (sock : Sock Net) where
  -- What a call leaves that began when the system had taken `base`: the first `k` bytes of the buffer
  -- are sent, all `len` of them exactly if the status is `OSA_SOK`.
  pub record Delivered (base buf : List ℕ) (len : ℕ) (r : Sent Net) : Type 0 where
    pub k : ℕ
    pub counted : r.snd_len ≡ pos k
    pub given : sock.sent r.net ≡ base ++ take k buf
    pub ends : ((r.status ≡ sok) × (k ≡ len)) ⊎ ((r.status ≡ efail) × (k < len))

  failed :
      (base buf : List ℕ) (len total : ℕ) (net : Net)
      → sock.sent net ≡ base ++ take total buf
      → total < len
      → Delivered base buf len (record { status = efail; snd_len = pos total; net = net })
  failed base buf len total net g h = record {
    k = total;
    counted = refl;
    given = g;
    ends = inr (refl, h);
  }

  -- The bytes that one send takes follow those that were taken before.
  pub send_given :
      (base buf : List ℕ) (len total : ℕ) (net : Net)
      → sock.sent net ≡ base ++ take total buf
      → len ≤ length buf
      → total < len
      → let (n, net') = sock.send (take (len - total) (drop total buf)) net in
        (total + taken_by n ≤ len) × (sock.sent net' ≡ base ++ take (total + taken_by n) buf)
  send_given base buf len total net g fits h =
      let slice = take (len - total) (drop total buf) in
      let n = taken_by ((sock.send slice net).0) in
      let size : length slice ≡ len - total =
        length-take (len - total) (drop total buf) (omega (arith, length-drop total buf)) in
      let le : n ≤ len - total = omega (arith, sock.send_le slice net) in
      (
        omega arith,
        sock.send_sent slice net
            ∙ ap (λ l. l ++ take n slice) g
            ∙ ap (λ l. (base ++ take total buf) ++ l)
                (take-take (len - total) n (drop total buf) le)
            ∙ append_assoc base (take total buf) (take n (drop total buf))
            ∙ ap (λ l. base ++ l) (take_more total n buf),
      )

  module _ (base buf : List ℕ) (len : ℕ) (fits : len ≤ length buf) where
    -- what a continuation of the loop does with `bound` rounds
    Goes : (ℕ → ℕ → Bool → Net → Option (Sent Net)) → ℕ → Type 0
    Goes go bound =
        (t y : ℕ) (w : Bool) (n : Net)
        → t ≤ len
        → y ≤ 6
        → sock.sent n ≡ base ++ take t buf
        → (len - t) + (6 - y) < bound
        → (r : Sent Net) × (go t y w n ≡ some r) × Delivered base buf len r

    ready-Delivered :
        (go : ℕ → ℕ → Bool → Net → Option (Sent Net)) (bound total y : ℕ) (ret : ℤ) (net : Net)
        → Goes go bound
        → total < len
        → y ≤ 6
        → (len - total) + (6 - y) < suc bound
        → total + taken_by ret ≤ len
        → sock.sent net ≡ base ++ take (total + taken_by ret) buf
        → (r : Sent Net) × (snd_ready sock (λ t w n. go t y w n) total (ret, net) ≡ some r)
          × Delivered base buf len r
    unfolding snd_ready Goes
    ready-Delivered go bound total y (pos zero) net goes h hy hb le g =
        let z : total + 0 ≡ total = omega arith in
        (
          record { status = efail; snd_len = pos total; net = net },
          refl,
          failed base buf len total net (g ∙ ap (λ t. base ++ take t buf) z) h,
        )
    ready-Delivered go bound total y (pos (suc n)) net goes h hy hb le g =
        goes (total + suc n) y true net le hy g (omega arith)
    ready-Delivered go bound total y (negsuc n) net goes h hy hb le g =
        let z : total + 0 ≡ total = omega arith in
        (
          record { status = efail; snd_len = pos total; net = net },
          refl,
          failed base buf len total net (g ∙ ap (λ t. base ++ take t buf) z) h,
        )

    selected-Delivered :
        (go : ℕ → ℕ → Bool → Net → Option (Sent Net)) (bound total y : ℕ) (ret : ℤ) (is_set : Bool)
        (net : Net)
        → Goes go bound
        → total < len
        → y ≤ 6
        → (len - total) + (6 - y) < suc bound
        → sock.sent net ≡ base ++ take total buf
        → (r : Sent Net) × (snd_selected sock go buf len total y ret is_set net ≡ some r)
          × Delivered base buf len r
    unfolding snd_selected Goes
    selected-Delivered go bound total y (negsuc n) is_set net goes h hy hb g = (
      record { status = efail; snd_len = pos total; net = net },
      refl,
      failed base buf len total net g h,
    )
    selected-Delivered go bound total y (pos zero) is_set net goes h hy hb g =
        elim (Bool-cases (ltb 5 y)) [
          | inl last ↦ (
            record { status = efail; snd_len = pos total; net = net },
            rw last,
            failed base buf len total net g h,
          )
          | inr more ↦
              let le : y ≤ 5 = ground arith in
              rw more (goes total (y + 1) is_set net (omega arith) (omega arith) g (omega arith))
        ]
    selected-Delivered go bound total y (pos (suc n)) true net goes h hy hb g =
        let (le, g') = send_given base buf len total net g fits h in
        ready-Delivered go bound total y ((sock.send (take (len - total) (drop total buf)) net).0)
          ((sock.send (take (len - total) (drop total buf)) net).1) goes h hy hb le g'
    selected-Delivered go bound total y (pos (suc n)) false net goes h hy hb g = (
      record { status = efail; snd_len = pos total; net = net },
      refl,
      failed base buf len total net g h,
    )

    loop-Delivered : (fuel : ℕ) → Goes (snd_loop sock fuel buf len) fuel
    unfolding snd_loop Goes
    loop-Delivered zero t y w n le hy g hb = absurd (omega arith)
    loop-Delivered (suc k) t y w n le hy g hb = elim (Bool-cases (ltb t len)) [
      | inl more ↦
          let s = sock.select w n in
          let lt : t < len = ground arith in
          rw more (
            selected-Delivered (snd_loop sock k buf len) k t y s.ret s.is_set s.net
              (loop-Delivered k) lt hy hb (sock.select_sent w n ∙ g))
      | inr done ↦
          let z : t ≡ len = ground arith in
          (
            record { status = sok; snd_len = pos t; net = n },
            rw done,
            record { k = t; counted = refl; given = g; ends = inl (refl, z) },
          )
    ]

  -- OSA_tcpSndNonblockFd of `n + 1` bytes that the buffer holds ends within `n + 8` rounds. The bytes
  -- that the system has taken are the first `k` of the buffer, `*SndLen` is `k`, and the status is
  -- `OSA_SOK` if `k` is all of them and `OSA_EFAIL` if it is fewer.
  pub snd-Delivered :
      (fuel fd n : ℕ) (buf : List ℕ) (net : Net)
      → suc n ≤ length buf
      → n + 7 < fuel
      → (r : Sent Net) × (tcp_snd_nonblock_fd sock fuel (pos fd) (some buf) (some (pos (suc n))) net
          ≡ some (r.status, some r.snd_len, r.net))
        × Delivered (sock.sent net) buf (suc n) r
  unfolding tcp_snd_nonblock_fd Goes
  snd-Delivered fuel fd n buf net fits enough =
      let (r, e, d) =
        loop-Delivered (sock.sent net) buf (suc n) fits fuel 0 0 true net (omega arith)
          (omega arith) (sym (append-nil (sock.sent net))) (omega arith) in
      let t : ltb_ℤ (pos fd) (pos 0) ≡ false = ground arith in (r, rw (t, e), d)

  Idle : (total : ℕ) (net : Net) (r : Sent Net) → Type 0
  Idle total net r =
      (r.status ≡ efail) × (r.snd_len ≡ pos total) × (sock.sent r.net ≡ sock.sent net)

  unwatched_selected :
      (go : ℕ → ℕ → Bool → Net → Option (Sent Net)) (buf : List ℕ) (len total y : ℕ) (ret : ℤ)
      (before net : Net)
      → ltb_ℤ (pos 0) ret ≡ false
      → sock.sent net ≡ sock.sent before
      → (y ≤ 5 → (r : Sent Net) × (go total (y + 1) false net ≡ some r) × Idle total net r)
      → (r : Sent Net) × (snd_selected sock go buf len total y ret false net ≡ some r)
        × Idle total before r
  unfolding snd_selected Idle
  unwatched_selected go buf len total y (negsuc n) before net idle same goes =
      (record { status = efail; snd_len = pos total; net = net }, refl, (refl, refl, same))
  unwatched_selected go buf len total y (pos zero) before net idle same goes =
      elim (Bool-cases (ltb 5 y)) [
        | inl last ↦
            (record { status = efail; snd_len = pos total; net = net }, rw last, (refl, refl, same))
        | inr more ↦ let (r, e, (f, c, g)) = goes (ground arith) in (r, rw more e, (f, c, g ∙ same))
      ]
  unwatched_selected go buf len total y (pos (suc n)) before net idle same goes =
      absurd (ground arith)

  -- Once the descriptor is out of the set nothing more is sent.
  unwatched_fails :
      (fuel : ℕ) (buf : List ℕ) (len total y : ℕ) (net : Net)
      → total < len
      → y ≤ 6
      → 6 - y < fuel
      → (r : Sent Net) × (snd_loop sock fuel buf len total y false net ≡ some r) × Idle total net r
  unfolding snd_loop
  unwatched_fails zero buf len total y net h hy hb = absurd (omega arith)
  unwatched_fails (suc k) buf len total y net h hy hb =
      let s = sock.select false net in
      let t : ltb total len ≡ true = ground arith in
      rw (t, sock.select_unset net)
        (unwatched_selected (snd_loop sock k buf len) buf len total y s.ret net s.net
          (sock.select_idle net) (sock.select_sent false net)
          (λ le. unwatched_fails k buf len total (y + 1) s.net h (omega arith) (omega arith)))

  -- If the first select of OSA_tcpSndNonblockFd runs into its time limit, the call fails and sends
  -- nothing, whatever room the connection has later: select has taken the descriptor out of the set,
  -- and the loop does not put it back.
  pub snd_expired :
      (fuel fd n : ℕ) (buf : List ℕ) (net : Net)
      → (sock.select true net).ret ≡ pos 0
      → 8 < fuel
      → (net' : Net) × (tcp_snd_nonblock_fd sock fuel (pos fd) (some buf) (some (pos (suc n))) net
          ≡ some (efail, some (pos 0), net'))
        × (sock.sent net' ≡ sock.sent net)
  unfolding tcp_snd_nonblock_fd snd_loop snd_selected Idle
  snd_expired zero fd n buf net z enough = absurd (omega arith)
  snd_expired (suc k) fd n buf net z enough =
      let s = sock.select true net in
      let t : ltb_ℤ (pos fd) (pos 0) ≡ false = ground arith in
      let more : ltb 0 (suc n) ≡ true = ground arith in
      let (r, e, (f, c, g)) =
        unwatched_fails k buf (suc n) 0 1 s.net (omega arith) (omega arith) (omega arith) in
      (
        r.net,
        rw (t, more, z, sock.select_expired true net z, e, f, c),
        g ∙ sock.select_sent true net,
      )
