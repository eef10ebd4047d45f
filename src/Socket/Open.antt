-- ===== src/Socket/Open.antt =====
-- OSA_tcpSndNonblockFd of socket/osa_socket.c on a connection that always takes something.
use osa_base.Base.{
  ℕ, zero, suc, ◌+◌, ◌-◌, ◌≤◌, ◌<◌, ◌≡◌, sym, ap, ◌∙◌, Bool, true, false, Option, some, List, ◌++◌,
  append-nil, inl, inr, Bool-cases, ltb, length, take, drop, length-take, length-drop, ℤ, pos, sok,
  ltb_ℤ, arith,
}
use osa_base.Socket.{Sock, Sent, taken_by, snd_ready, snd_selected, snd_loop, tcp_snd_nonblock_fd}
use osa_base.Socket.Send.{send_given}

module _ {Net : Type 0} (sock : Sock Net) where
  -- select finds room before its time runs out, and send takes at least a byte.
  pub record Open : Type 0 where
    pub selects :
        (net : Net) → ((sock.select true net).ret ≡ pos 1) × ((sock.select true net).is_set ≡ true)
    pub takes :
        (bs : List ℕ) (net : Net) → 0 < length bs → (k : ℕ) × ((sock.send bs net).0 ≡ pos (suc k))

  selected_open :
      (go : ℕ → ℕ → Bool → Net → Option (Sent Net)) (buf : List ℕ) (len total y m : ℕ) (ret : ℤ)
      (is_set : Bool) (net : Net)
      → ret ≡ pos 1
      → is_set ≡ true
      → (sock.send (take (len - total) (drop total buf)) net).0 ≡ pos (suc m)
      → snd_selected sock go buf len total y ret is_set net
        ≡ go (total + suc m) y true ((sock.send (take (len - total) (drop total buf)) net).1)
  unfolding snd_selected snd_ready
  selected_open go buf len total y m ret is_set net e f g = rw (e, f, g)

  loop_open :
      (always : Open) (base buf : List ℕ) (len fuel total y : ℕ) (net : Net)
      → len ≤ length buf
      → total ≤ len
      → len - total < fuel
      → sock.sent net ≡ base ++ take total buf
      → (net' : Net) × (snd_loop sock fuel buf len total y true net
          ≡ some (record { status = sok; snd_len = pos len; net = net' }))
        × (sock.sent net' ≡ base ++ take len buf)
  unfolding snd_loop
  loop_open always base buf len zero total y net fits le enough g = absurd (omega arith)
  loop_open always base buf len (suc k) total y net fits le enough g =
      elim (Bool-cases (ltb total len)) [
        | inr last ↦
            let z : total ≡ len = ground arith in
            (net, rw (last, z), g ∙ ap (λ t. base ++ take t buf) z)
        | inl more ↦
            let lt : total < len = ground arith in
            let s = sock.select true net in
            let (ready, set) = always.selects net in
            let slice = take (len - total) (drop total buf) in
            let size : length slice ≡ len - total =
              length-take (len - total) (drop total buf) (omega (arith, length-drop total buf)) in
            let (m, took) = always.takes slice s.net (omega (arith, size)) in
            let (le', g') =
              send_given sock base buf len total s.net (sock.select_sent true net ∙ g) fits lt in
            let taken : taken_by ((sock.send slice s.net).0) ≡ suc m = ap taken_by took in
            let (net', run, sent) =
              loop_open always base buf len k (total + suc m) y ((sock.send slice s.net).1) fits
                (omega (arith, le', taken)) (omega arith)
                (g' ∙ ap (λ i. base ++ take (total + i) buf) taken) in
            (
              net',
              rw more (
                  selected_open (snd_loop sock k buf len) buf len total y m s.ret s.is_set s.net
                    ready set took
                  ∙ run),
              sent,
            )
      ]

  -- On such a connection a call with bytes that the buffer holds succeeds, and all of them are taken.
  pub snd_open :
      (always : Open) (fuel fd n : ℕ) (buf : List ℕ) (net : Net)
      → suc n ≤ length buf
      → suc n < fuel
      → (net' : Net) × (tcp_snd_nonblock_fd sock fuel (pos fd) (some buf) (some (pos (suc n))) net
          ≡ some (sok, some (pos (suc n)), net'))
        × (sock.sent net' ≡ sock.sent net ++ take (suc n) buf)
  unfolding tcp_snd_nonblock_fd
  snd_open always fuel fd n buf net fits enough =
      let (net', run, sent) =
        loop_open always (sock.sent net) buf (suc n) fuel 0 0 net fits (omega arith) (omega arith)
          (sym (append-nil (sock.sent net))) in
      let t : ltb_ℤ (pos fd) (pos 0) ≡ false = ground arith in (net', rw (t, run), sent)
