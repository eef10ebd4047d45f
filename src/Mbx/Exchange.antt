-- ===== src/Mbx/Exchange.antt =====
-- A message that is sent with OSA_MBX_WAIT_ACK, and the acknowledgement of it: OSA_mbxSendMsg in one
-- thread, OSA_mbxCheckMsg and OSA_mbxAckOrFreeMsg in another (osa/src/osa_mbx.c).
use osa_base.Base.{
  ℕ, ◌^◌, ◌<◌, ◌≡◌, ◌≢◌, subst, sym, ap, ◌∙◌, Bool, true, false, not, ◌&&◌, Option, none, some,
  List, [], ◌∷◌, ◌++◌, ◌==◌, if◌then◌else◌, length, arith, inl, inr, Bool-cases, ℤ, sok,
}
use osa_base.Memory.{Ptr, null}
use osa_base.Monitor.{Outcome, returned, after, timeout_none, timeout_forever}
use osa_base.Monitor.Laws.{state}
use osa_base.Ring.{Ring, put_cell, drop_cell}
use osa_base.Ring.Invariant.{IsValid, put_cell-IsValid, drop_cell-IsValid}
use osa_base.Ring.Fifo.{contents, length-contents, contents-put_cell, contents-drop_cell}
use osa_base.Msgq
use osa_base.Msgq.{World, MsgHndl, at_set, u16}
use osa_base.Msgq.Steps.{put_at, drop_at, send_now, recv_now, recv_woken}
use osa_base.Mbx.{
  MbxHndl, wait_ack, free_prm, free_prm_of, free_at, free_msg, acknowledged, wait_for_ack, send_msg,
  check_msg, ack_or_free_msg, ack_or_free_at,
}

-- the other thread: it looks for a message and, if there is one, acknowledges it with a status
abbrev pub reply : ℤ → Option Ptr → List (World → World) → World → Outcome (Unit {0}) World
reply status none wakes w = returned sok tt w wakes
reply status (some p) wakes w = ack_or_free_msg p status wakes w

abbrev pub serve : MbxHndl → ℤ → World → World
serve m status w = state (after (check_msg m [] w) λ s out w' rest. reply status out rest w')

-- the state with another status in a message
abbrev pub with_status : Ptr → MsgHndl → ℤ → World → World
with_status p n status w = record w { msgs = at_set w.msgs p (some (record n { status = status })) }

other_way : {a b : Ptr} → a ≢ b → (a == b) ≡ false
other_way h = ground arith

same_way : (a : Ptr) → (a == a) ≡ true
same_way a = ground arith

serve_lem :
    (m : MbxHndl) (status : ℤ) (w : World) {p : Ptr} {ps : List Ptr} {n : MsgHndl}
    → IsValid (w.queues m.rcv_mbx)
    → contents (w.queues m.rcv_mbx) ≡ p ∷ ps
    → p ≢ null
    → w.msgs p ≡ some n
    → wait_ack n.flags ≡ true
    → n.p_from ≢ null
    → n.p_from ≢ m.rcv_mbx
    → (w.queues n.p_from).count < (w.queues n.p_from).len
    → serve m status w ≡ put_at n.p_from p (with_status p n status (drop_at m.rcv_mbx w))
unfolding check_msg ack_or_free_msg ack_or_free_at Msgq.send_ack Msgq.ack_at
serve_lem m status w {p} {ps} {n} v e np held asks nf apart room =
    let w' = drop_at m.rcv_mbx w in
    let away : (w'.queues n.p_from) ≡ w.queues n.p_from = rw (other_way apart) in
    let s =
      send_now n.p_from p timeout_forever [] (with_status p n status w')
        (rw (other_way apart) room) in
    rw (
      recv_now m.rcv_mbx timeout_none [] w v e,
      other_way np,
      held,
      asks,
      Msgq.send_ack,
      held,
      other_way nf,
      s,
    )

-- the state without a message, and without its parameters where its flags ask for that
abbrev pub freed : Ptr → MsgHndl → World → World
freed p n w = record w {
  msgs = at_set w.msgs p none;
  prms = if free_prm n.flags && not (n.p_prm == null) then at_set w.prms n.p_prm false else w.prms;
}

prm_after :
    (b : Bool) (prms : Ptr → Bool) (p : Ptr)
    → prms p ≡ true
    → (if b then at_set prms p false else prms) p ≡ not b
prm_after true prms p h = rw (same_way p)
prm_after false prms p h = h

pub free_msg-freed :
    (p : Ptr) (wakes : List (World → World)) (w : World) {n : MsgHndl}
    → w.msgs p ≡ some n
    → w.prms n.p_prm ≡ true
    → free_msg p wakes w ≡ returned sok tt (freed p n w) wakes
unfolding free_msg free_at free_prm_of Msgq.free_msg_hndl Msgq.release
free_msg-freed p wakes w {n} held prm =
    elim (Bool-cases (free_prm n.flags && not (n.p_prm == null))) [
      | inl asks ↦ rw (held, asks, prm, held)
      | inr keeps ↦ rw (held, keeps, held)
    ]

-- The sender gets the status that stands in its message, which it frees.
wait_for_ack-freed :
    (ack p : Ptr) (wake : World → World) (wakes : List (World → World)) (w : World) {n : MsgHndl}
    → (w.queues ack).count ≡ 0
    → IsValid ((wake w).queues ack)
    → contents ((wake w).queues ack) ≡ p ∷ []
    → (wake w).msgs p ≡ some n
    → (wake w).prms n.p_prm ≡ true
    → wait_for_ack ack p (wake ∷ wakes) w
      ≡ returned n.status tt (freed p n (drop_at ack (wake w))) wakes
unfolding wait_for_ack acknowledged
wait_for_ack-freed ack p wake wakes w {n} z v e held prm =
    let r = recv_woken ack timeout_forever wake wakes w (omega arith) z v e in
    let f = free_msg-freed p wakes (drop_at ack (wake w)) held prm in rw (r, held, same_way p, f)

wait_woken :
    (ack p : Ptr) (wake : World → World) (wakes : List (World → World)) (w : World) {v : World}
    {n : MsgHndl}
    → wake w ≡ v
    → (w.queues ack).count ≡ 0
    → IsValid (v.queues ack)
    → contents (v.queues ack) ≡ p ∷ []
    → v.msgs p ≡ some n
    → v.prms n.p_prm ≡ true
    → wait_for_ack ack p (wake ∷ wakes) w ≡ returned n.status tt (freed p n (drop_at ack v)) wakes
wait_woken ack p wake wakes w {v} {n} q z valid e held prm =
    wait_for_ack-freed ack p wake wakes w z (subst (λ u. IsValid (u.queues ack)) (sym q) valid)
      (subst (λ u. contents (u.queues ack) ≡ p ∷ []) (sym q) e)
      (subst (λ u. u.msgs p ≡ some n) (sym q) held) (subst (λ u. u.prms n.p_prm ≡ true) (sym q) prm)
    ∙ ap (λ u. returned n.status tt (freed p n (drop_at ack u)) wakes) q

-- the message that OSA_mbxSendMsg makes
abbrev pub made : (to ack cmd prm flags : ℕ) → MsgHndl
made to ack cmd prm flags = record {
  p_to = to;
  p_from = ack;
  p_prm = prm;
  status = sok;
  cmd = u16 cmd;
  flags = u16 flags;
}

-- An empty queue that is valid
pub record Empty (q : Ring Ptr) : Type 0 where
  pub valid : IsValid q
  pub nothing : contents q ≡ []

none_in : {q : Ring Ptr} → Empty q → q.count ≡ 0
none_in {q} e = omega (arith, sym (length-contents e.valid), ap length e.nothing)

one_in :
    (p : Ptr) {q : Ring Ptr} → Empty q → IsValid (put_cell p q) × (contents (put_cell p q) ≡ p ∷ [])
one_in p {q} e =
    let room : q.count < q.len = omega (arith, none_in e, e.valid.some_cells) in
    (
      put_cell-IsValid p e.valid room,
      contents-put_cell p e.valid room ∙ ap (λ xs. xs ++ p ∷ []) e.nothing,
    )

out_again : (p : Ptr) {q : Ring Ptr} → Empty q → Empty (drop_cell (put_cell p q))
unfolding put_cell
out_again p {q} e =
    let (v, c) = one_in p e in
    let some_in : 0 < (put_cell p q).count = omega (arith, sym (length-contents v), ap length c) in
    let (x, r, d) = contents-drop_cell v some_in in
    record { valid = drop_cell-IsValid v some_in; nothing = rest_eq (sym d ∙ c) }
  where
    rest_eq : {a b : Ptr} {xs ys : List Ptr} → a ∷ xs ≡ b ∷ ys → xs ≡ ys
    rest_eq h = cc

module _ (fresh other back cmd prm flags : ℕ) (to ack : Ptr) (status : ℤ) (w : World) where
  -- With WAIT_ACK and flags below 2 ^ 16, different empty queues, memory for the message and a
  -- parameter that is allocated, OSA_mbxSendMsg returns the status with which the other
  -- thread acknowledges the message, once that thread has looked for it. Both queues are empty again,
  -- the message is freed, and its parameter if and only if the flags ask for that and it is not NULL.
  pub rendezvous :
      Empty (w.queues to)
      → Empty (w.queues ack)
      → to ≢ ack
      → ack ≢ null
      → fresh ≢ null
      → flags < 2 ^ 16
      → wait_ack flags ≡ true
      → w.prms prm ≡ true
      → (w' : World) × (send_msg fresh
            (record { rcv_mbx = to; ack_mbx = other })
            (some (record { rcv_mbx = back; ack_mbx = ack }))
            cmd
            prm
            flags
            (serve (record { rcv_mbx = to; ack_mbx = other }) status ∷ [])
            w
          ≡ returned status tt w' [])
        × Empty (w'.queues to)
        × Empty (w'.queues ack)
        × (w'.msgs fresh ≡ none)
        × (w'.prms prm ≡ not (free_prm flags && not (prm == null)))
  unfolding send_msg Msgq.send_msg Msgq.alloc_msg_hndl
  rendezvous e_to e_ack apart na nf small asks held =
      let n = made to ack cmd prm flags in
      let w₀ : World = record w { msgs = at_set w.msgs fresh (some n) } in
      let w₁ = put_at to fresh w₀ in
      let m : MbxHndl = record { rcv_mbx = to; ack_mbx = other } in
      let sent =
        send_now to fresh timeout_forever (serve m status ∷ []) w₀
          (omega (arith, none_in e_to, e_to.valid.some_cells)) in
      let away : ack ≢ to = λ h. apart (sym h) in
      let same : u16 flags ≡ flags = omega arith in
      let (v_to, c_to) = one_in fresh e_to in
      let (v_ack, c_ack) = one_in fresh e_ack in
      let served =
        serve_lem m status w₁ {p = fresh} {ps = []} {n = n} (rw (same_way to) v_to)
          (rw (same_way to) c_to) nf (rw (same_way fresh)) (rw same asks) na away
          (rw (other_way away) (omega (arith, none_in e_ack, e_ack.valid.some_cells))) in
      let got =
        wait_woken ack fresh (serve m status) [] w₁ {n = record n { status = status }} served
          (rw (other_way away) (none_in e_ack)) (rw (same_way ack, other_way away) v_ack)
          (rw (same_way ack, other_way away) c_ack) (rw (same_way fresh)) held in
      (
        freed fresh (record n { status = status })
            (drop_at ack (put_at ack fresh (with_status fresh n status (drop_at to w₁)))),
        rw (other_way nf, sent, other_way nf, asks) got,
        rw (other_way apart, same_way to) (out_again fresh e_to),
        rw (same_way ack, other_way away) (out_again fresh e_ack),
        rw (same_way fresh),
        rw same (prm_after (free_prm flags && not (prm == null)) w.prms prm held),
      )
