-- ===== src/Mbx/Flush/Emptied.antt =====
-- OSA_mbxFlush of osa/src/osa_mbx.c on a mailbox whose messages only have to be freed.
use osa_base.Base.{
  ℕ, zero, suc, ◌<◌, ◌≡◌, ◌≢◌, refl, sym, ap, subst, ◌∙◌, Bool, true, false, Option, none, some,
  List, [], ◌∷◌, ◌++◌, ltb, ◌==◌, ◌||◌, if◌then◌else◌, length, All, append-nil, arith, inl, inr,
  Bool-cases, sok, efail,
}
use osa_base.Memory.{Ptr, null}
use osa_base.Monitor.{Outcome, returned, timeout_none}
use osa_base.Monitor.Laws.{await_gives_up}
use osa_base.Place.{attempt_at}
use osa_base.Ring.{Ring, attempt_get, drop_cell}
use osa_base.Ring.Invariant.{IsValid, drop_cell-IsValid}
use osa_base.Ring.Fifo.{contents, length-contents, contents-drop_cell}
use osa_base.Msgq
use osa_base.Msgq.{World, MsgHndl, at_set, queue_at}
use osa_base.Msgq.Steps.{drop_at, recv_now}
use osa_base.Mbx.{
  MbxHndl, wait_ack, free_prm, free_prm_of, free_at, free_msg, ack_or_free_msg, ack_or_free_at,
}
use osa_base.Mbx.Exchange.{Empty}
use osa_base.Mbx.Flush.{drain, flush}

-- Different messages that are held, ask for no acknowledgement and have no parameter to free
unfoldable pub Freeable : (Ptr → Option MsgHndl) → List Ptr → Type 0
Freeable msgs [] = Unit {0}
Freeable msgs (p ∷ ps) =
    (p ≢ null)
    × ((n : MsgHndl) × (msgs p ≡ some n) × (wait_ack n.flags ≡ false) × (free_prm n.flags ≡ false))
    × All (λ q. q ≢ p) ps
    × Freeable msgs ps

abbrev pub among : Ptr → List Ptr → Bool
among q [] = false
among q (p ∷ ps) = (q == p) || among q ps

abbrev pub gone : Ptr → World → World
gone p w = record w { msgs = at_set w.msgs p none }

gone-Freeable :
    (msgs : Ptr → Option MsgHndl) (p : Ptr) (qs : List Ptr)
    → All (λ q. q ≢ p) qs
    → Freeable msgs qs
    → Freeable (at_set msgs p none) qs
unfolding Freeable
gone-Freeable msgs p [] apart f = tt
gone-Freeable msgs p (q ∷ qs) (ne, apart) (nn, (n, held, a, b), others, f) =
    let t : (q == p) ≡ false = ground arith in
    (nn, (n, rw t held, a, b), others, gone-Freeable msgs p qs apart f)

free_plain :
    (p : Ptr) (wakes : List (World → World)) (w : World) {n : MsgHndl}
    → w.msgs p ≡ some n
    → free_prm n.flags ≡ false
    → free_msg p wakes w ≡ returned sok tt (gone p w) wakes
unfolding free_msg free_at free_prm_of Msgq.free_msg_hndl Msgq.release
free_plain p wakes w held b = rw (held, b, held)

ack_or_free_plain :
    (p : Ptr) (wakes : List (World → World)) (w : World) {n : MsgHndl}
    → p ≢ null
    → w.msgs p ≡ some n
    → wait_ack n.flags ≡ false
    → free_prm n.flags ≡ false
    → ack_or_free_msg p sok wakes w ≡ returned sok tt (gone p w) wakes
unfolding ack_or_free_msg ack_or_free_at
ack_or_free_plain p wakes w nn held a b =
    let t : (p == null) ≡ false = ground arith in rw (t, held, a, free_plain p wakes w held b)

recv_nothing :
    (h : Ptr) (wakes : List (World → World)) (w : World)
    → Empty (w.queues h)
    → Msgq.recv_msg h true timeout_none wakes w ≡ returned efail none w wakes
unfolding Msgq.recv_msg attempt_get
recv_nothing h wakes w e =
    let z : (w.queues h).count ≡ 0 =
      omega (arith, sym (length-contents e.valid), ap length e.nothing) in
    let t : ltb 0 (w.queues h).count ≡ false = ground arith in
    await_gives_up (attempt_at (queue_at h) (attempt_get true)) none wakes w (rw t)

-- what a drained queue leaves: `ps` are freed, `qs` are as before
pub record Drained (h : Ptr) (ps qs : List Ptr) (w w' : World) : Type 0 where
  pub empty : Empty (w'.queues h)
  pub msgs : (q : Ptr) → w'.msgs q ≡ (if among q ps then none else w.msgs q)
  pub queues : (k : Ptr) → k ≢ h → w'.queues k ≡ w.queues k
  pub left : Freeable w'.msgs qs

rest_eq : {a b : Ptr} {xs ys : List Ptr} → a ∷ xs ≡ b ∷ ys → xs ≡ ys
rest_eq h = cc

dropped :
    (h : Ptr) (w : World) {p : Ptr} {ps : List Ptr}
    → IsValid (w.queues h)
    → contents (w.queues h) ≡ p ∷ ps
    → IsValid (drop_cell (w.queues h)) × (contents (drop_cell (w.queues h)) ≡ ps)
dropped h w v e =
    let some_in : 0 < (w.queues h).count = omega (arith, sym (length-contents v), ap length e) in
    let (x, r, d) = contents-drop_cell v some_in in
    (drop_cell-IsValid v some_in, rest_eq (sym d ∙ e))

among_more :
    (msgs : Ptr → Option MsgHndl) (p q : Ptr) (later : Bool)
    → (if later then none else at_set msgs p none q) ≡ (if (q == p) || later then none else msgs q)
among_more msgs p q later = elim (Bool-cases (q == p)) [
  | inl y ↦ elim (Bool-cases later) [ inl l ↦ rw (y, l) | inr l ↦ rw (y, l) ]
  | inr n ↦ rw n
]

at_set_other :
    (queues : Ptr → Ring Ptr) (h k : Ptr) (r : Ring Ptr) → k ≢ h → at_set queues h r k ≡ queues k
at_set_other queues h k r ne = let t : (k == h) ≡ false = ground arith in rw t

module _ (act : Ptr → List (World → World) → World → Outcome (Unit {0}) World)
    (frees : (p : Ptr) (wakes : List (World → World)) (w : World) (n : MsgHndl)
      → p ≢ null
      → w.msgs p ≡ some n
      → wait_ack n.flags ≡ false
      → free_prm n.flags ≡ false
      → act p wakes w ≡ returned sok tt (gone p w) wakes) where
  drain-Drained :
      (fuel : ℕ) (h : Ptr) (ps qs : List Ptr) (wakes : List (World → World)) (w : World)
      → IsValid (w.queues h)
      → contents (w.queues h) ≡ ps
      → Freeable w.msgs (ps ++ qs)
      → length ps < fuel
      → (w' : World) × (drain fuel h act wakes w ≡ returned efail tt w' wakes)
        × Drained h ps qs w w'
  unfolding drain Freeable
  drain-Drained zero h ps qs wakes w v e f enough = absurd (omega arith)
  drain-Drained (suc k) h [] qs wakes w v e f enough = (
    w,
    rw (recv_nothing h wakes w (record { valid = v; nothing = e })),
    record {
      empty = record { valid = v; nothing = e };
      msgs = λ q. refl;
      queues = λ _ _. refl;
      left = f;
    },
  )
  drain-Drained (suc k) h (p ∷ ps) qs wakes w v e (nn, (n, held, a, b), others, f) enough =
      let w₁ = gone p (drop_at h w) in
      let s : (h == h) ≡ true = ground arith in
      let (v₁, c₁) = dropped h w v e in
      let (w', r, d) =
        drain-Drained k h ps qs wakes w₁ (rw s v₁) (rw s c₁)
          (gone-Freeable w.msgs p (ps ++ qs) others f) (omega arith) in
      (
        w',
        rw (recv_now h timeout_none wakes w v e, frees p wakes (drop_at h w) n nn held a b) r,
        record {
          empty = d.empty;
          msgs = λ q. d.msgs q ∙ among_more w.msgs p q (among q ps);
          queues = λ j ne. d.queues j ne ∙ at_set_other w.queues h j (drop_cell (w.queues h)) ne;
          left = d.left;
        },
      )

-- Given a mailbox whose two queues lie apart and hold different messages that ask for no
-- acknowledgement and have no parameter to free, and one round more than there are messages in
-- each, OSA_mbxFlush frees all the messages and no other, and leaves both queues empty; yet it
-- returns `OSA_EFAIL`.
pub flush_lem :
    (fuel : ℕ) (m : MbxHndl) (ps qs : List Ptr) (wakes : List (World → World)) (w : World)
    → m.ack_mbx ≢ m.rcv_mbx
    → IsValid (w.queues m.rcv_mbx)
    → contents (w.queues m.rcv_mbx) ≡ ps
    → IsValid (w.queues m.ack_mbx)
    → contents (w.queues m.ack_mbx) ≡ qs
    → Freeable w.msgs (ps ++ qs)
    → length ps < fuel
    → length qs < fuel
    → (w' : World) × (flush fuel m wakes w ≡ returned efail tt w' wakes)
      × Empty (w'.queues m.rcv_mbx)
      × Empty (w'.queues m.ack_mbx)
      × ((q : Ptr)
          → w'.msgs q ≡ (if among q qs then none else if among q ps then none else w.msgs q))
unfolding flush
flush_lem fuel m ps qs wakes w apart v_r c_r v_a c_a f enough_r enough_a =
    let (w₁, r, d) =
      drain-Drained (λ p. ack_or_free_msg p sok)
        (λ p wakes' u n nn held a b. ack_or_free_plain p wakes' u nn held a b) fuel m.rcv_mbx ps qs
        wakes w v_r c_r f enough_r in
    let same = d.queues m.ack_mbx apart in
    let (w₂, r', d') =
      drain-Drained free_msg (λ p wakes' u n nn held a b. free_plain p wakes' u held b) fuel
        m.ack_mbx qs [] wakes w₁ (subst IsValid (sym same) v_a) (ap contents same ∙ c_a)
        (subst (Freeable w₁.msgs) (sym (append-nil qs)) d.left) enough_a in
    (
      w₂,
      rw r r',
      subst Empty (sym (d'.queues m.rcv_mbx (λ h. apart (sym h)))) d.empty,
      d'.empty,
      λ q. d'.msgs q ∙ ap (λ o. if among q qs then none else o) (d.msgs q),
    )
