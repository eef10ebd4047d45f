-- ===== src/Msgq/Steps.antt =====
-- The calls of osa/src/osa_msgq.c at queues whose contents are known, as equations.
use osa_base.Base.{
  ℕ, ◌<◌, ◌≡◌, ◌≢◌, sym, ap, ◌∙◌, true, false, none, some, List, ◌∷◌, ltb, length, get_elem?, arith,
  sok,
}
use osa_base.Memory.{Ptr}
use osa_base.Monitor.{returned, timeout_none}
use osa_base.Monitor.Laws.{await_now, await_second}
use osa_base.Place.{attempt_at}
use osa_base.Ring.{put_cell, drop_cell, attempt_put, attempt_get}
use osa_base.Ring.Invariant.{IsValid}
use osa_base.Ring.Fifo.{contents, length-contents, contents-drop_cell}
use osa_base.Msgq.{World, at_set, queue_at, send, recv_msg}

-- the state with another queue at an address
abbrev pub put_at : Ptr → Ptr → World → World
put_at h p w = record w { queues = at_set w.queues h (put_cell p (w.queues h)) }

abbrev pub drop_at : Ptr → World → World
drop_at h w = record w { queues = at_set w.queues h (drop_cell (w.queues h)) }

pub send_now :
    (h p timeout : ℕ) (wakes : List (World → World)) (w : World)
    → (w.queues h).count < (w.queues h).len
    → send h p timeout wakes w ≡ returned sok tt (put_at h p w) wakes
unfolding send attempt_put
send_now h p timeout wakes w room =
    let t : ltb (w.queues h).count (w.queues h).len ≡ true = ground arith in
    await_now (attempt_at (queue_at h) (attempt_put p)) tt timeout wakes w (rw t)

first_eq : {a b : Ptr} {xs ys : List Ptr} → a ∷ xs ≡ b ∷ ys → a ≡ b
first_eq h = cc

get_at :
    (h : Ptr) (w : World) {p : Ptr} {ps : List Ptr}
    → IsValid (w.queues h)
    → contents (w.queues h) ≡ p ∷ ps
    → attempt_at (queue_at h) (attempt_get true) w ≡ some (some p, drop_at h w)
unfolding attempt_get
get_at h w {p} {ps} v e =
    let some_in : 0 < (w.queues h).count = omega (arith, sym (length-contents v), ap length e) in
    let t : ltb 0 (w.queues h).count ≡ true = ground arith in
    let (x, q, c) = contents-drop_cell v some_in in
    let same : get_elem? (w.queues h).queue (w.queues h).cur_rd ≡ some p =
      q ∙ ap some (first_eq (sym c ∙ e)) in
    rw (t, same)

pub recv_now :
    (h timeout : ℕ) (wakes : List (World → World)) (w : World) {p : Ptr} {ps : List Ptr}
    → IsValid (w.queues h)
    → contents (w.queues h) ≡ p ∷ ps
    → recv_msg h true timeout wakes w ≡ returned sok (some p) (drop_at h w) wakes
unfolding recv_msg
recv_now h timeout wakes w v e =
    await_now (attempt_at (queue_at h) (attempt_get true)) none timeout wakes w (get_at h w v e)

pub recv_woken :
    (h timeout : ℕ) (wake : World → World) (wakes : List (World → World)) (w : World) {p : Ptr}
    {ps : List Ptr}
    → timeout ≢ timeout_none
    → (w.queues h).count ≡ 0
    → IsValid ((wake w).queues h)
    → contents ((wake w).queues h) ≡ p ∷ ps
    → recv_msg h true timeout (wake ∷ wakes) w ≡ returned sok (some p) (drop_at h (wake w)) wakes
unfolding recv_msg attempt_get
recv_woken h timeout wake wakes w t z v e =
    let f : ltb 0 (w.queues h).count ≡ false = ground arith in
    await_second (attempt_at (queue_at h) (attempt_get true)) none timeout wake wakes w t (rw f)
      (get_at h (wake w) v e)
