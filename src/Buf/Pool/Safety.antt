-- ===== src/Buf/Pool/Safety.antt =====
-- No buffer is lost or in two hands, and handing one in never waits.
use osa_base.Base.{
  ℕ, ◌<◌, ◌≡◌, sym, ap, ◌∙◌, subst, true, false, not, ◌||◌, ltb_ℤ, List, [], ◌∷◌, arith, length,
  Bool-cases, inl, inr, ℤ, pos, negsuc, sok,
}
use osa_base.Base.Count.{count, one_if, erase}
use osa_base.Monitor.{returned, timeout_forever}
use osa_base.Ring.{put_cell, drop_cell}
use osa_base.Ring.Fifo.{contents, contents-drop_cell}
use osa_base.Que.Waiting.{put_alone, get_alone, put_now}
use osa_base.Buf.{BufHndl, empty_at, full_at, get_empty, get_full, put_full, put_empty}
use osa_base.Buf.Pool.{
  Pool, in_range, Conserved, Step, take_empty, take_full, give_full, give_empty, Reach, here, next,
}
use osa_base.Buf.Pool.Moves.{
  drop_cell-Took, put_cell-Gave, or_invalid-sok, put_full-sok, put_empty-sok, after_take_e,
  after_take_f, after_give_e, after_give_f,
}

pub length_pos : (i : ℤ) (xs : List ℤ) → 0 < count i xs → 0 < length xs
length_pos i [] h = h
length_pos i (x ∷ xs) h = omega arith

pub in_guard :
    (n : ℕ) (i m : ℤ)
    → in_range n i ≡ true
    → m ≡ pos n
    → (not (ltb_ℤ i m) || ltb_ℤ i (pos 0)) ≡ false
in_guard n (pos k) m e z = rw (z, e) (ground arith)
in_guard n (negsuc k) m e z = absurd (cc)

module _ {I : Type 0} where
  pub Step-Conserved : {n : ℕ} {p q : Pool I} → Step p q → Conserved n p → Conserved n q
  unfolding get_empty get_full put_full put_empty
  Step-Conserved {n} (take_empty {h} {xs} {i} timeout e) c =
      let (some_in, out, w) = get_alone empty_at timeout (or_invalid-sok _ e) in
      let (x, at, l) = contents-drop_cell c.valid_e some_in in
      let same : i ≡ x = cc (out ∙ at) in
      subst (λ g. Conserved n (record { hndl = g; held = i ∷ xs })) (sym w)
        (after_take_e c (
          drop_cell-Took c.valid_e some_in
            (l ∙ ap (λ y. y ∷ contents (drop_cell h.empty_que)) (sym same))))
  Step-Conserved {n} (take_full {h} {xs} {i} timeout e) c =
      let (some_in, out, w) = get_alone full_at timeout (or_invalid-sok _ e) in
      let (x, at, l) = contents-drop_cell c.valid_f some_in in
      let same : i ≡ x = cc (out ∙ at) in
      subst (λ g. Conserved n (record { hndl = g; held = i ∷ xs })) (sym w)
        (after_take_f c (
          drop_cell-Took c.valid_f some_in
            (l ∙ ap (λ y. y ∷ contents (drop_cell h.full_que)) (sym same))))
  Step-Conserved {n} (give_full {h} {xs} i own e) c =
      let (room, w) = put_alone full_at i timeout_forever (put_full-sok i h e) in
      subst (λ g. Conserved n (record { hndl = g; held = erase i xs })) (sym w)
        (after_give_f c i own (put_cell-Gave i c.valid_f room))
  Step-Conserved {n} (give_empty {h} {xs} i own e) c =
      let (room, w) = put_alone empty_at i timeout_forever (put_empty-sok i h e) in
      subst (λ g. Conserved n (record { hndl = g; held = erase i xs })) (sym w)
        (after_give_e c i own (put_cell-Gave i c.valid_e room))

  -- However the threads take numbers and hand in those that they hold, each number of the pool
  -- stays in one place: no buffer is lost, and none is in two hands.
  pub Reach-Conserved : {n : ℕ} {p q : Pool I} → Conserved n p → Reach p q → Conserved n q
  Reach-Conserved c here = c
  Reach-Conserved c (next r s) = Step-Conserved s (Reach-Conserved c r)

  -- A number that a thread holds is one of the pool's.
  pub held-in_range :
      {n : ℕ} {p : Pool I} (i : ℤ) → Conserved n p → 0 < count i p.held → in_range n i ≡ true
  held-in_range {n} i c own = elim (Bool-cases (in_range n i)) [
    | inl e ↦ e
    | inr e ↦ absurd (omega (arith, c.each i, ap one_if e))
  ]

  -- In every pool that the threads can reach, handing in a number that one of them holds returns
  -- `OSA_SOK` at once: it takes no wake-up, though it is called with `OSA_TIMEOUT_FOREVER`.
  pub give_never_waits :
      {n : ℕ} {p q : Pool I} (i : ℤ) (wakes : List (BufHndl I → BufHndl I))
      → Conserved n p
      → Reach p q
      → 0 < count i q.held
      → ((h : BufHndl I) × (put_full false i wakes q.hndl ≡ returned sok tt h wakes))
        × ((h : BufHndl I) × (put_empty false i wakes q.hndl ≡ returned sok tt h wakes))
  unfolding put_full put_empty
  give_never_waits {n} {q} i wakes start r own =
      let c = Reach-Conserved start r in
      let g = in_guard n i q.hndl.num_buf (held-in_range i c own) c.num in
      let h = q.hndl in
      let some_held = length_pos i q.held own in
      (
        (
          record h { full_que = put_cell i h.full_que },
          rw g (put_now full_at i timeout_forever wakes q.hndl (omega (arith, c.total, c.len_f))),
        ),
        (
          record h { empty_que = put_cell i h.empty_que },
          rw g (put_now empty_at i timeout_forever wakes q.hndl (omega (arith, c.total, c.len_e))),
        ),
      )
