-- ===== src/Buf/Pool/Moves.antt =====
-- What each call on a buffer pool does to its queues and to the invariant.
use osa_base.Base.{
  ℕ, ◌+◌, ◌<◌, ◌≡◌, sym, ap, ◌∙◌, false, not, ◌||◌, ltb_ℤ, Option, List, [], ◌∷◌, arith, Bool-cases,
  inl, inr, ℤ, pos, sok, eq_ℤ,
}
use osa_base.Base.Count.{count, one_if, erase, count-append, length-erase, count-erase}
use osa_base.Monitor.{Outcome, returned, waiting, stopped, timeout_forever}
use osa_base.Ring.{put_cell, drop_cell}
use osa_base.Ring.Invariant.{
  IsValid, put_cell-IsValid, drop_cell-IsValid, count-put_cell, count-drop_cell, len-put_cell,
  len-drop_cell,
}
use osa_base.Ring.Fifo.{contents, contents-put_cell}
use osa_base.Que
use osa_base.Que.{QueHndl}
use osa_base.Buf.{BufHndl, empty_at, full_at, or_invalid, put_full, put_empty}
use osa_base.Buf.Pool.{Conserved}

-- What taking a value from a queue, and adding one, do to it.
pub record Took (q q' : QueHndl) (x : ℤ) : Type 0 where
  valid : IsValid q'
  same_len : q'.len ≡ q.len
  fewer : q'.count + 1 ≡ q.count
  less : (i : ℤ) → count i (contents q) ≡ one_if (eq_ℤ i x) + count i (contents q')

pub record Gave (q q' : QueHndl) (x : ℤ) : Type 0 where
  valid : IsValid q'
  same_len : q'.len ≡ q.len
  longer : q'.count ≡ q.count + 1
  more : (i : ℤ) → count i (contents q') ≡ count i (contents q) + one_if (eq_ℤ i x)

pub drop_cell-Took :
    {q : QueHndl} {x : ℤ}
    → IsValid q
    → 0 < q.count
    → contents q ≡ x ∷ contents (drop_cell q)
    → Took q (drop_cell q) x
drop_cell-Took {q} v h c = record {
  valid = drop_cell-IsValid v h;
  same_len = len-drop_cell q;
  fewer = omega (arith, count-drop_cell q);
  less = λ i. ap (count i) c;
}

pub put_cell-Gave : {q : QueHndl} (x : ℤ) → IsValid q → q.count < q.len → Gave q (put_cell x q) x
put_cell-Gave {q} x v h = record {
  valid = put_cell-IsValid x v h;
  same_len = len-put_cell x q;
  longer = count-put_cell x v h;
  more = λ i.
      omega (arith, ap (count i) (contents-put_cell x v h), count-append i (contents q) (x ∷ []));
}

module _ {I : Type 0} where
  pub or_invalid-sok :
      (o : Outcome (Option ℤ) (BufHndl I)) {out : Option ℤ} {h' : BufHndl I}
      {rest : List (BufHndl I → BufHndl I)}
      → or_invalid o ≡ returned sok out h' rest
      → o ≡ returned sok out h' rest
  unfolding or_invalid
  or_invalid-sok (returned s out h wakes) e = elim (Bool-cases (eq_ℤ s sok)) [
    | inl p ↦ rw p at e
    | inr p ↦ let q : s ≡ sok = cc (rw p at e) in absurd (cc (sym p ∙ ap (λ t. eq_ℤ t sok) q))
  ]
  or_invalid-sok (waiting h) e = absurd (cc)
  or_invalid-sok (stopped why h) e = absurd (cc)

  pub put_full-sok :
      (i : ℤ) (h : BufHndl I) {h' : BufHndl I} {rest : List (BufHndl I → BufHndl I)}
      → put_full false i [] h ≡ returned sok tt h' rest
      → Que.put full_at i timeout_forever [] h ≡ returned sok tt h' rest
  unfolding put_full
  put_full-sok i h e = elim (Bool-cases (not (ltb_ℤ i h.num_buf) || ltb_ℤ i (pos 0))) [
    | inl p ↦ absurd (cc (rw p at e))
    | inr p ↦ rw p at e
  ]

  pub put_empty-sok :
      (i : ℤ) (h : BufHndl I) {h' : BufHndl I} {rest : List (BufHndl I → BufHndl I)}
      → put_empty false i [] h ≡ returned sok tt h' rest
      → Que.put empty_at i timeout_forever [] h ≡ returned sok tt h' rest
  unfolding put_empty
  put_empty-sok i h e = elim (Bool-cases (not (ltb_ℤ i h.num_buf) || ltb_ℤ i (pos 0))) [
    | inl p ↦ absurd (cc (rw p at e))
    | inr p ↦ rw p at e
  ]

  -- One step of each kind, on the queues it leaves.
  module _ {n : ℕ} {h : BufHndl I} {xs : List ℤ}
      (c : Conserved n (record { hndl = h; held = xs })) where
    pub after_take_e :
        {q : QueHndl} {i : ℤ}
        → Took h.empty_que q i
        → Conserved n (record { hndl = record h { empty_que = q }; held = i ∷ xs })
    after_take_e {q} {i} t = record {
      valid_e = t.valid;
      valid_f = c.valid_f;
      len_e = t.same_len ∙ c.len_e;
      len_f = c.len_f;
      num = c.num;
      total = omega (arith, t.fewer, c.total);
      each = λ j. omega (arith, t.less j, c.each j);
    }

    pub after_take_f :
        {q : QueHndl} {i : ℤ}
        → Took h.full_que q i
        → Conserved n (record { hndl = record h { full_que = q }; held = i ∷ xs })
    after_take_f {q} {i} t = record {
      valid_e = c.valid_e;
      valid_f = t.valid;
      len_e = c.len_e;
      len_f = t.same_len ∙ c.len_f;
      num = c.num;
      total = omega (arith, t.fewer, c.total);
      each = λ j. omega (arith, t.less j, c.each j);
    }

    pub after_give_e :
        {q : QueHndl} (i : ℤ)
        → 0 < count i xs
        → Gave h.empty_que q i
        → Conserved n (record { hndl = record h { empty_que = q }; held = erase i xs })
    after_give_e i own g = record {
      valid_e = g.valid;
      valid_f = c.valid_f;
      len_e = g.same_len ∙ c.len_e;
      len_f = c.len_f;
      num = c.num;
      total = omega (arith, g.longer, c.total, length-erase i xs own);
      each = λ j. omega (arith, g.more j, c.each j, count-erase j i xs own);
    }

    pub after_give_f :
        {q : QueHndl} (i : ℤ)
        → 0 < count i xs
        → Gave h.full_que q i
        → Conserved n (record { hndl = record h { full_que = q }; held = erase i xs })
    after_give_f i own g = record {
      valid_e = c.valid_e;
      valid_f = g.valid;
      len_e = c.len_e;
      len_f = g.same_len ∙ c.len_f;
      num = c.num;
      total = omega (arith, g.longer, c.total, length-erase i xs own);
      each = λ j. omega (arith, g.more j, c.each j, count-erase j i xs own);
    }
