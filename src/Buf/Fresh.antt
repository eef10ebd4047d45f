-- ===== src/Buf/Fresh.antt =====
-- OSA_bufCreate makes a pool whose buffers are all empty, and OSA_bufSwitchFull exchanges one.
use osa_base.Base.{
  length-set, length-replicate, ℕ, zero, suc, ◌+◌, ◌<◌, ◌≤◌, ◌≡◌, refl, sym, ap, ◌∙◌, subst, false,
  ◌&&◌, some, List, [], ◌∷◌, ◌++◌, append-nil, append_assoc, arith, length, set, ltb, leb,
  replicate, ℤ, pos, negsuc, sok, u32,
}
use osa_base.Base.Count.{count, one_if}
use osa_base.Monitor.{returned, timeout_forever}
use osa_base.Ring.{put_cell}
use osa_base.Ring.Invariant.{IsValid, put_cell-IsValid, count-put_cell, len-put_cell}
use osa_base.Ring.Fifo.{contents, contents-put_cell, length-contents}
use osa_base.Que
use osa_base.Que.{QueHndl, InitStatus}
use osa_base.Que.Waiting.{put_now}
use osa_base.Que.Observers.{AllZero, create-IsValid}
use osa_base.Buf.{BufHndl, buf_num_max, empty_at, fill, create}
use osa_base.Buf.Pool.{Conserved, in_range}

-- the `m` numbers from `i` on
abbrev pub numbers : ℕ → ℕ → List ℤ
numbers i zero = []
numbers i (suc m) = pos i ∷ numbers (i + 1) m

length-numbers : (i m : ℕ) → length (numbers i m) ≡ m
length-numbers i zero = refl
length-numbers i (suc m) = ap suc (length-numbers (i + 1) m)

count-numbers : (k i m : ℕ) → count (pos k) (numbers i m) ≡ one_if (leb i k && ltb k (i + m))
count-numbers k i zero = ground arith
count-numbers k i (suc m) = ground (arith, count-numbers k (i + 1) m)

no_negative : (k i m : ℕ) → count (negsuc k) (numbers i m) ≡ 0
no_negative k i zero = refl
no_negative k i (suc m) = omega (arith, no_negative k (i + 1) m)

count-range : (n : ℕ) (j : ℤ) → count j (numbers 0 n) ≡ one_if (in_range n j)
count-range n (pos k) = count-numbers k 0 n ∙ ground arith
count-range n (negsuc k) = no_negative k 0 n

module _ {I : Type 0} (zeroed : I) where
  -- the state of the handle as the loop goes
  record Filled (h h' : BufHndl I) (i m : ℕ) : Type 0 where
    valid : IsValid h'.empty_que
    same_len : h'.empty_que.len ≡ h.empty_que.len
    entered : contents h'.empty_que ≡ contents h.empty_que ++ numbers i m
    same_full : h'.full_que ≡ h.full_que
    same_num : h'.num_buf ≡ h.num_buf
    same_infos : length h'.buf_info ≡ length h.buf_info

  -- The loop enters its numbers in order, and never waits while there is room for them.
  fill-Filled :
      (m i : ℕ) (h : BufHndl I)
      → IsValid h.empty_que
      → h.empty_que.count + m ≤ h.empty_que.len
      → (h' : BufHndl I) × (fill zeroed m i h ≡ returned sok tt h' []) × Filled h h' i m
  unfolding fill
  fill-Filled zero i h v room = (
    h,
    refl,
    record {
      valid = v;
      same_len = refl;
      entered = sym (append-nil (contents h.empty_que));
      same_full = refl;
      same_num = refl;
      same_infos = refl;
    },
  )
  fill-Filled (suc m) i h v room =
      let e = h.empty_que in
      let g : BufHndl I = record h {
        buf_info = set h.buf_info i zeroed;
        empty_que = put_cell (pos i) e;
      } in
      let more = count-put_cell (pos i) v (omega arith) in
      let step =
        put_now empty_at (pos i) timeout_forever []
          (record h { buf_info = set h.buf_info i zeroed }) (omega arith) in
      let (h', q, f) =
        fill-Filled m (i + 1) g (put_cell-IsValid (pos i) v (omega arith))
          (omega (arith, more, len-put_cell (pos i) e)) in
      (
        h',
        rw step q,
        record {
          valid = f.valid;
          same_len = f.same_len ∙ len-put_cell (pos i) e;
          entered =
              f.entered
              ∙ ap (λ xs. xs ++ numbers (i + 1) m) (contents-put_cell (pos i) v (omega arith))
              ∙ append_assoc (contents e) (pos i ∷ []) (numbers (i + 1) m);
          same_full = f.same_full;
          same_num = f.same_num;
          same_infos = f.same_infos ∙ length-set h.buf_info i zeroed;
        },
      )

  -- the handle before the loop
  abbrev start : ℕ → QueHndl → QueHndl → BufHndl I
  start n e f = record {
    buf_info = replicate buf_num_max zeroed;
    empty_que = e;
    full_que = f;
    num_buf = pos n;
  }

  create-fill :
      (n : ℕ) (cells_e cells_f : List ℤ) (inits_e inits_f : InitStatus) (h : BufHndl I)
      {h' : BufHndl I}
      → n ≤ buf_num_max
      → (Que.create (some cells_e) inits_e n).0 ≡ sok
      → (Que.create (some cells_f) inits_f n).0 ≡ sok
      → fill zeroed n 0
          (start n (Que.create (some cells_e) inits_e n).1 (Que.create (some cells_f) inits_f n).1)
        ≡ returned sok tt h' []
      → create false (pos n) zeroed (some cells_e) (some cells_f) inits_e inits_f h
        ≡ returned sok tt h' []
  unfolding create
  create-fill n cells_e cells_f inits_e inits_f h high se sf q =
      let small : u32 n ≡ n = omega arith in
      let fits : ltb buf_num_max n ≡ false = ground arith in rw (small, fits, se, sf, q)

  -- Given cells for both queues and initialisers that succeed, OSA_bufCreate for 1 to
  -- OSA_BUF_NUM_MAX buffers returns `OSA_SOK` without waiting, with a pool of that many numbers,
  -- all of them in the queue of empty buffers, in order, and OSA_BUF_NUM_MAX heads.
  pub create-Conserved :
      (n : ℕ) (cells_e cells_f : List ℤ) (inits_e inits_f : InitStatus) (h : BufHndl I)
      → 0 < n
      → n ≤ buf_num_max
      → length cells_e ≡ n
      → length cells_f ≡ n
      → AllZero inits_e
      → AllZero inits_f
      → (h' : BufHndl I) × (create false
            (pos n)
            zeroed
            (some cells_e)
            (some cells_f)
            inits_e
            inits_f
            h
          ≡ returned sok tt h' [])
        × Conserved n (record { hndl = h'; held = [] })
        × (contents h'.empty_que ≡ numbers 0 n)
        × (contents h'.full_que ≡ [])
        × (length h'.buf_info ≡ buf_num_max)
  create-Conserved n cells_e cells_f inits_e inits_f h low high le lf ze zf =
      let (se, ve, ne, ce) = create-IsValid cells_e inits_e n le low (omega arith) ze in
      let (sf, vf, nf, cf) = create-IsValid cells_f inits_f n lf low (omega arith) zf in
      let e = (Que.create (some cells_e) inits_e n).1 in
      let f = (Que.create (some cells_f) inits_f n).1 in
      let none_e : e.count ≡ 0 = sym (length-contents ve) ∙ ap (λ (xs : List ℤ). length xs) ce in
      let none_f : f.count ≡ 0 = sym (length-contents vf) ∙ ap (λ (xs : List ℤ). length xs) cf in
      let (h', q, g) = fill-Filled n 0 (start n e f) ve (omega (arith, none_e, ne)) in
      let all : contents h'.empty_que ≡ numbers 0 n = g.entered ∙ ap (λ xs. xs ++ numbers 0 n) ce in
      let many = sym (length-contents g.valid) ∙ ap (λ (xs : List ℤ). length xs) all in
      let same : h'.full_que ≡ f = g.same_full in
      (
        h',
        create-fill n cells_e cells_f inits_e inits_f h high se sf q,
        record {
          valid_e = g.valid;
          valid_f = subst (λ r. IsValid r) (sym same) vf;
          len_e = g.same_len ∙ ne;
          len_f = ap (λ r. r.len) same ∙ nf;
          num = g.same_num;
          total = omega (arith, many, length-numbers 0 n, none_f, ap (λ r. r.count) same);
          each = λ j. omega (
            arith,
            ap (count j) all,
            count-range n j,
            ap (λ r. count j (contents r)) same,
            ap (count j) cf,
          );
        },
        all,
        ap contents same ∙ cf,
        g.same_infos ∙ length-replicate {A = I} buf_num_max zeroed,
      )
