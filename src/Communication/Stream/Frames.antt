-- ===== src/Communication/Stream/Frames.antt =====
-- A frame in the buffers of a client: server_fill_buf of communication/osa_communication.c on a pool of
-- osa/src/osa_buf.c.
use osa_base.Base.{
  subst, ℕ, ◌<◌, ◌≤◌, ◌≡◌, refl, sym, ap, ◌∙◌, true, false, Option, some, List, [], ◌∷◌, ◌++◌, ◌==◌,
  get_elem?, set, get_elem?-set_self, get_elem?-in_bounds, length, take, arith, ℤ, pos, negsuc,
  ltb_ℤ,
}
use osa_base.Base.Count.{count, erase, one_if, eq_ℤ_self}
use osa_base.Monitor.{returned, timeout_none, timeout_forever}
use osa_base.Ring.{put_cell, drop_cell}
use osa_base.Ring.Fifo.{contents, contents-drop_cell, contents-put_cell}
use osa_base.Que.Waiting.{put_now}
use osa_base.Buf.{BufHndl, full_at, put_full}
use osa_base.Buf.Pool.{in_range, Conserved}
use osa_base.Buf.Pool.Moves.{drop_cell-Took, put_cell-Gave, after_take_e, after_give_f}
use osa_base.Buf.Pool.Safety.{held-in_range, in_guard}
use osa_base.Buf.Switch.{get_empty_now}
use osa_base.Communication.Head.{init_stream_head, check_stream_head}
use osa_base.Communication.Stream.{BufInfo, fill_at, fill_buf}

numbered : (n : ℕ) (i : ℤ) → in_range n i ≡ true → (k : ℕ) × (i ≡ pos k) × (k < n)
numbered n (pos k) e = (k, refl, ground arith)
numbered n (negsuc k) e = absurd (cc)

module _ {R : Type 0} where
  -- what is stored for a frame
  abbrev pub stored : BufInfo R → List ℕ → BufInfo R
  stored info bytes = record {
    head = (init_stream_head info.head).1;
    frame_data = some (take ((init_stream_head info.head).1.n_frame_length) bytes);
  }

  fill_at-full :
      (mem_alloc : ℕ → Option (List ℕ)) (block : List ℕ) (info : BufInfo R) (bytes : List ℕ)
      (n k : ℕ) (wakes : List (BufHndl (BufInfo R) → BufHndl (BufInfo R))) (h : BufHndl (BufInfo R))
      → mem_alloc info.head.n_frame_length ≡ some block
      → k < length h.buf_info
      → in_range n (pos k) ≡ true
      → h.num_buf ≡ pos n
      → h.full_que.count < h.full_que.len
      → fill_at mem_alloc info bytes (pos k) wakes h
        ≡ returned
            (pos 0)
            tt
            (record h {
              buf_info = set h.buf_info k (stored info bytes);
              full_que = put_cell (pos k) h.full_que;
            })
            wakes
  unfolding fill_at put_full init_stream_head
  fill_at-full mem_alloc block info bytes n k wakes h e inside r num room =
      let (old, o) = get_elem?-in_bounds h.buf_info k inside in
      let h' : BufHndl (BufInfo R) = record h { buf_info = set h.buf_info k (stored info bytes) } in
      rw (
        fill_at,
        e,
        o,
        in_guard n (pos k) h.num_buf r num,
        put_now full_at (pos k) timeout_forever wakes h' room,
      )

  -- the pool when a frame has been put into the oldest empty buffer, `k`
  abbrev pub filled : ℕ → BufInfo R → List ℕ → BufHndl (BufInfo R) → BufHndl (BufInfo R)
  filled k info bytes h = record h {
    buf_info = set h.buf_info k (stored info bytes);
    empty_que = drop_cell h.empty_que;
    full_que = put_cell (pos k) h.full_que;
  }

  filled-Conserved :
      {n : ℕ} {xs : List ℤ} (h : BufHndl (BufInfo R)) (new : ℤ) (k : ℕ) (info : BufInfo R)
      (bytes : List ℕ)
      → new ≡ pos k
      → h.full_que.count < h.full_que.len
      → Conserved n
          (record { hndl = record h { empty_que = drop_cell h.empty_que }; held = new ∷ xs })
      → Conserved n (record { hndl = filled k info bytes h; held = xs })
  filled-Conserved {n} {xs} h new k info bytes at room c =
      let mine : 0 < count new (new ∷ xs) = omega (arith, ap one_if (eq_ℤ_self new)) in
      let rest : erase new (new ∷ xs) ≡ xs = rw (eq_ℤ_self new) in
      let g = after_give_f c new mine (put_cell-Gave new c.valid_f room) in
      let g' =
        subst
          (λ ys. Conserved n (record {
            hndl = record h {
              empty_que = drop_cell h.empty_que;
              full_que = put_cell new h.full_que;
            };
            held = ys;
          }))
          rest g in
      let g'' =
        subst
          (λ i. Conserved n (record {
            hndl = record h { empty_que = drop_cell h.empty_que; full_que = put_cell i h.full_que };
            held = xs;
          }))
          at g' in
      record {
        valid_e = g''.valid_e;
        valid_f = g''.valid_f;
        len_e = g''.len_e;
        len_f = g''.len_f;
        num = g''.num;
        total = g''.total;
        each = g''.each;
      }

  -- server_fill_buf for a client that has an empty buffer, and the pool that it leaves
  pub fill_buf_lem :
      (mem_alloc : ℕ → Option (List ℕ)) (block : List ℕ) (info : BufInfo R) (bytes : List ℕ) (n : ℕ)
      (xs : List ℤ) (socket : ℕ) (wakes : List (BufHndl (BufInfo R) → BufHndl (BufInfo R)))
      (h : BufHndl (BufInfo R))
      → 3 ≤ socket
      → mem_alloc info.head.n_frame_length ≡ some block
      → Conserved n (record { hndl = h; held = xs })
      → n ≤ length h.buf_info
      → 0 < h.empty_que.count
      → (k : ℕ) × (fill_buf mem_alloc (pos socket) info bytes wakes h
          ≡ returned (pos 0) tt (filled k info bytes h) wakes)
        × (contents h.empty_que ≡ pos k ∷ contents (drop_cell h.empty_que))
        × (contents (put_cell (pos k) h.full_que) ≡ contents h.full_que ++ pos k ∷ [])
        × (k < length h.buf_info)
        × Conserved n (record { hndl = filled k info bytes h; held = xs })
  unfolding fill_buf
  fill_buf_lem mem_alloc block info bytes n xs socket wakes h usable e c cells some_in =
      let (new, q, l) = contents-drop_cell c.valid_e some_in in
      let taken : BufHndl (BufInfo R) = record h { empty_que = drop_cell h.empty_que } in
      let c' = after_take_e c (drop_cell-Took c.valid_e some_in l) in
      let r : in_range n new ≡ true =
        held-in_range new c' (omega (arith, ap one_if (eq_ℤ_self new))) in
      let (k, at, lt) = numbered n new r in
      let room : h.full_que.count < h.full_que.len = omega (arith, c.total, c.len_f) in
      let low : ltb_ℤ (pos socket) (pos 3) ≡ false = ground arith in
      let g : get_elem? h.empty_que.queue h.empty_que.cur_rd ≡ some (pos k) = q ∙ ap some at in
      let f =
        fill_at-full mem_alloc block info bytes n k wakes taken e (omega (arith, cells))
          (ap (in_range n) (sym at) ∙ r) c.num room in
      (
        k,
        rw (low, get_empty_now timeout_none wakes h some_in g, f),
        l ∙ ap (λ i. i ∷ contents (drop_cell h.empty_que)) at,
        contents-put_cell (pos k) c.valid_f room,
        omega (arith, cells),
        filled-Conserved h new k info bytes at room c',
      )

  -- The head of what is stored is between the marks, where the check of heads finds them if the
  -- frame is not empty.
  pub stored_marked :
      (info : BufInfo R) (bytes : List ℕ)
      → 0 < info.head.n_frame_length
      → check_stream_head (some (stored info bytes).head) ≡ pos 0
  unfolding check_stream_head init_stream_head
  stored_marked info bytes some_bytes =
      let full : (info.head.n_frame_length == 0) ≡ false = ground arith in rw full

  -- A frame that a server sends to a client that has an empty buffer is copied there, between the
  -- marks, where the check of heads finds them if it is not empty; the oldest empty buffer is now the
  -- newest full one, without a wait.
  pub fill_buf-stored :
      (mem_alloc : ℕ → Option (List ℕ)) (block : List ℕ) (info : BufInfo R) (bytes : List ℕ) (n : ℕ)
      (xs : List ℤ) (socket : ℕ) (wakes : List (BufHndl (BufInfo R) → BufHndl (BufInfo R)))
      (h : BufHndl (BufInfo R))
      → 3 ≤ socket
      → mem_alloc info.head.n_frame_length ≡ some block
      → 0 < info.head.n_frame_length
      → Conserved n (record { hndl = h; held = xs })
      → n ≤ length h.buf_info
      → 0 < h.empty_que.count
      → (k : ℕ) × (h' : BufHndl (BufInfo R)) × (fill_buf mem_alloc (pos socket) info bytes wakes h
          ≡ returned (pos 0) tt h' wakes)
        × (contents h.empty_que ≡ pos k ∷ contents h'.empty_que)
        × (contents h'.full_que ≡ contents h.full_que ++ pos k ∷ [])
        × (get_elem? h'.buf_info k ≡ some (stored info bytes))
        × (check_stream_head (some (stored info bytes).head) ≡ pos 0)
  fill_buf-stored mem_alloc block info bytes n xs socket wakes h usable e some_bytes c cells
        some_in =
      let (k, run, empties, fulls, inside, own) =
        fill_buf_lem mem_alloc block info bytes n xs socket wakes h usable e c cells some_in in
      (
        k,
        filled k info bytes h,
        run,
        empties,
        fulls,
        get_elem?-set_self h.buf_info k (stored info bytes) inside,
        stored_marked info bytes some_bytes,
      )
