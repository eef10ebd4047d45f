-- ===== src/Buf/Switch.antt =====
-- OSA_bufSwitchFull (osa/src/osa_buf.c): a producer trades its filled buffer for an empty one. And
-- the ranges of buffer numbers that the functions accept.
use osa_base.Base.{
  ℕ, ◌+◌, ◌<◌, ◌≡◌, refl, true, false, some, none, List, [], ◌∷◌, ◌++◌, get_elem?, arith, ltb, ℤ,
  pos, negsuc, sok, efail, eq_ℤ,
}
use osa_base.Base.Count.{count, erase}
use osa_base.Monitor.{returned, timeout_none, timeout_forever}
use osa_base.Ring.{put_cell, drop_cell}
use osa_base.Ring.Fifo.{contents, contents-drop_cell, contents-put_cell}
use osa_base.Que.Waiting.{put_now, get_now}
use osa_base.Que.Waiting as Waiting
use osa_base.Buf.{
  BufHndl, buf_id_invalid, empty_at, full_at, get_empty, put_full, put_empty, switch_full,
  get_buf_info,
}
use osa_base.Buf.Pool.{in_range, Conserved}
use osa_base.Buf.Pool.Moves.{drop_cell-Took, put_cell-Gave, after_take_e, after_give_f}
use osa_base.Buf.Pool.Safety.{held-in_range, in_guard, length_pos}

not_invalid : (n : ℕ) (i : ℤ) → in_range n i ≡ true → eq_ℤ i buf_id_invalid ≡ false
not_invalid n (pos k) e = refl
not_invalid n (negsuc k) e = absurd (cc)

module _ {I : Type 0} where
  -- Taking from a queue of empty buffers that has one gives the oldest.
  pub get_empty_now :
      (timeout : ℕ) (wakes : List (BufHndl I → BufHndl I)) (h : BufHndl I) {x : ℤ}
      → 0 < h.empty_que.count
      → get_elem? h.empty_que.queue h.empty_que.cur_rd ≡ some x
      → get_empty false false timeout wakes h
        ≡ returned sok (some x) (record h { empty_que = drop_cell h.empty_que }) wakes
  unfolding get_empty
  get_empty_now timeout wakes h some_in e = rw (get_now empty_at true timeout wakes h some_in, e)

  -- A producer that holds `id` and finds an empty buffer gets `OSA_SOK` without waiting: it then
  -- holds the oldest empty buffer in place of `id`, which is the newest of the full ones, and the
  -- pool keeps its invariant.
  pub switch_full-exchange :
      {n : ℕ} {h : BufHndl I} {xs : List ℤ} (id : ℤ) (wakes : List (BufHndl I → BufHndl I))
      → Conserved n (record { hndl = h; held = xs })
      → 0 < count id xs
      → 0 < h.empty_que.count
      → (new : ℤ) × (h' : BufHndl I) × (switch_full false id wakes h ≡ returned sok new h' wakes)
        × (contents h.empty_que ≡ new ∷ contents h'.empty_que)
        × (contents h'.full_que ≡ contents h.full_que ++ id ∷ [])
        × Conserved n (record { hndl = h'; held = erase id (new ∷ xs) })
  unfolding switch_full put_full
  switch_full-exchange {n} {h} {xs} id wakes c own some_in =
      let (new, e, l) = contents-drop_cell c.valid_e some_in in
      let taken : BufHndl I = record h { empty_que = drop_cell h.empty_que } in
      let c' = after_take_e c (drop_cell-Took c.valid_e some_in l) in
      let r = held-in_range id c own in
      let room : h.full_que.count < h.full_que.len =
        omega (arith, c.total, c.len_f, length_pos id xs own) in
      let own' : 0 < count id (new ∷ xs) = omega arith in
      (
        new,
        record taken { full_que = put_cell id h.full_que },
        rw (
          get_empty_now timeout_none wakes h some_in e,
          not_invalid n id r,
          in_guard n id h.num_buf r c.num,
          put_now full_at id timeout_forever wakes taken room,
        ),
        l,
        contents-put_cell id c.valid_f room,
        after_give_f c' id own' (put_cell-Gave id c.valid_f room),
      )

  -- A producer that finds no empty buffer gets `OSA_EFAIL`, keeps its own, and nothing changes,
  -- though OSA_bufGetEmpty has stored OSA_BUF_ID_INVALID on the way.
  pub switch_full-none :
      (h : BufHndl I) (id : ℤ) (wakes : List (BufHndl I → BufHndl I))
      → h.empty_que.count ≡ 0
      → (switch_full false id wakes h ≡ returned efail id h wakes)
        × (get_empty false false timeout_none wakes h
            ≡ returned efail (some buf_id_invalid) h wakes)
  unfolding switch_full get_empty
  switch_full-none h id wakes z = let e = Waiting.get_empty empty_at true wakes h z in (rw e, rw e)

  -- A number outside the pool, negative or too large, is refused by OSA_bufPutFull and
  -- OSA_bufPutEmpty, which change nothing; OSA_bufGetBufInfo refuses the large ones only, and
  -- gives for -1, -2, ... an address before the array.
  pub out_of_range :
      {n : ℕ} (h : BufHndl I) (k : ℕ) (wakes : List (BufHndl I → BufHndl I))
      → h.num_buf ≡ pos n
      → (put_full false (negsuc k) wakes h ≡ returned efail tt h wakes)
        × (put_empty false (negsuc k) wakes h ≡ returned efail tt h wakes)
        × (put_full false (pos (n + k)) wakes h ≡ returned efail tt h wakes)
        × (put_empty false (pos (n + k)) wakes h ≡ returned efail tt h wakes)
        × (get_buf_info false (pos (n + k)) h ≡ none)
        × (get_buf_info false (negsuc k) h ≡ some (negsuc k))
  unfolding put_full put_empty get_buf_info
  out_of_range {n} h k wakes e =
      let big : ltb (n + k) n ≡ false = ground arith in
      (rw e, rw e, rw (e, big), rw (e, big), rw (e, big), rw e)
