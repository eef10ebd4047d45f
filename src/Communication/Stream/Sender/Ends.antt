-- ===== src/Communication/Stream/Sender/Ends.antt =====
-- How the thread of communication/osa_communication.c that sends frames to a client ends.
use osa_base.Base.{
  ℕ, zero, suc, ◌≤◌, ◌<◌, ◌≡◌, ◌≢◌, refl, sym, ap, ◌∙◌, true, false, ◌&&◌, Bool-cases, inl, inr,
  none, some, List, [], ◌∷◌, ◌++◌, All, get_elem?, set, get_elem?-set_ne, get_elem?-set_there,
  length, arith, ℤ, pos, efail, sok, ◌==◌,
}
use osa_base.Base.Count.{count, one_if, one_if_le, eq_ℤ_self}
use osa_base.Monitor.{returned, timeout_none}
use osa_base.Ring.{drop_cell}
use osa_base.Ring.Invariant.{IsValid, drop_cell-IsValid}
use osa_base.Ring.Fifo.{contents, contents-drop_cell, length-contents}
use osa_base.Que.Waiting.{get_now, get_empty}
use osa_base.Socket.{Sock}
use osa_base.Buf
use osa_base.Buf.{BufHndl, full_at, get_full, buf_id_invalid}
use osa_base.Buf.Pool.{in_range, Conserved}
use osa_base.Communication.{is_connect, is_star}
use osa_base.Communication.Head.{FrameHead}
use osa_base.Communication.Server.{CliOpreateHanle}
use osa_base.Communication.Stream.{BufInfo}
use osa_base.Communication.Stream.Sender.{
  StreamClient, Others, Turn, left, drain, stream_leave, stream_loop,
}
use osa_base.Communication.Stream.Sender.Sends.{freed}
use osa_base.Communication.Stream.Sender.Deliver.{ids, Stored, Stored-set}

module _ {R : Type 0} where
  abbrev pub without_data : BufInfo R → BufInfo R
  without_data info = record info { frame_data = none }

  -- The data of some buffers have been freed.
  abbrev pub Freed : List (BufInfo R) → List (ℕ × BufInfo R) → Type 0
  Freed infos qs = All (λ q. get_elem? infos (q.0) ≡ some (without_data (q.1))) qs

  -- Those of all others are as they were.
  abbrev pub Spared : (before after : List (BufInfo R)) → List (ℕ × BufInfo R) → Type 0
  Spared before after qs =
      (k : ℕ) → count (pos k) (ids qs) ≡ 0 → get_elem? after k ≡ get_elem? before k

  Spared-set :
      (k : ℕ) (info : BufInfo R) (qs : List (ℕ × BufInfo R)) (before after : List (BufInfo R))
      → Spared (set before k (without_data info)) after qs
      → Spared before after ((k, info) ∷ qs)
  Spared-set k info qs before after spared j z = elim (Bool-cases (j == k)) [
    | inl same ↦ absurd (omega (arith, ap one_if same))
    | inr differ ↦
        let ne : k ≢ j = ground arith in
        spared j (omega (arith, ap one_if differ)) ∙ get_elem?-set_ne before (without_data info) ne
  ]

  -- The full buffers of a pool are those of `qs`, the oldest first, each of them once.
  record Fulls (qs : List (ℕ × BufInfo R)) (h : BufHndl (BufInfo R)) : Type 0 where
    valid : IsValid h.full_que
    full : contents h.full_que ≡ ids qs
    kept : Stored h.buf_info qs
    once : (i : ℤ) → count i (ids qs) ≤ 1

  -- the oldest is taken, and its data are freed
  one_freed :
      {k : ℕ} {info : BufInfo R} {qs : List (ℕ × BufInfo R)} (h : BufHndl (BufInfo R))
      → Fulls ((k, info) ∷ qs) h
      → (get_full false false timeout_none [] h
          ≡ returned sok (some (pos k)) (record h { full_que = drop_cell h.full_que }) [])
        × Fulls qs (record h {
          full_que = drop_cell h.full_que;
          buf_info = set h.buf_info k (without_data info);
        })
        × (count (pos k) (ids qs) ≡ 0)
  unfolding get_full
  one_freed {k} {info} {qs} h f =
      let more : 0 < h.full_que.count = omega (arith, length-contents f.valid, ap length f.full) in
      let (x, at, l) = contents-drop_cell f.valid more in
      let whole : x ∷ contents (drop_cell h.full_que) ≡ pos k ∷ ids qs = sym l ∙ f.full in
      let same : x ≡ pos k = cc in
      let fresh : count (pos k) (ids qs) ≡ 0 =
        omega (arith, f.once (pos k), ap one_if (eq_ℤ_self (pos k))) in
      (
        rw (get_now full_at true timeout_none [] h more, at, same),
        record {
          valid = drop_cell-IsValid f.valid more;
          full = cc;
          kept = Stored-set k (without_data info) h.buf_info qs fresh (f.kept.1);
          once = λ i. omega (arith, f.once i);
        },
        fresh,
      )

  none_full :
      (h : BufHndl (BufInfo R))
      → Fulls [] h
      → get_full false false timeout_none [] h ≡ returned efail (some buf_id_invalid) h []
  unfolding get_full
  none_full h f =
      rw (get_empty full_at true [] h (omega (arith, length-contents f.valid, ap length f.full)))

module _ {R Net : Type 0} (sock : Sock Net) (fuel : ℕ) (head_bytes : FrameHead R → List ℕ)
    (client_socket buf_num : ℤ) where
  abbrev draining : ℕ → StreamClient R Net → Turn R Net
  draining = drain sock fuel head_bytes client_socket buf_num

  drain_frees :
      (rounds : ℕ) (qs : List (ℕ × BufInfo R)) (client : CliOpreateHanle Net)
      (h : BufHndl (BufInfo R))
      → length qs < rounds
      → Fulls qs h
      → (h' : BufHndl (BufInfo R)) × (draining rounds (record { client = client; pool = h })
          ≡ left (record { client = client; pool = h' }))
        × Freed h'.buf_info qs
        × Spared h.buf_info h'.buf_info qs
  unfolding drain
  drain_frees zero qs client h enough f = absurd (omega arith)
  drain_frees (suc rounds) [] client h enough f =
      ((Buf.delete false h).1, rw (drain, none_full h f), tt, unfold Buf.delete in (λ k z. refl))
  drain_frees (suc rounds) ((k, info) ∷ qs) client h enough f =
      let (taken, f', fresh) = one_freed h f in
      let (h', run, gone, spared) =
        drain_frees rounds qs client
          (record h {
            full_que = drop_cell h.full_que;
            buf_info = set h.buf_info k (without_data info);
          })
          (omega arith) f' in
      (
        h',
        rw (drain, taken, freed k info (record h { full_que = drop_cell h.full_que }) (f.kept.0))
            run,
        (spared k fresh ∙ get_elem?-set_there h.buf_info k (without_data info) (f.kept.0), gone),
        Spared-set k info qs h.buf_info h'.buf_info spared,
      )

  -- The thread of a client that is no longer connected, or whose server stops, ends at the next test of
  -- its loop: it closes its socket and frees the data in every full buffer, which are those of `qs`, and
  -- nothing in any other. A round for each and one more are enough.
  pub stream_loop-left :
      (n : ℕ) (held : List ℤ) (qs : List (ℕ × BufInfo R)) (others : Others R)
      (rest : List (Others R)) (buf_id : ℤ) (c : StreamClient R Net)
      → (is_connect c.client.status && is_star others.star) ≡ false
      → Conserved n (record { hndl = c.pool; held = held })
      → contents c.pool.full_que ≡ ids qs
      → Stored c.pool.buf_info qs
      → length qs < fuel
      → (h : BufHndl (BufInfo R)) × (stream_loop sock fuel head_bytes client_socket buf_num
            (others ∷ rest)
            buf_id
            c
          ≡ left (record {
            client = record c.client { closed = c.client.closed ++ client_socket ∷ [] };
            pool = h;
          }))
        × Freed h.buf_info qs
        × Spared c.pool.buf_info h.buf_info qs
  unfolding stream_loop stream_leave
  stream_loop-left n held qs others rest buf_id c stops own full kept enough =
      let (h, run, gone, spared) =
        drain_frees fuel qs (record c.client { closed = c.client.closed ++ client_socket ∷ [] })
          c.pool enough
          (record {
            valid = own.valid_f;
            full = full;
            kept = kept;
            once = λ i. omega (arith, own.each i, ap (count i) full, one_if_le (in_range n i));
          }) in
      (h, rw (stream_loop, stops, stream_leave) run, gone, spared)
