-- ===== src/Buf/Pool.antt =====
-- Producers and consumers of OSA_BufHndl (osa/src/osa_buf.c) that hand in only buffers they were
-- given: the pool with what the threads hold, its invariant, and the steps.
pub mod Moves
pub mod Safety
use osa_base.Base.{
  ℕ, ◌+◌, ◌<◌, ◌≡◌, Bool, false, some, List, ◌∷◌, [], length, ltb, ℤ, pos, negsuc, sok,
}
use osa_base.Base.Count.{count, one_if, erase}
use osa_base.Monitor.{returned}
use osa_base.Ring.Invariant.{IsValid}
use osa_base.Ring.Fifo.{contents}
use osa_base.Buf.{BufHndl, get_empty, get_full, put_full, put_empty}

-- the handle, and the numbers that the threads hold
pub record Pool (I : Type 0) : Type 0 where
  pub hndl : BufHndl I
  pub held : List ℤ

-- the numbers of a pool of `n` buffers
abbrev pub in_range : ℕ → ℤ → Bool
in_range n (pos k) = ltb k n
in_range n (negsuc k) = false

-- Every number of the pool is in one of three hands, once: the queue of empty buffers, the queue
-- of full ones, or the threads.
pub record Conserved {I : Type 0} (n : ℕ) (p : Pool I) : Type 0 where
  pub valid_e : IsValid p.hndl.empty_que
  pub valid_f : IsValid p.hndl.full_que
  pub len_e : p.hndl.empty_que.len ≡ n
  pub len_f : p.hndl.full_que.len ≡ n
  pub num : p.hndl.num_buf ≡ pos n
  pub total : p.hndl.empty_que.count + p.hndl.full_que.count + length p.held ≡ n
  pub each :
      (i : ℤ)
      → count i (contents p.hndl.empty_que) + count i (contents p.hndl.full_que) + count i p.held
        ≡ one_if (in_range n i)

module _ {I : Type 0} where
  -- What the threads do: take a number out of a queue, or hand in one that they hold. Each call
  -- runs by itself, with any timeout.
  pub data Step : Pool I → Pool I → Type 0 where
    take_empty :
        {h h' : BufHndl I} {xs : List ℤ} {i : ℤ} {rest : List (BufHndl I → BufHndl I)} (timeout : ℕ)
        → get_empty false false timeout [] h ≡ returned sok (some i) h' rest
        → Step (record { hndl = h; held = xs }) (record { hndl = h'; held = i ∷ xs })
    take_full :
        {h h' : BufHndl I} {xs : List ℤ} {i : ℤ} {rest : List (BufHndl I → BufHndl I)} (timeout : ℕ)
        → get_full false false timeout [] h ≡ returned sok (some i) h' rest
        → Step (record { hndl = h; held = xs }) (record { hndl = h'; held = i ∷ xs })
    give_full :
        {h h' : BufHndl I} {xs : List ℤ} {rest : List (BufHndl I → BufHndl I)} (i : ℤ)
        → 0 < count i xs
        → put_full false i [] h ≡ returned sok tt h' rest
        → Step (record { hndl = h; held = xs }) (record { hndl = h'; held = erase i xs })
    give_empty :
        {h h' : BufHndl I} {xs : List ℤ} {rest : List (BufHndl I → BufHndl I)} (i : ℤ)
        → 0 < count i xs
        → put_empty false i [] h ≡ returned sok tt h' rest
        → Step (record { hndl = h; held = xs }) (record { hndl = h'; held = erase i xs })

  pub data Reach (p : Pool I) : Pool I → Type 0 where
    here : Reach p p
    next : {q r : Pool I} → Reach p q → Step q r → Reach p r
