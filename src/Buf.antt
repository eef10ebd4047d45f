-- ===== src/Buf.antt =====
-- osa/src/osa_buf.c and osa/inc/osa_buf.h: a pool of numbered buffers. A queue of empty and a queue
-- of full buffer numbers go round between producers and consumers.
-- The queues call `Que` at their place in the handle. `hndl_null` and `id_null` say that the
-- pointer of that name is NULL. `I` is `OSA_BufInfo`, which these functions only clear.
pub mod Pool
pub mod Fresh
pub mod Switch
mod Tests
use osa_base.Base.{
  ℕ, zero, suc, ◌+◌, refl, Bool, true, false, not, ◌||◌, Option, none, some, List, [], ◌∷◌, set,
  if◌then◌else◌, ℤ, pos, negsuc, sok, efail, ltb_ℤ, eq_ℤ, to_u32, replicate,
}
use osa_base.Monitor.{Outcome, returned, waiting, stopped, after, timeout_none, timeout_forever}
use osa_base.Place.{Place}
use osa_base.Ring.{Ring}
use osa_base.Que.{QueHndl, InitStatus}
use osa_base.Que

abbrev pub buf_num_max : ℕ
buf_num_max = 120

-- OSA_BUF_ID_INVALID
abbrev pub buf_id_invalid : ℤ
buf_id_invalid = negsuc 0

pub record BufHndl (I : Type 0) : Type 0 where
  pub buf_info : List I
  pub empty_que : QueHndl
  pub full_que : QueHndl
  pub num_buf : ℤ

abbrev zero_que : QueHndl
zero_que = record { cur_rd = 0; cur_wr = 0; len = 0; count = 0; queue = [] }

-- the rounds of `for (i = 0; i < hndl->numBuf; i++)`
abbrev pub rounds : ℤ → ℕ
rounds (pos n) = n
rounds (negsuc n) = 0

module _ {I : Type 0} where
  abbrev pub empty_at : Place (BufHndl I) QueHndl
  empty_at = record {
    read = λ h. h.empty_que;
    write = λ h q. record h { empty_que = q };
    read-write = λ h q. refl;
  }

  abbrev pub full_at : Place (BufHndl I) QueHndl
  full_at = record {
    read = λ h. h.full_que;
    write = λ h q. record h { full_que = q };
    read-write = λ h q. refl;
  }

  -- the loop of OSA_bufCreate, with the rounds that are left and its counter
  unfoldable pub fill : I → ℕ → ℕ → BufHndl I → Outcome (Unit {0}) (BufHndl I)
  fill zeroed zero i h = returned sok tt h []
  fill zeroed (suc n) i h =
      after
        (Que.put empty_at (pos i) timeout_forever []
          (record h { buf_info = set h.buf_info i zeroed }))
        λ s u h' wakes. fill zeroed n (i + 1) h'

  -- OSA_bufCreate; the storages and the initialisers are those of the two calls of OSA_queCreate.
  -- The handle is not shared yet, so no other thread runs at a wait.
  unfoldable pub create :
      Bool
      → ℤ
      → I
      → (storage_e storage_f : Option (List ℤ)) → (inits_e inits_f : InitStatus) → BufHndl I
      → Outcome (Unit {0}) (BufHndl I)
  unfolding fill
  create hndl_null buf_num zeroed storage_e storage_f inits_e inits_f h =
      let cleared : BufHndl I = record {
        buf_info = replicate buf_num_max zeroed;
        empty_que = zero_que;
        full_que = zero_que;
        num_buf = pos 0;
      } in
      let (s, e) = Que.create storage_e inits_e (to_u32 buf_num) in
      let (t, f) = Que.create storage_f inits_f (to_u32 buf_num) in
      if hndl_null || ltb_ℤ (pos buf_num_max) buf_num
      then returned efail tt h []
      else if not (eq_ℤ s sok)
      then returned s tt (record cleared { empty_que = e }) []
      else if not (eq_ℤ t sok)
      then returned t tt (record cleared { empty_que = (Que.delete e).1; full_que = f }) []
      else after
          (fill zeroed (rounds buf_num) 0
            (record cleared { empty_que = e; full_que = f; num_buf = buf_num }))
          λ _ u h' wakes. returned t tt h' wakes

  -- OSA_bufDelete; OSA_queDelete returns `OSA_SOK`, so the `|=` does.
  unfoldable pub delete : Bool → BufHndl I → ℤ × BufHndl I
  delete hndl_null h =
      if hndl_null
      then (efail, h)
      else let (s, e) = Que.delete h.empty_que in
        let (t, f) = Que.delete h.full_que in
        ((if eq_ℤ s sok then t else s), record h { empty_que = e; full_que = f })

  -- `if (status!=OSA_SOK) *bufId = OSA_BUF_ID_INVALID;` behind an OSA_queGet into `bufId`
  unfoldable pub or_invalid : Outcome (Option ℤ) (BufHndl I) → Outcome (Option ℤ) (BufHndl I)
  or_invalid (returned s out h wakes) =
      if eq_ℤ s sok then returned s out h wakes else returned s (some buf_id_invalid) h wakes
  or_invalid (waiting h) = waiting h
  or_invalid (stopped why h) = stopped why h

  module _ (hndl_null : Bool) where
    -- OSA_bufGetEmpty and OSA_bufGetFull; the value is what they store in `*bufId`.
    unfoldable pub get_empty :
        Bool → ℕ → List (BufHndl I → BufHndl I) → BufHndl I → Outcome (Option ℤ) (BufHndl I)
    unfolding or_invalid
    get_empty id_null timeout wakes h =
        if hndl_null || id_null
        then returned efail none h wakes
        else or_invalid (Que.get empty_at true timeout wakes h)

    unfoldable pub get_full :
        Bool → ℕ → List (BufHndl I → BufHndl I) → BufHndl I → Outcome (Option ℤ) (BufHndl I)
    unfolding or_invalid
    get_full id_null timeout wakes h =
        if hndl_null || id_null
        then returned efail none h wakes
        else or_invalid (Que.get full_at true timeout wakes h)

    -- OSA_bufPutFull and OSA_bufPutEmpty
    unfoldable pub put_full :
        ℤ → List (BufHndl I → BufHndl I) → BufHndl I → Outcome (Unit {0}) (BufHndl I)
    put_full buf_id wakes h =
        if hndl_null
        then returned efail tt h wakes
        else if not (ltb_ℤ buf_id h.num_buf) || ltb_ℤ buf_id (pos 0)
        then returned efail tt h wakes
        else Que.put full_at buf_id timeout_forever wakes h

    unfoldable pub put_empty :
        ℤ → List (BufHndl I → BufHndl I) → BufHndl I → Outcome (Unit {0}) (BufHndl I)
    put_empty buf_id wakes h =
        if hndl_null
        then returned efail tt h wakes
        else if not (ltb_ℤ buf_id h.num_buf) || ltb_ℤ buf_id (pos 0)
        then returned efail tt h wakes
        else Que.put empty_at buf_id timeout_forever wakes h

    -- what OSA_bufSwitchFull and OSA_bufSwitchEmpty do with the number that they got: hand the old
    -- one in by `put`, whose status is dropped, and keep the new one in `*bufId`
    unfoldable pub exchange :
        (ℤ → List (BufHndl I → BufHndl I) → BufHndl I → Outcome (Unit {0}) (BufHndl I))
        → ℤ
        → ℤ
        → Option ℤ
        → BufHndl I
        → List (BufHndl I → BufHndl I)
        → Outcome ℤ (BufHndl I)
    exchange put buf_id (pos zero) (some new_id) h wakes =
        if eq_ℤ buf_id buf_id_invalid
        then returned sok new_id h wakes
        else after (put buf_id wakes h) λ _ u h' wakes'. returned sok new_id h' wakes'
    exchange put buf_id s out h wakes = returned s buf_id h wakes

    -- OSA_bufSwitchFull and OSA_bufSwitchEmpty; the value is `*bufId` afterwards.
    unfoldable pub switch_full :
        ℤ → List (BufHndl I → BufHndl I) → BufHndl I → Outcome ℤ (BufHndl I)
    unfolding exchange
    switch_full buf_id wakes h =
        after (get_empty false timeout_none wakes h)
          λ s new_id h' wakes'. exchange put_full buf_id s new_id h' wakes'

    unfoldable pub switch_empty :
        ℤ → List (BufHndl I → BufHndl I) → BufHndl I → Outcome ℤ (BufHndl I)
    unfolding exchange
    switch_empty buf_id wakes h =
        after (get_full false timeout_none wakes h)
          λ s new_id h' wakes'. exchange put_empty buf_id s new_id h' wakes'

    -- OSA_bufGetBufInfo: NULL, or the address of the element with this index of `bufInfo`
    unfoldable pub get_buf_info : ℤ → BufHndl I → Option ℤ
    get_buf_info buf_id h =
        if hndl_null then none else if not (ltb_ℤ buf_id h.num_buf) then none else some buf_id
