-- ===== src/Que/Tests.antt =====
-- Runs of the queue, and its theorems at concrete queues.
use osa_base.Base.{◌≡◌, refl, true, false, none, some, [], ◌∷◌, arith, pos, sok, efail}
use osa_base.Monitor.{returned, timeout_none, timeout_forever, await}
use osa_base.Monitor.Laws.{Keeps, state}
use osa_base.Place.{whole}
use osa_base.Ring.{put_cell, drop_cell, attempt_put, attempt_get}
use osa_base.Ring.Invariant.{IsValid}
use osa_base.Ring.Fifo.{contents}
use osa_base.Que.{QueHndl, InitStatus, put, get}
use osa_base.Que.Waiting.{ValidAt, get-ValidAt}
use osa_base.Que.Traffic.{
  Calls, done, put_call, get_call, no_more, wake, Traffic, play, note_put, note_get, run,
}

-- 7 and 8, round the end of three cells
abbrev two : QueHndl
two = record { cur_rd = 2; cur_wr = 1; len = 3; count = 2; queue = pos 8 ∷ pos 6 ∷ pos 7 ∷ [] }

abbrev full : QueHndl
full = record { cur_rd = 1; cur_wr = 1; len = 3; count = 3; queue = pos 8 ∷ pos 6 ∷ pos 7 ∷ [] }

abbrev zeros : InitStatus
zeros = record { mutexattr = 0; condattr = 0; mutex = 0; cond_rd = 0; cond_wr = 0 }

-- 1 fills the queue; the put of 2 waits until another thread, which finds no room for 3 itself, takes
-- 7; a get without a place takes 8; and a last put waits for ever.
abbrev script : Calls
script = put_call (pos 1) timeout_none no_more (
    put_call (pos 2) timeout_forever
      (wake done (
        wake (put_call (pos 3) timeout_none no_more (get_call true timeout_forever no_more done))
          no_more))
      (get_call false timeout_none no_more
        (put_call (pos 4) timeout_none no_more (put_call (pos 5) timeout_forever no_more done))))

abbrev at_first : {Q : Type 0} → Q → Traffic Q
at_first q = record { queue = q; accepted = []; received = []; statuses = [] }

contents-two : contents two ≡ pos 7 ∷ pos 8 ∷ []
contents-two = refl

-- what another thread does while a put waits: it takes a value
abbrev taker : QueHndl → QueHndl
taker q = state (get whole true timeout_none [] q)

put_waits :
    put whole (pos 9) timeout_forever (taker ∷ []) full
    ≡ returned sok tt
        (record { cur_rd = 2; cur_wr = 2; len = 3; count = 3; queue = pos 8 ∷ pos 9 ∷ pos 7 ∷ [] })
        []
unfolding put get await attempt_put attempt_get put_cell drop_cell
put_waits = refl

run-script : run script (at_first two) ≡ record {
  queue = record { cur_rd = 1; cur_wr = 1; len = 3; count = 3; queue = pos 4 ∷ pos 1 ∷ pos 2 ∷ [] };
  accepted = pos 1 ∷ pos 2 ∷ pos 4 ∷ [];
  received = pos 7 ∷ [];
  statuses = some sok ∷ some efail ∷ some sok ∷ some sok ∷ some sok ∷ some sok ∷ none ∷ [];
}
unfolding run play note_put note_get put get await attempt_put attempt_get put_cell drop_cell
run-script = refl

full-IsValid : IsValid full
full-IsValid = omega arith

taker-Keeps : Keeps (ValidAt whole) taker
taker-Keeps q v = get-ValidAt whole true timeout_none [] tt v

get_takes :
    get whole true timeout_none [] two
    ≡ returned sok
        (some (pos 7))
        (record { cur_rd = 0; cur_wr = 1; len = 3; count = 1; queue = pos 8 ∷ pos 6 ∷ pos 7 ∷ [] })
        []
unfolding get await attempt_get drop_cell
get_takes = refl
