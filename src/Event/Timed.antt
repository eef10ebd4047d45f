-- ===== src/Event/Timed.antt =====
-- The wait with a time limit in OSA_EventRetrieve of osa/src/osa_event.c.
use osa_base.Base.{
  ℕ, ◌+◌, ◌*◌, ◌^◌, ◌≤◌, ◌<◌, ◌≡◌, ◌≢◌, ◌∙◌, true, false, none, some, List, [], ◌∷◌, ◌++◌, ◌==◌,
  if◌then◌else◌, sok, efail, arith,
}
use osa_base.Event.{
  ThreadEvent, Operation, Wake, returned, no_suspend, suspend, finish, timed_loop, retrieve,
  deadline,
}
use osa_base.Event.Wait.{Met, Quiet, taken, passed, here, isolated_off, isolated_on}

-- each of the waits was signalled
unfoldable pub Signalled : List Wake → Type 0
Signalled [] = Unit {0}
Signalled (wake ∷ wakes) = (wake.result ≡ 0) × Signalled wakes

module _ (operation : Operation) (requested : ℕ) (small : requested < 2 ^ 32) (timed_out : ℕ) where
  pass_by :
      (before wakes : List Wake) (e : ThreadEvent)
      → Signalled before
      → Quiet operation requested before e
      → timed_loop operation requested 0 timed_out (before ++ wakes) e
        ≡ timed_loop operation requested 0 timed_out wakes (passed before e)
  unfolding timed_loop Signalled Quiet
  pass_by [] wakes e s q = λ _. timed_loop operation requested 0 timed_out wakes e
  pass_by (first ∷ before) wakes e s q =
      let unmet = here operation requested before (first.meanwhile e) q.1 in
      let t : (first.result == 0) ≡ true = ground (arith, s.0) in
      rw (t, isolated_off operation requested small (first.meanwhile e) unmet)
        (pass_by before wakes (first.meanwhile e) s.1 q.1)

  module _ (timeout_msec : ℕ) (some_time : timeout_msec ≢ no_suspend)
      (limit : timeout_msec ≢ suspend) where
    retrieve_timed :
        (wakes : List Wake) (e : ThreadEvent)
        → ¬ Met operation requested e.e_flags
        → retrieve operation requested 0 false 0 timed_out timeout_msec wakes e
          ≡ timed_loop operation requested 0 timed_out wakes e
    unfolding retrieve
    retrieve_timed wakes e unmet =
        let s : (timeout_msec == no_suspend) ≡ false = ground arith in
        let t : (timeout_msec == suspend) ≡ false = ground arith in
        rw (isolated_off operation requested small e unmet, s, t)

    -- A retrieval with a time limit, of a mask below 2 ^ 32 and where locking and unlocking the mutex
    -- succeed, whose events are not there at first and come at a wake-up before the limit, all waits
    -- up to it being signalled, returns `OSA_EFAIL` and stores nothing in `*pRetrievedEvents`; if it
    -- consumes, all the flags are reset.
    pub late_lost :
        (before : List Wake) (wake : Wake) (later : List Wake) (e : ThreadEvent)
        → Signalled before
        → Quiet operation requested before e
        → wake.result ≡ 0
        → Met operation requested (wake.meanwhile (passed before e)).e_flags
        → retrieve operation requested 0 false 0 timed_out timeout_msec (before ++ wake ∷ later) e
          ≡ returned efail none (taken operation (wake.meanwhile (passed before e)))
    unfolding timed_loop finish
    late_lost before wake later e s q r m =
        let t : (wake.result == 0) ≡ true = ground arith in
        retrieve_timed (before ++ wake ∷ later) e (here operation requested before e q)
        ∙ pass_by before (wake ∷ later) e s q
        ∙ rw (t, isolated_on operation requested small (wake.meanwhile (passed before e)) m)

    -- A retrieval whose wait ends before the events are there, by the limit or an error, stores 0 and
    -- leaves the flags, and returns `OSA_SOK` if it was the limit, `OSA_EFAIL` otherwise.
    pub retrieve_expired :
        (before : List Wake) (wake : Wake) (later : List Wake) (e : ThreadEvent)
        → Signalled before
        → Quiet operation requested before e
        → wake.result ≢ 0
        → retrieve operation requested 0 false 0 timed_out timeout_msec (before ++ wake ∷ later) e
          ≡ returned
              (if wake.result == timed_out then sok else efail)
              (some 0)
              (wake.meanwhile (passed before e))
    unfolding timed_loop finish
    retrieve_expired before wake later e s q r =
        let t : (wake.result == 0) ≡ false = ground arith in
        retrieve_timed (before ++ wake ∷ later) e (here operation requested before e q)
        ∙ pass_by before (wake ∷ later) e s q
        ∙ rw t

-- The deadline lies the time limit after the present, to the microsecond, where the microseconds of
-- the present and of the limit are fewer than `2 ^ 32`; its nanoseconds are fewer than a second.
pub deadline_exact :
    (tv_sec tv_usec timeout_msec : ℕ)
    → tv_usec + 1000 * timeout_msec < 2 ^ 32
    → let (s, ns) = deadline tv_sec tv_usec timeout_msec in
      (ns < 1000000000)
      × (s * 1000000000 + ns ≡ tv_sec * 1000000000 + tv_usec * 1000 + timeout_msec * 1000000)
unfolding deadline
deadline_exact tv_sec tv_usec timeout_msec small = omega arith

-- The deadline of a limit of 4294968 milliseconds or more lies before the end of that time.
pub deadline_short :
    (tv_sec tv_usec timeout_msec : ℕ)
    → 4294968 ≤ timeout_msec
    → let (s, ns) = deadline tv_sec tv_usec timeout_msec in
      s * 1000000000 + ns < tv_sec * 1000000000 + timeout_msec * 1000000
unfolding deadline
deadline_short tv_sec tv_usec timeout_msec long = omega arith
