-- ===== src/Event/Wait.antt =====
-- What OSA_EventRetrieve of osa/src/osa_event.c waits for, in the words of osa_event.h, and the waits
-- without a limit.
use Prim.Native.Nat.{bit_and, bit_or}
use osa_base.Base.{
  ℕ, ◌^◌, ◌<◌, ◌≡◌, ◌∙◌, true, false, some, List, [], ◌∷◌, ◌++◌, ◌==◌, if◌then◌else◌, ◌⊎◌, inl, inr,
  sok, arith,
}
use osa_base.Base.Bits.{bit_and_le, bit_and-bit_or}
use osa_base.Event.{
  ThreadEvent, Operation, event_and, event_and_consume, event_or, event_or_consume, Wake, returned,
  suspend, consumes, isolated, finish, suspend_loop, retrieve, set, combine, announce,
}

-- "if all the events specified in the mask are active", "if any" of them
unfoldable pub Met : Operation → ℕ → ℕ → Type 0
Met event_and requested flags = bit_and flags requested ≡ requested
Met event_and_consume requested flags = bit_and flags requested ≡ requested
Met event_or requested flags = 0 < bit_and flags requested
Met event_or_consume requested flags = 0 < bit_and flags requested

-- the event after a retrieval
abbrev pub taken : Operation → ThreadEvent → ThreadEvent
taken operation e = if consumes operation then record e { e_flags = 0 } else e

-- the event after some waits
abbrev pub passed : List Wake → ThreadEvent → ThreadEvent
passed [] e = e
passed (wake ∷ wakes) e = passed wakes (wake.meanwhile e)

-- at no wake-up are the events there
unfoldable pub Quiet : Operation → ℕ → List Wake → ThreadEvent → Type 0
Quiet operation requested [] e = ¬ Met operation requested e.e_flags
Quiet operation requested (wake ∷ wakes) e =
    (¬ Met operation requested e.e_flags) × Quiet operation requested wakes (wake.meanwhile e)

-- The 32 bits of `isolatedFlags` are enough for a mask of 32 bits.
pub isolated-Met :
    (operation : Operation) (requested : ℕ) (e : ThreadEvent)
    → requested < 2 ^ 32
    → ((isolated operation requested e ≡ 0) × (¬ Met operation requested e.e_flags))
      ⊎ ((0 < isolated operation requested e) × Met operation requested e.e_flags)
unfolding isolated Met
isolated-Met event_and requested e small = let l = bit_and_le e.e_flags requested in ground arith
isolated-Met event_and_consume requested e small =
    let l = bit_and_le e.e_flags requested in ground arith
isolated-Met event_or requested e small = let l = bit_and_le e.e_flags requested in ground arith
isolated-Met event_or_consume requested e small =
    let l = bit_and_le e.e_flags requested in ground arith

-- events that stay away are not there at first
pub here :
    (operation : Operation) (requested : ℕ) (wakes : List Wake) (e : ThreadEvent)
    → Quiet operation requested wakes e
    → ¬ Met operation requested e.e_flags
unfolding Quiet
here operation requested [] e q = q
here operation requested (wake ∷ wakes) e q = q.0

-- Events that are set are there, for each operation.
bit_or-Met :
    (operation : Operation) (flags requested : ℕ)
    → 0 < requested
    → Met operation requested (bit_or flags requested)
unfolding Met
bit_or-Met event_and flags requested p = bit_and-bit_or flags requested
bit_or-Met event_and_consume flags requested p = bit_and-bit_or flags requested
bit_or-Met event_or flags requested p = rw (bit_and-bit_or flags requested) p
bit_or-Met event_or_consume flags requested p = rw (bit_and-bit_or flags requested) p

module _ (operation : Operation) (requested : ℕ) (small : requested < 2 ^ 32) where
  pub isolated_off :
      (e : ThreadEvent)
      → ¬ Met operation requested e.e_flags
      → (isolated operation requested e == 0) ≡ true
  isolated_off e unmet = elim (isolated-Met operation requested e small) [
    | inl (z, n) ↦ ground arith
    | inr (p, m) ↦ absurd (unmet m)
  ]

  pub isolated_on :
      (e : ThreadEvent)
      → Met operation requested e.e_flags
      → (isolated operation requested e == 0) ≡ false
  isolated_on e m = elim (isolated-Met operation requested e small) [
    | inl (z, unmet) ↦ absurd (unmet m)
    | inr (p, m') ↦ ground arith
  ]

  loop_skip :
      (wake : Wake) (wakes : List Wake) (e : ThreadEvent)
      → ¬ Met operation requested (wake.meanwhile e).e_flags
      → suspend_loop operation requested 0 (wake ∷ wakes) e
        ≡ suspend_loop operation requested 0 wakes (wake.meanwhile e)
  unfolding suspend_loop
  loop_skip wake wakes e unmet = rw (isolated_off (wake.meanwhile e) unmet)

  loop_take :
      (wake : Wake) (wakes : List Wake) (e : ThreadEvent)
      → Met operation requested (wake.meanwhile e).e_flags
      → suspend_loop operation requested 0 (wake ∷ wakes) e
        ≡ returned sok (some (wake.meanwhile e).e_flags) (taken operation (wake.meanwhile e))
  unfolding suspend_loop finish
  loop_take wake wakes e m = rw (isolated_on (wake.meanwhile e) m)

  loop_wakes :
      (before : List Wake) (wake : Wake) (later : List Wake) (e : ThreadEvent)
      → Quiet operation requested before e
      → Met operation requested (wake.meanwhile (passed before e)).e_flags
      → suspend_loop operation requested 0 (before ++ wake ∷ later) e
        ≡ returned sok
            (some (wake.meanwhile (passed before e)).e_flags)
            (taken operation (wake.meanwhile (passed before e)))
  unfolding Quiet
  loop_wakes [] wake later e q m = loop_take wake later e m
  loop_wakes (first ∷ before) wake later e q m =
      loop_skip first (before ++ wake ∷ later) e
        (here operation requested before (first.meanwhile e) q.1)
      ∙ loop_wakes before wake later (first.meanwhile e) q.1 m

  -- A retrieval without a limit, of a mask below 2 ^ 32 and where locking and unlocking the mutex
  -- succeed, whose events are not there at first returns `OSA_SOK` at the first wake-up after which
  -- they are, with all the flags that are active then. If it consumes it leaves no flag at all, also
  -- none outside the mask, where osa_event.h says that the events of the mask are consumed.
  pub retrieve_wakes :
      (timed_out : ℕ) (before : List Wake) (wake : Wake) (later : List Wake) (e : ThreadEvent)
      → Quiet operation requested before e
      → Met operation requested (wake.meanwhile (passed before e)).e_flags
      → retrieve operation requested 0 false 0 timed_out suspend (before ++ wake ∷ later) e
        ≡ returned sok
            (some (wake.meanwhile (passed before e)).e_flags)
            (taken operation (wake.meanwhile (passed before e)))
  unfolding retrieve
  retrieve_wakes timed_out before wake later e q m =
      rw (isolated_off e (here operation requested before e q)) (loop_wakes before wake later e q m)

  -- A thread that waits for events of which at least one is asked for returns `OSA_SOK` once
  -- another thread sets them all by OSA_EventSet with OSA_EVENT_OR, whatever its operation, with
  -- those events and the ones that were active before.
  pub set-retrieve :
      (timed_out : ℕ) (later : List Wake) (e : ThreadEvent)
      → 0 < requested
      → ¬ Met operation requested e.e_flags
      → retrieve operation requested 0 false 0 timed_out suspend
          (record { result = 0; meanwhile = λ x. (set false 0 0 0 requested event_or x).1 } ∷ later)
          e
        ≡ returned sok
            (some (bit_or e.e_flags requested))
            (taken operation (record { b_signaled = true; e_flags = bit_or e.e_flags requested }))
  unfolding set combine announce Quiet
  set-retrieve timed_out later e some_in unmet =
      retrieve_wakes timed_out []
        (record { result = 0; meanwhile = λ x. (set false 0 0 0 requested event_or x).1 }) later e
        unmet (bit_or-Met operation e.e_flags requested some_in)
