-- ===== src/Event/Tests.antt =====
-- The theorems of events at concrete flags: 4 is active, both 1 and 2 are waited for.
use osa_base.Base.{ℕ, ◌≡◌, refl, true, false, none, some, [], ◌∷◌, sok, efail, arith}
use osa_base.Event.{
  ThreadEvent, event_and_consume, event_or, Wake, Retrieval, returned, suspend, isolated, finish,
  suspend_loop, retrieve, set, combine, announce,
}
use osa_base.Event.Wait.{Met, Quiet, retrieve_wakes}
use osa_base.Event.Timed.{Signalled, late_lost}

abbrev flagged : ℕ → ThreadEvent
flagged n = record { b_signaled = false; e_flags = n }

abbrev sets : ℕ → Wake
sets n = record { result = 0; meanwhile = λ e. (set false 0 0 0 n event_or e).1 }

abbrev expires : Wake
expires = record { result = 110; meanwhile = λ e. e }

abbrev seven : Retrieval
seven = returned sok (some 7) (record { b_signaled = true; e_flags = 0 })

quiet : Quiet event_and_consume 3 (sets 1 ∷ []) (flagged 4)
unfolding Quiet Met set combine announce
quiet = (λ h. omega arith, λ h. omega arith)

retrieve_wakes_example :
    retrieve event_and_consume 3 0 false 0 110 suspend (sets 1 ∷ sets 2 ∷ []) (flagged 4) ≡ seven
unfolding Met set combine announce
retrieve_wakes_example =
    retrieve_wakes event_and_consume 3 (omega arith) 110 (sets 1 ∷ []) (sets 2) [] (flagged 4) quiet
      refl

late_lost_example :
    retrieve event_and_consume 3 0 false 0 110 500 (sets 1 ∷ sets 2 ∷ []) (flagged 4)
    ≡ returned efail none (record { b_signaled = true; e_flags = 0 })
unfolding Met set combine announce Signalled
late_lost_example =
    late_lost event_and_consume 3 (omega arith) 110 500 (omega arith) (omega arith) (sets 1 ∷ [])
      (sets 2) [] (flagged 4) (refl, tt) quiet refl refl

retrieve_runs :
    retrieve event_and_consume 3 0 false 0 110 suspend (sets 1 ∷ sets 2 ∷ []) (flagged 4) ≡ seven
unfolding retrieve suspend_loop isolated finish set combine announce
retrieve_runs = refl
