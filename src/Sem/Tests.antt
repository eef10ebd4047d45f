-- ===== src/Sem/Tests.antt =====
-- The semaphore's theorems at concrete semaphores.
use osa_base.Base.{◌≡◌, refl, [], ◌∷◌, arith, sok}
use osa_base.Monitor.{returned, timeout_forever, await}
use osa_base.Sem.{SemHndl, SemInit, wait, signal}
use osa_base.Sem.Bound.{signals, signals-min}

abbrev one_of_two : SemHndl
one_of_two = record { count = 1; max_count = 2 }

abbrev none_of_two : SemHndl
none_of_two = record { count = 0; max_count = 2 }

abbrev zeros : SemInit
zeros = record { mutexattr = 0; condattr = 0; mutex = 0; cond = 0 }

abbrev signaller : SemHndl → SemHndl
signaller s = (signal 0 s).1

wait_waits : wait timeout_forever (signaller ∷ []) none_of_two ≡ returned sok tt none_of_two []
unfolding wait await signal
wait_waits = refl

signals-min_example : ((signals 5 one_of_two).count ≡ 2) × ((signals 5 one_of_two).max_count ≡ 2)
signals-min_example = signals-min 5 (omega arith)
