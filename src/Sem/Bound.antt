-- ===== src/Sem/Bound.antt =====
-- Signals of a semaphore are counted up to its bound, and who waits is let through by one.
use native.Mathlib.Decide.{dec_lt}
use osa_base.Base.{
  ℕ, zero, suc, ◌+◌, ◌<◌, ◌≤◌, ◌≡◌, ◌≢◌, ◌^◌, ap, min, max, none, some, List, ◌∷◌, arith, sok,
}
use osa_base.Monitor.{returned, timeout_none}
use osa_base.Monitor.Laws.{await_second}
use osa_base.Sem.{SemHndl, SemInit, create, attempt_wait, wait, signal}

pub record IsBounded (s : SemHndl) : Type 0 where
  pub room : 0 < s.max_count
  pub within : s.count ≤ s.max_count
  pub small : s.max_count < 2 ^ 32

-- OSA_semCreate makes a semaphore within its bound, from any two `Uint32` values: the bound is the
-- one asked for, or 1 for 0, and the count the one asked for, or the bound if that is less.
pub create-IsBounded :
    (i : SemInit) (max_count init_val : ℕ)
    → max_count < 2 ^ 32
    → let (st, s) = create i max_count init_val in
      IsBounded s × (s.max_count ≡ max 1 max_count) × (s.count ≡ min init_val s.max_count)
unfolding create
create-IsBounded i max_count init_val h = ground arith

pub signal-IsBounded : (r : ℕ) {s : SemHndl} → IsBounded s → IsBounded (signal r s).1
unfolding signal
signal-IsBounded r b = ground arith

signal-room :
    (r : ℕ) (s : SemHndl)
    → s.count < s.max_count
    → s.max_count < 2 ^ 32
    → ((signal r s).1.count ≡ s.count + 1) × ((signal r s).1.max_count ≡ s.max_count)
unfolding signal
signal-room r s h k = ground arith

signal-full : (r : ℕ) (s : SemHndl) → s.max_count ≤ s.count → signal r s ≡ (sok, s)
unfolding signal
signal-full r s h = ground arith

-- the semaphore after some signals
pub signals : ℕ → SemHndl → SemHndl
signals zero s = s
signals (suc n) s = signals n (signal 0 s).1

-- Signals are counted up to the bound, and those beyond it are lost.
pub signals-min :
    (n : ℕ) {s : SemHndl}
    → IsBounded s
    → ((signals n s).count ≡ min (s.count + n) s.max_count)
      × ((signals n s).max_count ≡ s.max_count)
unfolding signals
signals-min zero b = omega arith
signals-min (suc n) {s} b =
    let t = (signal 0 s).1 in
    let ih = signals-min n {s = t} (signal-IsBounded 0 b) in
    elim (dec_lt s.count s.max_count) [
      | yes h ↦ omega (arith, ih, signal-room 0 s h b.small, b.within)
      | no h ↦
          let e : t ≡ s = ap (λ p. p.1) (signal-full 0 s (omega arith)) in
          omega (arith, ih, ap (λ u. u.count) e, ap (λ u. u.max_count) e, b.within)
    ]

none_at_zero : (s : SemHndl) → s.count ≡ 0 → attempt_wait s ≡ none
unfolding attempt_wait
none_at_zero s z = ground arith

one_more : (s : SemHndl) → IsBounded s → s.count ≡ 0 → attempt_wait (signal 0 s).1 ≡ some (tt, s)
unfolding attempt_wait signal
one_more s b z = ground arith

-- A thread that waits at zero, with any timeout but `OSA_TIMEOUT_NONE`, returns `OSA_SOK` at its
-- first wake-up if another thread signalled meanwhile, and has taken that one count.
pub wait-signal :
    (timeout : ℕ) (later : List (SemHndl → SemHndl)) {s : SemHndl}
    → timeout ≢ timeout_none
    → IsBounded s
    → s.count ≡ 0
    → wait timeout ((λ u. (signal 0 u).1) ∷ later) s ≡ returned sok tt s later
unfolding wait
wait-signal timeout later {s} t b z =
    await_second attempt_wait tt timeout (λ u. (signal 0 u).1) later s t (none_at_zero s z)
      (one_more s b z)
