-- ===== src/Que/Traffic.antt =====
-- Calls of OSA_quePut and OSA_queGet by any threads, which wait for each other, on the queue and on
-- its specification, a bounded list.
use osa_base.Base.{
  ℕ, ◌≡◌, refl, sym, ap, ap₂, ◌∙◌, subst, Bool, Option, none, some, List, [], ◌∷◌, ◌++◌,
  if◌then◌else◌, ℤ, sok, eq_ℤ,
}
use osa_base.Monitor.{Outcome, await}
use osa_base.Monitor.Laws.{state}
use osa_base.Monitor.Simulation.{answer, Follows, Agree, image, await-Agree}
use osa_base.Place.{Place, put_back, attempt_at, put_back-some}
use osa_base.Ring.{attempt_put, attempt_get}
use osa_base.Ring.Invariant.{
  IsValid, attempt_put-some, attempt_get-some, attempt_put-IsValid, attempt_get-IsValid,
  len-put_cell, len-drop_cell,
}
use osa_base.Ring.Fifo.{contents, seen, offer, poll, attempt_put_refines, attempt_get_refines}
use osa_base.Que.{QueHndl, put, get}

-- Calls one after the other. Each has its timeout, and a get whether it is given a place for the
-- value; and the wake-ups of its wait, before each of which other threads make calls of their own,
-- which may wait in turn: they have returned by that wake-up, or wait for ever. Wake-ups behind the one
-- at which a call returns do not happen.
mutual
  pub data Calls : Type 0 where
    done : Calls
    put_call : (value : ℤ) (timeout : ℕ) → Wakes → Calls → Calls
    get_call : (wanted : Bool) (timeout : ℕ) → Wakes → Calls → Calls

  pub data Wakes : Type 0 where
    no_more : Wakes
    wake : Calls → Wakes → Wakes

-- What the threads share, a queue or a list, after some calls; the values that the puts got in, and
-- those that the gets stored; and the statuses, in the order in which the calls ended, `none` for one
-- that has not returned.
pub record Traffic (Q : Type 0) : Type 0 where
  pub queue : Q
  pub accepted : List ℤ
  pub received : List ℤ
  pub statuses : List (Option ℤ)

module _ {Q : Type 0} where
  abbrev pub shared : Place (Traffic Q) Q
  shared = record {
    read = λ t. t.queue;
    write = λ t q. record t { queue = q };
    read-write = λ t q. refl;
  }

  -- what a call adds
  unfoldable pub note_put : ℤ → Option (ℤ × Unit {0}) → Traffic Q → Traffic Q
  note_put x none t = record t { statuses = t.statuses ++ none ∷ [] }
  note_put x (some (s, u)) t = record t {
    accepted = if eq_ℤ s sok then t.accepted ++ x ∷ [] else t.accepted;
    statuses = t.statuses ++ some s ∷ [];
  }

  unfoldable pub note_get : Option (ℤ × Option ℤ) → Traffic Q → Traffic Q
  note_get none t = record t { statuses = t.statuses ++ none ∷ [] }
  note_get (some (s, none)) t = record t { statuses = t.statuses ++ some s ∷ [] }
  note_get (some (s, some x)) t = record t {
    received = t.received ++ x ∷ [];
    statuses = t.statuses ++ some s ∷ [];
  }

  module _
      (call_put : ℤ → ℕ → List (Traffic Q → Traffic Q) → Traffic Q → Outcome (Unit {0}) (Traffic Q))
      (call_get : Bool
        → ℕ
        → List (Traffic Q → Traffic Q)
        → Traffic Q
        → Outcome (Option ℤ) (Traffic Q)) where
    unfoldable mutual
      pub play : Calls → Traffic Q → Traffic Q
      play done t = t
      play (put_call x timeout wakes calls) t =
          let o = call_put x timeout (wake_ups wakes) t in
          play calls (note_put x (answer o) (state o))
      play (get_call wanted timeout wakes calls) t =
          let o = call_get wanted timeout (wake_ups wakes) t in
          play calls (note_get (answer o) (state o))

      pub wake_ups : Wakes → List (Traffic Q → Traffic Q)
      wake_ups no_more = []
      wake_ups (wake calls wakes) = (λ t. play calls t) ∷ wake_ups wakes

-- the calls on a queue
unfoldable pub run : Calls → Traffic QueHndl → Traffic QueHndl
run = play (put shared) (get shared)

-- The same calls on a list of at most `cap` values, with the same waits.
unfoldable pub list_put :
    ℕ
    → ℤ
    → ℕ
    → List (Traffic (List ℤ) → Traffic (List ℤ))
    → Traffic (List ℤ)
    → Outcome (Unit {0}) (Traffic (List ℤ))
list_put cap x = await (attempt_at shared (offer cap x)) tt

unfoldable pub list_get :
    Bool
    → ℕ
    → List (Traffic (List ℤ) → Traffic (List ℤ))
    → Traffic (List ℤ)
    → Outcome (Option ℤ) (Traffic (List ℤ))
list_get wanted = await (attempt_at shared (poll wanted)) none

unfoldable pub list_run : ℕ → Calls → Traffic (List ℤ) → Traffic (List ℤ)
list_run cap = play (list_put cap) list_get

-- a queue seen as a list
abbrev pub listed : Traffic QueHndl → Traffic (List ℤ)
listed t = record {
  queue = contents t.queue;
  accepted = t.accepted;
  received = t.received;
  statuses = t.statuses;
}

module _ (cap : ℕ) where
  -- the queue is valid and has `cap` cells
  abbrev pub Sound : Traffic QueHndl → Type 0
  Sound t = IsValid t.queue × (t.queue.len ≡ cap)

  image-put_back :
      {A : Type 0} (t : Traffic QueHndl) (o : Option (A × QueHndl))
      → image listed Sound (put_back shared t o) ≡ put_back shared (listed t) (seen o)
  image-put_back t none = refl
  image-put_back t (some (a, q)) = refl

  put-Agree :
      (x : ℤ) (timeout : ℕ) (gs : List (Traffic QueHndl → Traffic QueHndl))
      (hs : List (Traffic (List ℤ) → Traffic (List ℤ))) (t : Traffic QueHndl)
      → Follows listed Sound gs hs
      → Sound t
      → Agree listed Sound (put shared x timeout gs t) (list_put cap x timeout hs (listed t))
  unfolding put list_put
  put-Agree x =
      await-Agree listed Sound (attempt_at shared (attempt_put x)) (attempt_at shared (offer cap x))
        tt
        (λ t (v, l).
          image-put_back t (attempt_put x t.queue)
          ∙ ap (put_back shared (listed t))
              (attempt_put_refines x v ∙ ap (λ n. offer n x (contents t.queue)) l))
        (λ t a t' (v, l) e.
          let (q, at, s) = put_back-some shared t (attempt_put x t.queue) e in
          let (room, is) = attempt_put-some x t.queue at in
          rw s (attempt_put-IsValid x v at, ap (λ r. r.len) is ∙ len-put_cell x t.queue ∙ l))

  get-Agree :
      (wanted : Bool) (timeout : ℕ) (gs : List (Traffic QueHndl → Traffic QueHndl))
      (hs : List (Traffic (List ℤ) → Traffic (List ℤ))) (t : Traffic QueHndl)
      → Follows listed Sound gs hs
      → Sound t
      → Agree listed Sound (get shared wanted timeout gs t) (list_get wanted timeout hs (listed t))
  unfolding get list_get
  get-Agree wanted =
      await-Agree listed Sound (attempt_at shared (attempt_get wanted))
        (attempt_at shared (poll wanted)) none
        (λ t (v, l).
          image-put_back t (attempt_get wanted t.queue)
          ∙ ap (put_back shared (listed t)) (attempt_get_refines wanted v))
        (λ t a t' (v, l) e.
          let (q, at, s) = put_back-some shared t (attempt_get wanted t.queue) e in
          let (full, out, is) = attempt_get-some wanted t.queue at in
          rw s (attempt_get-IsValid wanted v at, ap (λ r. r.len) is ∙ len-drop_cell t.queue ∙ l))

  -- what was noted is the same
  listed-note_put :
      (x : ℤ) (o : Option (ℤ × Unit {0})) (t : Traffic QueHndl)
      → (listed (note_put x o t) ≡ note_put x o (listed t)) × ((note_put x o t).queue ≡ t.queue)
  unfolding note_put
  listed-note_put x none t = (refl, refl)
  listed-note_put x (some (s, u)) t = (refl, refl)

  listed-note_get :
      (o : Option (ℤ × Option ℤ)) (t : Traffic QueHndl)
      → (listed (note_get o t) ≡ note_get o (listed t)) × ((note_get o t).queue ≡ t.queue)
  unfolding note_get
  listed-note_get none t = (refl, refl)
  listed-note_get (some (s, none)) t = (refl, refl)
  listed-note_get (some (s, some x)) t = (refl, refl)

  mutual
    unfolding run list_run play

    run-listed :
        (calls : Calls) (t : Traffic QueHndl)
        → Sound t
        → (listed (run calls t) ≡ list_run cap calls (listed t)) × Sound (run calls t)
    run-listed done t p = (refl, p)
    run-listed (put_call x timeout wakes calls) t p =
        let ws = wake_ups (put shared) (get shared) wakes in
        let vs = wake_ups (list_put cap) list_get wakes in
        let o = put shared x timeout ws t in
        let o' = list_put cap x timeout vs (listed t) in
        let same = put-Agree x timeout ws vs t (wakes-Follows wakes) p in
        let (noted, still) = listed-note_put x (answer o) (state o) in
        let (e, q) =
          run-listed calls (note_put x (answer o) (state o))
            (subst (λ r. IsValid r × (r.len ≡ cap)) (sym still) same.kept) in
        (e ∙ ap (list_run cap calls) (noted ∙ ap₂ (note_put x) same.same_answer same.same_state), q)
    run-listed (get_call wanted timeout wakes calls) t p =
        let ws = wake_ups (put shared) (get shared) wakes in
        let vs = wake_ups (list_put cap) list_get wakes in
        let o = get shared wanted timeout ws t in
        let o' = list_get wanted timeout vs (listed t) in
        let same = get-Agree wanted timeout ws vs t (wakes-Follows wakes) p in
        let (noted, still) = listed-note_get (answer o) (state o) in
        let (e, q) =
          run-listed calls (note_get (answer o) (state o))
            (subst (λ r. IsValid r × (r.len ≡ cap)) (sym still) same.kept) in
        (e ∙ ap (list_run cap calls) (noted ∙ ap₂ note_get same.same_answer same.same_state), q)

    wakes-Follows :
        (wakes : Wakes)
        → Follows listed Sound
            (wake_ups (put shared) (get shared) wakes)
            (wake_ups (list_put cap) list_get wakes)
    wakes-Follows no_more = tt
    wakes-Follows (wake calls wakes) = ((λ t p. run-listed calls t p), wakes-Follows wakes)
