-- ===== src/Monitor/Simulation.antt =====
-- Two waiting loops over different states: one seen through a function on the states.
use osa_base.Base.{
  ℕ, ◌≡◌, refl, sym, ap, ◌∙◌, subst, Option, none, some, List, [], ◌∷◌, ◌==◌, inl, inr, Bool-cases,
  Option-cases, ℤ,
}
use osa_base.Monitor.{Outcome, returned, waiting, stopped, timeout_none, await}
use osa_base.Monitor.Laws.{state}

-- the status and the value of a call that has returned
abbrev pub answer {ℓ κ} : {A : Type ℓ} {W : Type κ} → Outcome A W → Option (ℤ × A)
answer (returned s a w wakes) = some (s, a)
answer (waiting w) = none
answer (stopped why w) = none

module _ {V W : Type 0} (view : V → W) (P : V → Type 0) where
  -- The wake-ups are as many on both sides, and each does the same where `P` holds and keeps it.
  abbrev pub Follows : List (V → V) → List (W → W) → Type 0
  Follows [] [] = Unit
  Follows (g ∷ gs) (h ∷ hs) = ((v : V) → P v → (view (g v) ≡ h (view v)) × P (g v)) × Follows gs hs
  Follows gs hs = ⊥

  -- Two calls end the same way.
  pub record Agree {A : Type 0} (o : Outcome A V) (o' : Outcome A W) : Type 0 where
    pub same_answer : answer o ≡ answer o'
    pub same_state : view (state o) ≡ state o'
    pub kept : P (state o)

  -- what an attempt leaves, seen through `view`
  abbrev pub image : {A : Type 0} → Option (A × V) → Option (A × W)
  image none = none
  image (some (a, v)) = some (a, view v)

  module _ {A : Type 0} (attempt : V → Option (A × V)) (attempt' : W → Option (A × W)) (failed : A)
      (same : (v : V) → P v → image (attempt v) ≡ attempt' (view v))
      (keep : (v : V) (a : A) (v' : V) → P v → attempt v ≡ some (a, v') → P v') where
    -- The waiting loops around two attempts that do the same end the same way.
    pub await-Agree :
        (timeout : ℕ) (gs : List (V → V)) (hs : List (W → W)) (v : V)
        → Follows gs hs
        → P v
        → Agree (await attempt failed timeout gs v) (await attempt' failed timeout hs (view v))
    unfolding await
    await-Agree timeout [] [] v follow p = elim (Option-cases (attempt v)) [
      | inl e ↦
          let e' : attempt' (view v) ≡ none = sym (same v p) ∙ ap image e in
          elim (Bool-cases (timeout == timeout_none)) [
            | inl t ↦
                rw (e, e', t, await) (record { same_answer = refl; same_state = refl; kept = p })
            | inr t ↦
                rw (e, e', t, await) (record { same_answer = refl; same_state = refl; kept = p })
          ]
      | inr (av, e) ↦
          let e' : attempt' (view v) ≡ some (av.0, view av.1) = sym (same v p) ∙ ap image e in
          rw (e, e', await)
            (record { same_answer = refl; same_state = refl; kept = keep v av.0 av.1 p e })
    ]
    await-Agree timeout [] (h ∷ hs) v follow p = elim follow [ ]
    await-Agree timeout (g ∷ gs) [] v follow p = elim follow [ ]
    await-Agree timeout (g ∷ gs) (h ∷ hs) v (first, follow) p = elim (Option-cases (attempt v)) [
      | inl e ↦
          let e' : attempt' (view v) ≡ none = sym (same v p) ∙ ap image e in
          elim (Bool-cases (timeout == timeout_none)) [
            | inl t ↦
                rw (e, e', t, await) (record { same_answer = refl; same_state = refl; kept = p })
            | inr t ↦
                let (s, q) = first v p in
                rw (e, e', t, await)
                  (subst
                    (λ w.
                      Agree (await attempt failed timeout gs (g v))
                        (await attempt' failed timeout hs w))
                    s (await-Agree timeout gs hs (g v) follow q))
          ]
      | inr (av, e) ↦
          let e' : attempt' (view v) ≡ some (av.0, view av.1) = sym (same v p) ∙ ap image e in
          rw (e, e', await)
            (record { same_answer = refl; same_state = refl; kept = keep v av.0 av.1 p e })
    ]
