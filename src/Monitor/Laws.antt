-- ===== src/Monitor/Laws.antt =====
-- What the waiting loop guarantees, whatever the attempt: invariants, atomicity, progress.
use osa_base.Base.{
  ℕ, ◌≡◌, ◌≢◌, false, Option, none, some, List, [], ◌∷◌, ◌++◌, arith, ◌==◌, inl, inr, Bool-cases,
  Option-cases, All, sok, efail,
}
use osa_base.Monitor.{Outcome, returned, waiting, stopped, timeout_none, await}

-- the shared state when the call is over, or now
abbrev pub state {ℓ κ} : {A : Type ℓ} {W : Type κ} → Outcome A W → W
state (returned s a w wakes) = w
state (waiting w) = w
state (stopped why w) = w

-- the state after some wake-ups
abbrev pub wake_all {κ} : {W : Type κ} → List (W → W) → W → W
wake_all [] w = w
wake_all (wake ∷ wakes) w = wake_all wakes (wake w)

abbrev pub Keeps {κ μ} : {W : Type κ} → (W → Type μ) → (W → W) → Type (κ ⊔ μ)
Keeps {W} P f = (w : W) → P w → P (f w)

module _ {ℓ κ μ} {A : Type ℓ} {W : Type κ} (attempt : W → Option (A × W)) (failed : A)
    (P : W → Type μ) where
  -- An invariant that the attempt keeps, and that the other threads keep, holds at the end.
  pub await_inv :
      (keep : (w : W) (a : A) (w' : W) → P w → attempt w ≡ some (a, w') → P w') (timeout : ℕ)
      (wakes : List (W → W)) (w : W)
      → All (Keeps P) wakes
      → P w
      → P (state (await attempt failed timeout wakes w))
  unfolding await
  await_inv keep timeout [] w ok p = elim (Option-cases (attempt w)) [
    | inl e ↦ elim (Bool-cases (timeout == timeout_none)) [
      | inl t ↦ rw (e, t, await) p
      | inr t ↦ rw (e, t, await) p
    ]
    | inr (aw, e) ↦ rw (e, await) (keep w aw.0 aw.1 p e)
  ]
  await_inv keep timeout (wake ∷ wakes) w ok p = elim (Option-cases (attempt w)) [
    | inl e ↦ elim (Bool-cases (timeout == timeout_none)) [
      | inl t ↦ rw (e, t, await) p
      | inr t ↦ rw (e, t, await) (await_inv keep timeout wakes (wake w) ok.1 (ok.0 w p))
    ]
    | inr (aw, e) ↦ rw (e, await) (keep w aw.0 aw.1 p e)
  ]

  -- A call that returns `OSA_SOK` made its change in one piece, at a state where the invariant
  -- held.
  pub await-sok :
      (timeout : ℕ) (wakes : List (W → W)) (w : W) {a : A} {w' : W} {rest : List (W → W)}
      → All (Keeps P) wakes
      → P w
      → await attempt failed timeout wakes w ≡ returned sok a w' rest
      → (v : W) × P v × (attempt v ≡ some (a, w'))
  unfolding await
  await-sok timeout [] w ok p h = elim (Option-cases (attempt w)) [
    | inl e ↦ elim (Bool-cases (timeout == timeout_none)) [
      | inl t ↦ absurd (cc (rw (e, t, await) at h))
      | inr t ↦ absurd (cc (rw (e, t, await) at h))
    ]
    | inr (aw, e) ↦ (w, p, ground (arith, e, (rw (e, await) at h)))
  ]
  await-sok timeout (wake ∷ wakes) w ok p h = elim (Option-cases (attempt w)) [
    | inl e ↦ elim (Bool-cases (timeout == timeout_none)) [
      | inl t ↦ absurd (cc (rw (e, t, await) at h))
      | inr t ↦ await-sok timeout wakes (wake w) ok.1 (ok.0 w p) (rw (e, t, await) at h)
    ]
    | inr (aw, e) ↦ (w, p, ground (arith, e, (rw (e, await) at h)))
  ]

module _ {ℓ κ} {A : Type ℓ} {W : Type κ} (attempt : W → Option (A × W)) (failed : A) where
  -- A call whose guard holds at once does not wait.
  pub await_now :
      (timeout : ℕ) (wakes : List (W → W)) (w : W) {a : A} {w' : W}
      → attempt w ≡ some (a, w')
      → await attempt failed timeout wakes w ≡ returned sok a w' wakes
  unfolding await
  await_now timeout [] w e = rw (e, await)
  await_now timeout (wake ∷ wakes) w e = rw (e, await)

  -- With `OSA_TIMEOUT_NONE` a call whose guard fails changes nothing.
  pub await_gives_up :
      (wakes : List (W → W)) (w : W)
      → attempt w ≡ none
      → await attempt failed timeout_none wakes w ≡ returned efail failed w wakes
  unfolding await
  await_gives_up [] w e = rw (e, await)
  await_gives_up (wake ∷ wakes) w e = rw (e, await)

  -- With any other timeout a call is not given up: it returns `OSA_SOK` at the latest at the first
  -- wake-up that finds the guard true.
  pub await_progress :
      (timeout : ℕ) (before later : List (W → W)) (w : W) {a : A} {w' : W}
      → attempt (wake_all before w) ≡ some (a, w')
      → timeout ≢ timeout_none
      → (b : A) × (v : W) × (rest : List (W → W)) × (await attempt failed timeout
            (before ++ later)
            w
          ≡ returned sok b v rest)
  unfolding await
  await_progress timeout [] later w {a} {w'} e t = (a, w', later, await_now timeout later w e)
  await_progress timeout (wake ∷ wakes) later w e t = elim (Option-cases (attempt w)) [
    | inr (bw, p) ↦ (bw.0, bw.1, wake ∷ (wakes ++ later), rw (p, await))
    | inl p ↦
        let o : (timeout == timeout_none) ≡ false = ground arith in
        rw (p, o, await) (await_progress timeout wakes later (wake w) e t)
  ]

  -- A call that is still waiting was never given up, and its last look found the guard false.
  pub await_waiting :
      (timeout : ℕ) (wakes : List (W → W)) (w : W) {v : W}
      → await attempt failed timeout wakes w ≡ waiting v
      → (timeout ≢ timeout_none) × (v ≡ wake_all wakes w) × (attempt v ≡ none)
  unfolding await
  await_waiting timeout [] w h = elim (Option-cases (attempt w)) [
    | inl e ↦ elim (Bool-cases (timeout == timeout_none)) [
      | inl t ↦ absurd (cc (rw (e, t, await) at h))
      | inr t ↦ let u = rw (e, t, await) at h in ground (arith, u, e)
    ]
    | inr (aw, e) ↦ absurd (cc (rw (e, await) at h))
  ]
  await_waiting timeout (wake ∷ wakes) w h = elim (Option-cases (attempt w)) [
    | inl e ↦ elim (Bool-cases (timeout == timeout_none)) [
      | inl t ↦ absurd (cc (rw (e, t, await) at h))
      | inr t ↦ await_waiting timeout wakes (wake w) (rw (e, t, await) at h)
    ]
    | inr (aw, e) ↦ absurd (cc (rw (e, await) at h))
  ]

  -- A call that waits once and then finds its guard true.
  pub await_second :
      (timeout : ℕ) (wake : W → W) (later : List (W → W)) (w : W) {a : A} {w' : W}
      → timeout ≢ timeout_none
      → attempt w ≡ none
      → attempt (wake w) ≡ some (a, w')
      → await attempt failed timeout (wake ∷ later) w ≡ returned sok a w' later
  unfolding await
  await_second timeout wake later w t p e =
      let o : (timeout == timeout_none) ≡ false = ground arith in
      rw (p, o, await) (await_now timeout later (wake w) e)

  -- With a timeout a call that finds its guard false goes on with what a wake-up leaves.
  pub await_woken :
      (timeout : ℕ) (wake : W → W) (wakes : List (W → W)) (w : W)
      → timeout ≢ timeout_none
      → attempt w ≡ none
      → await attempt failed timeout (wake ∷ wakes) w ≡ await attempt failed timeout wakes (wake w)
  unfolding await
  await_woken timeout wake wakes w t blocked =
      let o : (timeout == timeout_none) ≡ false = ground arith in rw (blocked, o, await)
