-- ===== src/Que/Waiting.antt =====
-- OSA_quePut and OSA_queGet with the other threads running while they wait.
use osa_base.Base.{
  ℕ, ◌<◌, ◌≤◌, ◌≡◌, ◌≢◌, refl, sym, ap, ◌∙◌, Bool, true, Option, none, some, List, [], ◌∷◌, ◌++◌,
  All, if◌then◌else◌, get_elem?, ℤ, sok, efail,
}
use osa_base.Monitor.{returned, timeout_none}
use osa_base.Monitor.Laws.{
  await_woken, state, wake_all, Keeps, await_inv, await-sok, await_now, await_gives_up,
  await_progress,
}
use osa_base.Place.{Place, attempt_at, put_back, put_back-some}
use osa_base.Ring.{put_cell, drop_cell, attempt_put, attempt_get}
use osa_base.Ring.Invariant.{
  IsValid, attempt_put-some, attempt_get-some, attempt_put-IsValid, attempt_get-IsValid,
  attempt_put_room, attempt_put_full, attempt_get_value, attempt_get_empty,
}
use osa_base.Ring.Fifo.{contents, contents-put_cell, contents-drop_cell}
use osa_base.Que.{QueHndl, put, get}

module _ {ℓ} {W : Type ℓ} (hndl : Place W QueHndl) where
  -- the queue at its place is valid
  abbrev pub ValidAt : W → Type 0
  ValidAt w = IsValid (hndl.read w)

  pub put-ValidAt :
      (x : ℤ) (timeout : ℕ) (wakes : List (W → W)) {w : W}
      → All (Keeps ValidAt) wakes
      → ValidAt w
      → ValidAt (state (put hndl x timeout wakes w))
  unfolding put
  put-ValidAt x timeout wakes {w} ok v =
      await_inv (attempt_at hndl (attempt_put x)) tt ValidAt
        (λ w a w' p e.
          let (r, q, s) = put_back-some hndl w (attempt_put x (hndl.read w)) e in
          rw (s, hndl.read-write) (attempt_put-IsValid x p q))
        timeout wakes w ok v

  pub get-ValidAt :
      (wanted : Bool) (timeout : ℕ) (wakes : List (W → W)) {w : W}
      → All (Keeps ValidAt) wakes
      → ValidAt w
      → ValidAt (state (get hndl wanted timeout wakes w))
  unfolding get
  get-ValidAt wanted timeout wakes {w} ok v =
      await_inv (attempt_at hndl (attempt_get wanted)) none ValidAt
        (λ w a w' p e.
          let (r, q, s) = put_back-some hndl w (attempt_get wanted (hndl.read w)) e in
          rw (s, hndl.read-write) (attempt_get-IsValid wanted p q))
        timeout wakes w ok v

  -- A put that returns `OSA_SOK` found, when the lock was its own, a valid queue with room, and
  -- left it longer by the value.
  pub put_atomic :
      (x : ℤ) (timeout : ℕ) (wakes : List (W → W)) {w w' : W} {rest : List (W → W)}
      → All (Keeps ValidAt) wakes
      → ValidAt w
      → put hndl x timeout wakes w ≡ returned sok tt w' rest
      → (v : W) × ValidAt v
        × ((hndl.read v).count < (hndl.read v).len)
        × (w' ≡ hndl.write v (put_cell x (hndl.read v)))
        × (contents (hndl.read w') ≡ contents (hndl.read v) ++ x ∷ [])
  unfolding put
  put_atomic x timeout wakes {w} ok p h =
      let (v, valid, e) =
        await-sok (attempt_at hndl (attempt_put x)) tt ValidAt timeout wakes w ok p h in
      let (r, q, s) = put_back-some hndl v (attempt_put x (hndl.read v)) e in
      let (room, t) = attempt_put-some x (hndl.read v) q in
      (
        v,
        valid,
        room,
        s ∙ ap (hndl.write v) t,
        ap (λ z. contents (hndl.read z)) (s ∙ ap (hndl.write v) t)
            ∙ ap contents (hndl.read-write v (put_cell x (hndl.read v)))
            ∙ contents-put_cell x valid room,
      )

  -- A get that returns `OSA_SOK` took the oldest value of a valid queue, and that value is what it
  -- stored.
  pub get_atomic :
      (timeout : ℕ) (wakes : List (W → W)) {w w' : W} {out : Option ℤ} {rest : List (W → W)}
      → All (Keeps ValidAt) wakes
      → ValidAt w
      → get hndl true timeout wakes w ≡ returned sok out w' rest
      → (v : W) × (x : ℤ) × ValidAt v
        × (out ≡ some x)
        × (w' ≡ hndl.write v (drop_cell (hndl.read v)))
        × (contents (hndl.read v) ≡ x ∷ contents (hndl.read w'))
  unfolding get
  get_atomic timeout wakes {w} ok p h =
      let (v, valid, e) =
        await-sok (attempt_at hndl (attempt_get true)) none ValidAt timeout wakes w ok p h in
      let (r, q, s) = put_back-some hndl v (attempt_get true (hndl.read v)) e in
      let (full, got, t) = attempt_get-some true (hndl.read v) q in
      let (x, is, c) = contents-drop_cell valid full in
      (
        v,
        x,
        valid,
        got ∙ is,
        s ∙ ap (hndl.write v) t,
        c
            ∙ ap (λ z. x ∷ contents z) (sym (hndl.read-write v (drop_cell (hndl.read v))))
            ∙ ap (λ z. x ∷ contents (hndl.read z)) (sym (s ∙ ap (hndl.write v) t)),
      )

  -- A put with any timeout but `OSA_TIMEOUT_NONE` returns `OSA_SOK` once a wake-up finds room.
  pub put_progress :
      (x : ℤ) (timeout : ℕ) (before later : List (W → W)) (w : W)
      → timeout ≢ timeout_none
      → (hndl.read (wake_all before w)).count < (hndl.read (wake_all before w)).len
      → (w' : W) × (rest : List (W → W)) × (put hndl x timeout (before ++ later) w
          ≡ returned sok tt w' rest)
  unfolding put
  put_progress x timeout before later w t room =
      let r = hndl.read (wake_all before w) in
      let (b, w', rest, q) =
        await_progress (attempt_at hndl (attempt_put x)) tt timeout before later w
          (ap (put_back hndl (wake_all before w)) (attempt_put_room x r room)) t in
      (w', rest, q)

  -- A get with any timeout but `OSA_TIMEOUT_NONE` returns `OSA_SOK` once a wake-up finds a value.
  pub get_progress :
      (wanted : Bool) (timeout : ℕ) (before later : List (W → W)) (w : W)
      → timeout ≢ timeout_none
      → 0 < (hndl.read (wake_all before w)).count
      → (out : Option ℤ) × (w' : W) × (rest : List (W → W)) × (get hndl wanted timeout
            (before ++ later)
            w
          ≡ returned sok out w' rest)
  unfolding get
  get_progress wanted timeout before later w t full =
      let r = hndl.read (wake_all before w) in
      await_progress (attempt_at hndl (attempt_get wanted)) none timeout before later w
        (ap (put_back hndl (wake_all before w)) (attempt_get_value wanted r full)) t

  -- Where the guard holds at once, a call takes no wake-up; where it fails and the timeout is
  -- `OSA_TIMEOUT_NONE`, nothing changes.
  pub put_now :
      (x : ℤ) (timeout : ℕ) (wakes : List (W → W)) (w : W)
      → (hndl.read w).count < (hndl.read w).len
      → put hndl x timeout wakes w ≡ returned sok tt (hndl.write w (put_cell x (hndl.read w))) wakes
  unfolding put
  put_now x timeout wakes w room =
      await_now (attempt_at hndl (attempt_put x)) tt timeout wakes w
        (ap (put_back hndl w) (attempt_put_room x _ room))

  pub put_full :
      (x : ℤ) (wakes : List (W → W)) (w : W)
      → (hndl.read w).len ≤ (hndl.read w).count
      → put hndl x timeout_none wakes w ≡ returned efail tt w wakes
  unfolding put
  put_full x wakes w full =
      await_gives_up (attempt_at hndl (attempt_put x)) tt wakes w
        (ap (put_back hndl w) (attempt_put_full x _ full))

  pub get_now :
      (wanted : Bool) (timeout : ℕ) (wakes : List (W → W)) (w : W)
      → 0 < (hndl.read w).count
      → get hndl wanted timeout wakes w
        ≡ returned sok
            (if wanted then get_elem? (hndl.read w).queue (hndl.read w).cur_rd else none)
            (hndl.write w (drop_cell (hndl.read w)))
            wakes
  unfolding get
  get_now wanted timeout wakes w full =
      await_now (attempt_at hndl (attempt_get wanted)) none timeout wakes w
        (ap (put_back hndl w) (attempt_get_value wanted _ full))

  pub get_empty :
      (wanted : Bool) (wakes : List (W → W)) (w : W)
      → (hndl.read w).count ≡ 0
      → get hndl wanted timeout_none wakes w ≡ returned efail none w wakes
  unfolding get
  get_empty wanted wakes w empty =
      await_gives_up (attempt_at hndl (attempt_get wanted)) none wakes w
        (ap (put_back hndl w) (attempt_get_empty wanted _ empty))

  -- A get that finds the queue empty goes on with what its first wake-up leaves.
  pub get_woken :
      (wanted : Bool) (timeout : ℕ) (wake : W → W) (wakes : List (W → W)) (w : W)
      → timeout ≢ timeout_none
      → (hndl.read w).count ≡ 0
      → get hndl wanted timeout (wake ∷ wakes) w ≡ get hndl wanted timeout wakes (wake w)
  unfolding get
  get_woken wanted timeout wake wakes w t empty =
      await_woken (attempt_at hndl (attempt_get wanted)) none timeout wake wakes w t
        (ap (put_back hndl w) (attempt_get_empty wanted _ empty))

  -- A call that no other thread disturbs returns `OSA_SOK` only if its guard holds at once.
  pub put_alone :
      (x : ℤ) (timeout : ℕ) {w w' : W} {u : Unit {0}} {rest : List (W → W)}
      → put hndl x timeout [] w ≡ returned sok u w' rest
      → ((hndl.read w).count < (hndl.read w).len) × (w' ≡ hndl.write w (put_cell x (hndl.read w)))
  unfolding put
  put_alone x timeout {w} h =
      let (v, same, e) =
        await-sok (attempt_at hndl (attempt_put x)) tt (λ v. v ≡ w) timeout [] w tt refl h in
      let (r, q, s) =
        put_back-some hndl w (attempt_put x (hndl.read w))
          (ap (attempt_at hndl (attempt_put x)) (sym same) ∙ e) in
      let (room, t) = attempt_put-some x (hndl.read w) q in (room, s ∙ ap (hndl.write w) t)

  pub get_alone :
      (timeout : ℕ) {w w' : W} {out : Option ℤ} {rest : List (W → W)}
      → get hndl true timeout [] w ≡ returned sok out w' rest
      → (0 < (hndl.read w).count)
        × (out ≡ get_elem? (hndl.read w).queue (hndl.read w).cur_rd)
        × (w' ≡ hndl.write w (drop_cell (hndl.read w)))
  unfolding get
  get_alone timeout {w} h =
      let (v, same, e) =
        await-sok (attempt_at hndl (attempt_get true)) none (λ v. v ≡ w) timeout [] w tt refl h in
      let (r, q, s) =
        put_back-some hndl w (attempt_get true (hndl.read w))
          (ap (attempt_at hndl (attempt_get true)) (sym same) ∙ e) in
      let (full, out, t) = attempt_get-some true (hndl.read w) q in
      (full, out, s ∙ ap (hndl.write w) t)
