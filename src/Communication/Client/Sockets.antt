-- ===== src/Communication/Client/Sockets.antt =====
-- The sockets of the client's thread: which are open, and which one the senders use.
use osa_base.Base.{
  ℕ, ◌<◌, ◌≡◌, refl, sym, ap, ◌∙◌, Bool, true, false, Option, some, List, [], ◌∷◌, ◌++◌, append-nil,
  subst, inl, inr, Bool-cases, if◌then◌else◌, All, ℤ, pos, negsuc, sok, eq_ℤ, ltb_ℤ, arith,
}
use osa_base.Socket.{Sock}
use osa_base.Socket.Options.{connet_block_fd}
use osa_base.Communication.{client_abor, is_connect}
use osa_base.Communication.Message.{CallbackMsg, Attempt, dealt, bad_head, lost}
use osa_base.Communication.Message.Ends.{recv_msg-ends}
use osa_base.Communication.Client.Steps.{process_cons, round_lem}
use osa_base.Communication.Client.{
  ClientHandle, Place, repeat_connect, in_loop, returned, Client, Around, handle_now,
  set_re_client_socket, set_re_client_status, renew, connect, client_exit, client_attempt,
  client_round, client_leave, client_step, client_process,
}

-- a socket that the thread will close before it makes another
abbrev pub live : ℤ → List ℤ
live s = if ltb_ℤ (pos 0) s then s ∷ [] else []

-- what holds at each place
pub data Holds : Place → ClientHandle → (socket : ℤ) → (made closed : List ℤ) → Type 0 where
  between :
      {h : ClientHandle} {s : ℤ} {made closed : List ℤ}
      → ltb_ℤ h.client_socket (pos 3) ≡ true
      → made ≡ closed ++ live s
      → Holds repeat_connect h s made closed
  on_line :
      {h : ClientHandle} {s : ℤ} {made closed : List ℤ}
      → h.client_socket ≡ s
      → ltb_ℤ s (pos 3) ≡ false
      → made ≡ closed ++ s ∷ []
      → Holds in_loop h s made closed
  done :
      {h : ClientHandle} {s : ℤ} {made closed : List ℤ}
      → ltb_ℤ h.client_socket (pos 3) ≡ true
      → h.client_status ≡ client_abor
      → made ≡ closed
      → Holds returned h s made closed

-- The sockets are in order: outside the loop the handle has none that OSA_client_sendMsg uses; in the
-- loop it has the one that the thread reads; and all that were made but this one, or the last one
-- made, are closed, once each, in the order in which they were made.
abbrev pub InOrder : {Net : Type 0} → Client Net → Type 0
InOrder c = Holds c.place c.handle c.socket c.made c.closed

module _ {Net : Type 0} (sock : Sock Net) (fuel : ℕ) (mem_alloc : ℤ → Option (List ℕ))
    (server_port : ℤ) where
  live_lem : {s : ℤ} → ltb_ℤ s (pos 3) ≡ false → live s ≡ s ∷ []
  live_lem {s} e = ground arith

  closed_live :
      (xs : List ℤ) (s : ℤ) → (if ltb_ℤ (pos 0) s then xs ++ s ∷ [] else xs) ≡ xs ++ live s
  closed_live xs s = elim (Bool-cases (ltb_ℤ (pos 0) s)) [
    | inl held ↦ rw held
    | inr free ↦ rw free (sym (append-nil xs))
  ]

  made_live :
      (xs : List ℤ) (s : ℤ)
      → eq_ℤ s (pos 0) ≡ false
      → (if ltb_ℤ s (pos 0) then xs else xs ++ s ∷ []) ≡ xs ++ live s
  made_live xs (pos n) nonzero =
      let t : ltb_ℤ (pos 0) (pos n) ≡ true = ground arith in
      let f : ltb_ℤ (pos n) (pos 0) ≡ false = ground arith in rw (t, f)
  made_live xs (negsuc n) nonzero = sym (append-nil xs)

  renewed :
      (around : Around Net) (c : Client Net)
      → eq_ℤ around.socket (pos 0) ≡ false
      → c.made ≡ c.closed ++ live c.socket
      → (renew around c).made ≡ (renew around c).closed ++ live around.socket
  unfolding renew
  renewed around c nonzero e =
      made_live c.made around.socket nonzero
      ∙ ap (λ l. l ++ live around.socket) (e ∙ sym (closed_live c.closed c.socket))

  connect-InOrder :
      (connected : ℤ) (c : Client Net)
      → c.place ≡ repeat_connect
      → ltb_ℤ c.handle.client_socket (pos 3) ≡ true
      → c.made ≡ c.closed ++ live c.socket
      → InOrder (connect (pos 1) server_port connected c)
  unfolding connect set_re_client_socket set_re_client_status
  connect-InOrder connected c p u e =
      let stay : InOrder c =
        subst (λ l. Holds l c.handle c.socket c.made c.closed) (sym p) (between u e) in
      elim (Bool-cases (ltb_ℤ c.socket (pos 3))) [
        | inl low ↦ rw low stay
        | inr high ↦ elim (Bool-cases (eq_ℤ (connet_block_fd c.socket server_port connected) sok)) [
          | inl good ↦
              rw (high, good) (on_line refl high (e ∙ ap (λ l. c.closed ++ l) (live_lem high)))
          | inr bad ↦ rw (high, bad) stay
        ]
      ]

  attempt-InOrder :
      (a : Attempt Net) (c : Client Net)
      → c.place ≡ in_loop
      → c.handle.client_socket ≡ c.socket
      → ltb_ℤ c.socket (pos 3) ≡ false
      → c.made ≡ c.closed ++ c.socket ∷ []
      → InOrder (client_attempt (pos 1) a c)
  unfolding client_attempt client_exit set_re_client_socket
  attempt-InOrder (dealt m net) c p u h e =
      subst (λ l. Holds l c.handle c.socket c.made c.closed) (sym p) (on_line u h e)
  attempt-InOrder (bad_head net) c p u h e =
      subst (λ l. Holds l c.handle c.socket c.made c.closed) (sym p) (on_line u h e)
  attempt-InOrder (lost ret net) c p u h e = elim (Bool-cases (eq_ℤ ret (pos 0))) [
    | inl good ↦
        rw good (subst (λ l. Holds l c.handle c.socket c.made c.closed) (sym p) (on_line u h e))
    | inr bad ↦ rw bad (between refl (e ∙ ap (λ l. c.closed ++ l) (sym (live_lem h))))
  ]

  round-InOrder :
      (c : Client Net)
      → 2147483650 < fuel
      → c.place ≡ in_loop
      → c.handle.client_socket ≡ c.socket
      → ltb_ℤ c.socket (pos 3) ≡ false
      → c.made ≡ c.closed ++ c.socket ∷ []
      → (c' : Client Net) × (client_round sock fuel mem_alloc (pos 1) server_port c ≡ some c')
        × InOrder c'
  round-InOrder c enough p u h e =
      let (a, q) = recv_msg-ends sock fuel mem_alloc c.socket c.net enough in
      (
        client_attempt (pos 1) a c,
        round_lem sock fuel mem_alloc (pos 1) server_port c q,
        attempt-InOrder a c p u h e,
      )

  now_socket :
      (destroyed : Bool) (h : ClientHandle)
      → (handle_now destroyed h).client_socket ≡ h.client_socket
  unfolding handle_now set_re_client_status
  now_socket true h = refl
  now_socket false h = refl

  leave-InOrder : (c : Client Net) → c.made ≡ c.closed ++ c.socket ∷ [] → InOrder (client_leave c)
  unfolding client_leave set_re_client_status set_re_client_socket
  leave-InOrder c e = done refl refl e

  abbrev client_at :
      Place → ClientHandle → ℤ → Net → (made closed : List ℤ) → List CallbackMsg → Client Net
  client_at p h s net made closed calls = record {
    place = p;
    handle = h;
    socket = s;
    net = net;
    made = made;
    closed = closed;
    calls = calls;
  }

  step-InOrder :
      (around : Around Net) (p : Place) (h : ClientHandle) (s : ℤ) (net : Net)
      (made closed : List ℤ) (calls : List CallbackMsg)
      → 2147483650 < fuel
      → eq_ℤ around.socket (pos 0) ≡ false
      → Holds p h s made closed
      → (c' : Client Net) × (client_step sock fuel mem_alloc
            (pos 1)
            server_port
            around
            (client_at p h s net made closed calls)
          ≡ some c')
        × InOrder c'
  unfolding client_step renew
  step-InOrder around repeat_connect h s net made closed calls enough nonzero (between u e) =
      let c = client_at repeat_connect h s net made closed calls in
      (
        connect (pos 1) server_port around.connected (renew around c),
        refl,
        connect-InOrder around.connected (renew around c) refl refl (renewed around c nonzero e),
      )
  step-InOrder around in_loop h s net made closed calls enough nonzero (on_line u l e) =
      let h' = handle_now around.destroyed h in
      let c = client_at in_loop h' s net made closed calls in
      elim (Bool-cases (is_connect h'.client_status)) [
        | inl more ↦
            let (c', q, i) = round-InOrder c enough refl (now_socket around.destroyed h ∙ u) l e in
            (c', rw more q, i)
        | inr stop ↦ (client_leave c, rw stop, leave-InOrder c e)
      ]
  step-InOrder around returned h s net made closed calls enough nonzero (done u a e) =
      (client_at returned h s net made closed calls, refl, done u a e)

  -- With `recon_flag` 1, and none of the sockets that the system makes being 0, every step of the
  -- client's thread ends and keeps its sockets in order, whatever the system answers, the servers
  -- send, and whenever the client is destroyed.
  pub client_process-InOrder :
      (arounds : List (Around Net)) (c : Client Net)
      → 2147483650 < fuel
      → All (λ a. eq_ℤ a.socket (pos 0) ≡ false) arounds
      → InOrder c
      → (c' : Client Net) × (client_process sock fuel mem_alloc (pos 1) server_port arounds c
          ≡ some c')
        × InOrder c'
  client_process-InOrder [] c enough nonzero i = (c, unfold client_process in refl, i)
  client_process-InOrder (a ∷ rest) c enough (n, ns) i =
      let (c₁, e₁, i₁) =
        step-InOrder a c.place c.handle c.socket c.net c.made c.closed c.calls enough n i in
      let (c₂, e₂, i₂) = client_process-InOrder rest c₁ enough ns i₁ in
      (c₂, process_cons sock fuel mem_alloc (pos 1) server_port a rest c e₁ ∙ e₂, i₂)
