-- ===== src/Communication/Client/Destroyed.antt =====
-- A client that OSA_client_destory finds while it connects (communication/osa_communication.c).
use osa_base.Base.{
  ℕ, ◌<◌, ◌≡◌, refl, sym, ap, ◌∙◌, subst, false, not, ◌&&◌, Option, none, some, List, [], ◌∷◌, inl,
  inr, Bool-cases, All, ℤ, pos, sok, eq_ℤ, ltb_ℤ,
}
use osa_base.Socket.{Sock}
use osa_base.Socket.Options.{connet_block_fd}
use osa_base.Communication.{ClientStatus, client_connect, client_disconnect, client_abor}
use osa_base.Communication.Life.{is_client_abor, await_client_abor, client_destory}
use osa_base.Communication.Message.{Attempt, dealt, bad_head, lost}
use osa_base.Communication.Message.Ends.{recv_msg-ends}
use osa_base.Communication.Client.Steps.{loop_step}
use osa_base.Communication.Client.{
  Place, repeat_connect, in_loop, returned, Client, Around, set_re_client_socket,
  set_re_client_status, renew, connect, client_exit, client_attempt, client_step,
}

-- The thread has not ended: it connects, or it is in its loop and has set its status.
pub data Alive : Place → ClientStatus → Type 0 where
  connecting : {s : ClientStatus} → is_client_abor s ≡ false → Alive repeat_connect s
  connected : Alive in_loop client_connect

abbrev pub IsAlive : {Net : Type 0} → Client Net → Type 0
IsAlive c = Alive c.place c.handle.client_status

stays :
    {Net : Type 0} (c : Client Net)
    → c.place ≡ in_loop
    → c.handle.client_status ≡ client_connect
    → IsAlive c
stays c p s =
    subst (λ l. Alive l c.handle.client_status) (sym p)
      (subst (λ t. Alive in_loop t) (sym s) connected)

module _ {Net : Type 0} (sock : Sock Net) (fuel : ℕ) (mem_alloc : ℤ → Option (List ℕ))
    (recon_flag server_port : ℤ) where
  attempt-IsAlive :
      (a : Attempt Net) (c : Client Net)
      → c.place ≡ in_loop
      → c.handle.client_status ≡ client_connect
      → IsAlive (client_attempt recon_flag a c)
  unfolding client_attempt client_exit set_re_client_socket
  attempt-IsAlive (dealt m net) c p s = stays c p s
  attempt-IsAlive (bad_head net) c p s = stays c p s
  attempt-IsAlive (lost ret net) c p s =
      elim (Bool-cases (not (eq_ℤ ret (pos 0)) && eq_ℤ recon_flag (pos 1))) [
        | inl again ↦ rw again (connecting (ap is_client_abor s))
        | inr keeps ↦ rw keeps (stays c p s)
      ]

  connect-IsAlive :
      (connected : ℤ) (c : Client Net)
      → IsAlive c
      → IsAlive (connect recon_flag server_port connected c)
  unfolding connect set_re_client_socket set_re_client_status
  connect-IsAlive up c alive =
      elim (Bool-cases (ltb_ℤ c.socket (pos 3) && eq_ℤ recon_flag (pos 1))) [
        | inl low ↦ rw low alive
        | inr high ↦
            elim (Bool-cases (
              not (eq_ℤ (connet_block_fd c.socket server_port up) sok)
              && eq_ℤ recon_flag (pos 1))) [
                | inl bad ↦ rw (high, bad) alive
                | inr good ↦ rw (high, good) connected
              ]
      ]

  Step-IsAlive :
      (around : Around Net) (c : Client Net)
      → 2147483650 < fuel
      → around.destroyed ≡ false
      → (p : Place) (s : ClientStatus) → c.place ≡ p
      → c.handle.client_status ≡ s
      → Alive p s
      → (c' : Client Net) × (client_step sock fuel mem_alloc recon_flag server_port around c
          ≡ some c')
        × IsAlive c'
  unfolding client_step renew
  Step-IsAlive around c enough live returned s p q alive = elim alive [ ]
  Step-IsAlive around c enough live in_loop client_disconnect p q alive = elim alive [ ]
  Step-IsAlive around c enough live in_loop client_abor p q alive = elim alive [ ]
  Step-IsAlive around c enough live repeat_connect s p q (connecting a) =
      let d = record c { place = repeat_connect } in
      let step = client_step sock fuel mem_alloc recon_flag server_port around in
      let same : c ≡ d = ap (λ l. record c { place = l }) p in
      (
        connect recon_flag server_port around.connected (renew around d),
        ap step same,
        connect-IsAlive around.connected (renew around d) (connecting (ap is_client_abor q ∙ a)),
      )
  Step-IsAlive around c enough live in_loop client_connect p q connected =
      let (a, e) = recv_msg-ends sock fuel mem_alloc c.socket c.net enough in
      (
        client_attempt recon_flag a c,
        loop_step sock fuel mem_alloc recon_flag server_port around c live p q e,
        attempt-IsAlive a c p q,
      )

  -- the statuses that OSA_client_destory can find while the thread makes its steps
  unfoldable pub observed : List (Around Net) → Client Net → List ClientStatus
  observed [] c = c.handle.client_status ∷ []
  observed (around ∷ rest) c =
      c.handle.client_status
      ∷ elim (client_step sock fuel mem_alloc recon_flag server_port around c) [
        | none ↦ []
        | some c' ↦ observed rest c'
      ]

  Alive-status : {p : Place} {s : ClientStatus} → Alive p s → is_client_abor s ≡ false
  Alive-status (connecting a) = a
  Alive-status connected = refl

  never_abor :
      (arounds : List (Around Net)) (c : Client Net)
      → 2147483650 < fuel
      → All (λ a. a.destroyed ≡ false) arounds
      → IsAlive c
      → await_client_abor (observed arounds c) ≡ false
  unfolding observed await_client_abor
  never_abor [] c enough live alive = rw (Alive-status alive) refl
  never_abor (a ∷ rest) c enough (l, ls) alive =
      let (c', e, alive') =
        Step-IsAlive a c enough l c.place c.handle.client_status refl refl alive in
      rw (Alive-status alive, e) (never_abor rest c' enough ls alive')

  -- A client that OSA_client_destory finds while its thread connects is never destroyed: the status
  -- that it sets is overwritten or not read, and whatever the system then answers and the servers send
  -- no status is CLIENT_ABOR, for which it waits.
  pub destroy_lost :
      (arounds : List (Around Net)) (c : Client Net)
      → 2147483650 < fuel
      → All (λ a. a.destroyed ≡ false) arounds
      → c.place ≡ repeat_connect
      → c.handle.client_status ≡ client_disconnect
      → client_destory false (observed arounds c) ≡ none
  unfolding client_destory
  destroy_lost arounds c enough live p s =
      let alive : IsAlive c =
        subst (λ l. Alive l c.handle.client_status) (sym p) (connecting (ap is_client_abor s)) in
      rw (never_abor arounds c enough live alive)
