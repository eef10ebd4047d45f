-- ===== src/Communication/Client/Steps.antt =====
-- The steps of the client's thread in a known state.
use osa_base.Base.{ℕ, ◌≡◌, sym, ap, ◌∙◌, true, false, Option, some, List, [], ◌∷◌, ℤ}
use osa_base.Socket.{Sock, bytes}
use osa_base.Communication.{client_connect, is_connect}
use osa_base.Communication.Message.{head_len, Attempt, recv_msg}
use osa_base.Communication.Client.{
  Client, Around, in_loop, handle_now, client_attempt, client_round, client_step, client_process,
}

-- A read on a connection whose bytes have all been read finds its end.
unfoldable pub Ends : {Net : Type 0} → Sock Net → Type 0
Ends {Net} sock = (net : Net) → sock.incoming net ≡ [] → (sock.recv head_len net).0 ≡ bytes []

module _ {Net : Type 0} (sock : Sock Net) (fuel : ℕ) (mem_alloc : ℤ → Option (List ℕ))
    (recon_flag server_port : ℤ) where
  pub process_cons :
      (around : Around Net) (rest : List (Around Net)) (c : Client Net) {c' : Client Net}
      → client_step sock fuel mem_alloc recon_flag server_port around c ≡ some c'
      → client_process sock fuel mem_alloc recon_flag server_port (around ∷ rest) c
        ≡ client_process sock fuel mem_alloc recon_flag server_port rest c'
  unfolding client_process
  process_cons around rest c e = rw (client_process, e)

  pub round_lem :
      (c : Client Net) {a : Attempt Net}
      → recv_msg sock fuel mem_alloc c.socket c.net ≡ some a
      → client_round sock fuel mem_alloc recon_flag server_port c
        ≡ some (client_attempt recon_flag a c)
  unfolding client_round
  round_lem c q = rw (client_round, q)

  pub loop_step :
      (around : Around Net) (c : Client Net) {a : Attempt Net}
      → around.destroyed ≡ false
      → c.place ≡ in_loop
      → c.handle.client_status ≡ client_connect
      → recv_msg sock fuel mem_alloc c.socket c.net ≡ some a
      → client_step sock fuel mem_alloc recon_flag server_port around c
        ≡ some (client_attempt recon_flag a c)
  unfolding client_step handle_now
  loop_step around c {a} live p s q =
      let d = record c { place = in_loop } in
      let same : c ≡ d = ap (λ p. record c { place = p }) p in
      let t : is_connect c.handle.client_status ≡ true = ap is_connect s in
      let step = client_step sock fuel mem_alloc recon_flag server_port around in
      let looped : step d ≡ some (client_attempt recon_flag a d) =
        rw (client_step, live, t) (round_lem d q) in
      ap step same ∙ looped ∙ ap (λ e. some (client_attempt recon_flag a e)) (sym same)
