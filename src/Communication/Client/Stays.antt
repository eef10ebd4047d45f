-- ===== src/Communication/Client/Stays.antt =====
-- A client that is not to connect again, after its connection has ended.
use osa_base.Base.{
  ℕ, zero, suc, ◌≡◌, refl, sym, ap, ◌∙◌, false, Option, some, List, [], ◌++◌, replicate, ℤ, pos,
  efail, eq_ℤ,
}
use osa_base.Socket.{Sock, bytes, bytes_of}
use osa_base.Communication.{client_connect}
use osa_base.Communication.Message.{head_len, lost, recv_msg}
use osa_base.Communication.Server.Dealing.{closed_attempt}
use osa_base.Communication.Client.{
  Client, Around, in_loop, client_exit, client_attempt, client_step, client_process,
}
use osa_base.Communication.Client.Steps.{Ends, process_cons, loop_step}

module _ {Net : Type 0} (sock : Sock Net) (fuel : ℕ) (mem_alloc : ℤ → Option (List ℕ))
    (recon_flag server_port : ℤ) where
  one_stays :
      (around : Around Net) (c : Client Net) (k fd : ℕ)
      → fuel ≡ suc k
      → eq_ℤ recon_flag (pos 1) ≡ false
      → Ends sock
      → around.destroyed ≡ false
      → c.place ≡ in_loop
      → c.handle.client_status ≡ client_connect
      → c.socket ≡ pos fd
      → sock.incoming c.net ≡ []
      → (net : Net) × (client_step sock fuel mem_alloc recon_flag server_port around c
          ≡ some (record c { net = net }))
        × (sock.incoming net ≡ [])
  unfolding client_attempt client_exit Ends
  one_stays around c k fd f r ends d p s o e =
      let net = (sock.recv head_len c.net).1 in
      let gone : (sock.recv head_len c.net).0 ≡ bytes [] = ends c.net e in
      let q : recv_msg sock fuel mem_alloc (pos fd) c.net ≡ some (lost efail net) =
        ap (λ n. recv_msg sock n mem_alloc (pos fd) c.net) f
        ∙ closed_attempt sock fuel fd mem_alloc k c.net gone in
      let q' = ap (λ s. recv_msg sock fuel mem_alloc s c.net) o ∙ q in
      (
        net,
        loop_step sock fuel mem_alloc recon_flag server_port around c d p s q' ∙ (rw r refl),
        sym (
            sym e
            ∙ sock.recv_incoming head_len c.net
            ∙ ap (λ v. bytes_of v ++ sock.incoming net) gone),
      )

  -- Unless `recon_flag` is 1 a client whose connection has ended stays in its loop for as long as it
  -- is not destroyed: its status stays CLIENT_CONNECT, its handle keeps the socket, nothing is closed
  -- and no callback is made.
  pub client_process-stays :
      (n : ℕ) (around : Around Net) (c : Client Net) (k fd : ℕ)
      → fuel ≡ suc k
      → eq_ℤ recon_flag (pos 1) ≡ false
      → Ends sock
      → around.destroyed ≡ false
      → c.place ≡ in_loop
      → c.handle.client_status ≡ client_connect
      → c.socket ≡ pos fd
      → sock.incoming c.net ≡ []
      → (net : Net) × (client_process sock fuel mem_alloc recon_flag server_port
            (replicate n around)
            c
          ≡ some (record c { net = net }))
        × (sock.incoming net ≡ [])
  client_process-stays zero around c k fd f r ends d p s o e =
      (c.net, unfold client_process in refl, e)
  client_process-stays (suc n) around c k fd f r ends d p s o e =
      let (net, q, i) = one_stays around c k fd f r ends d p s o e in
      let (net', q', i') =
        client_process-stays n around (record c { net = net }) k fd f r ends d p s o i in
      (
        net',
        process_cons sock fuel mem_alloc recon_flag server_port around (replicate n around) c q
            ∙ q',
        i',
      )
