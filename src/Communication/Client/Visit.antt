-- ===== src/Communication/Client/Visit.antt =====
-- Visits of a client to its servers: the steps that lead to one, and those on the connection.
use osa_base.Base.{
  ℕ, suc, ◌≤◌, ◌≡◌, refl, ap, ◌∙◌, true, false, Option, some, List, [], ◌∷◌, ◌++◌, ◌⊎◌, inl, inr,
  Bool-cases, length, replicate, All, ℤ, pos, negsuc, sok, efail, ltb_ℤ, arith,
}
use osa_base.Socket.{Sock, bytes}
use osa_base.Socket.Options.{connet_block_fd}
use osa_base.Socket.Receive.{Prompt}
use osa_base.Communication.{client_connect}
use osa_base.Communication.Message.{head_len, head_for, CallbackMsg, lost, recv_msg}
use osa_base.Communication.Head.{init_msg_head}
use osa_base.Communication.Message.Exchange.{wire, take_whole, recv_msg-wire}
use osa_base.Communication.Server.Dealing.{
  Message, Fits, text, wires, reads, meant, reads-append, closed_attempt,
}
use osa_base.Communication.Client.Steps.{process_cons, loop_step}
use osa_base.Communication.Client.{
  Place, repeat_connect, in_loop, Client, Around, set_re_client_socket, set_re_client_status, renew,
  connect, client_exit, client_attempt, client_step, client_process,
}

-- A try to connect fails: the socket is none that the thread takes, or connect returns an error.
unfoldable pub Fails : {Net : Type 0} → Around Net → Type 0
Fails around = (ltb_ℤ around.socket (pos 3) ≡ true) ⊎ (ltb_ℤ around.connected (pos 0) ≡ true)

-- Some tries to connect that fail, and then one that succeeds, on a connection that brings the
-- messages `ms` and then ends.
pub record Visit (Net : Type 0) : Type 0 where
  pub failures : List (Around Net)
  pub fd : ℕ
  pub net : Net
  pub ms : List Message

abbrev pub reached : {Net : Type 0} → Visit Net → Around Net
reached v = record { socket = pos v.fd; connected = pos 0; net = v.net; destroyed = false }

-- a step for each try, for each message, and for the end of the connection
abbrev pub steps_of : {Net : Type 0} → Visit Net → List (Around Net)
steps_of v = v.failures ++ replicate (suc (suc (length v.ms))) (reached v)

abbrev pub all_steps : {Net : Type 0} → List (Visit Net) → List (Around Net)
all_steps [] = []
all_steps (v ∷ vs) = steps_of v ++ all_steps vs

abbrev pub all_meant : {Net : Type 0} → List (Visit Net) → List (ℤ × List ℕ)
all_meant [] = []
all_meant (v ∷ vs) = meant v.ms ++ all_meant vs

module _ {Net : Type 0} (sock : Sock Net) (fuel : ℕ) (mem_alloc : ℤ → Option (List ℕ))
    (server_port : ℕ) where
  abbrev pub run : List (Around Net) → Client Net → Option (Client Net)
  run = client_process sock fuel mem_alloc (pos 1) (pos (suc server_port))

  -- what is asked of a visit
  pub record Works (v : Visit Net) : Type 0 where
    pub fail : All Fails v.failures
    pub usable : 3 ≤ v.fd
    pub fits : All (Fits fuel mem_alloc) v.ms
    pub brings : sock.incoming v.net ≡ wires v.ms []

  -- the thread at REPEAT_CONNECT, or in its loop on a connection
  abbrev pub At : Place → List CallbackMsg → Client Net → Type 0
  At place calls c = (c.place ≡ place) × (c.calls ≡ calls)

  connet_fails :
      (fd port connected : ℤ)
      → ltb_ℤ connected (pos 0) ≡ true
      → connet_block_fd fd port connected ≡ efail
  unfolding connet_block_fd
  connet_fails fd port connected e = ground arith

  connet_works : (fd port : ℕ) → connet_block_fd (pos fd) (pos (suc port)) (pos 0) ≡ sok
  unfolding connet_block_fd
  connet_works fd port = ground arith

  tried :
      (around : Around Net) (c : Client Net)
      → Fails around
      → c.place ≡ repeat_connect
      → (c' : Client Net) × (client_step sock fuel mem_alloc
            (pos 1)
            (pos (suc server_port))
            around
            c
          ≡ some c')
        × At repeat_connect c.calls c'
  unfolding client_step connect renew Fails
  tried around c (inl e) p = (renew around c, rw (p, e), (p, refl))
  tried around c (inr e) p = elim (Bool-cases (ltb_ℤ around.socket (pos 3))) [
    | inl low ↦ (renew around c, rw (p, low), (p, refl))
    | inr high ↦ (
      renew around c,
      rw (p, high, connet_fails around.socket (pos (suc server_port)) around.connected e),
      (p, refl),
    )
  ]

  pub skip_failures :
      (failures rest : List (Around Net)) (c : Client Net)
      → All Fails failures
      → c.place ≡ repeat_connect
      → (c' : Client Net) × (run (failures ++ rest) c ≡ run rest c') × At repeat_connect c.calls c'
  skip_failures [] rest c f p = (c, refl, (p, refl))
  skip_failures (a ∷ others) rest c (f, fs) p =
      let (c₁, e₁, (p₁, q₁)) = tried a c f p in
      let (c₂, e₂, (p₂, q₂)) = skip_failures others rest c₁ fs p₁ in
      (
        c₂,
        process_cons sock fuel mem_alloc (pos 1) (pos (suc server_port)) a (others ++ rest) c e₁
            ∙ e₂,
        (p₂, q₂ ∙ q₁),
      )

  -- the thread in its loop, with `more` to come on its connection
  pub record On (v : Visit Net) (more : List ℕ) (c : Client Net) : Type 0 where
    pub place : c.place ≡ in_loop
    pub status : c.handle.client_status ≡ client_connect
    pub socket : c.socket ≡ pos v.fd
    pub coming : sock.incoming c.net ≡ more

  abbrev pub step : Visit Net → Client Net → Option (Client Net)
  step v = client_step sock fuel mem_alloc (pos 1) (pos (suc server_port)) (reached v)

  pub one_reaches :
      (v : Visit Net) (c : Client Net)
      → Works v
      → c.place ≡ repeat_connect
      → (c' : Client Net) × (step v c ≡ some c') × On v (wires v.ms []) c' × (c'.calls ≡ c.calls)
  unfolding client_step connect renew set_re_client_socket set_re_client_status
  one_reaches v c w p =
      let u : 3 ≤ v.fd = w.usable in
      let low : ltb_ℤ (pos v.fd) (pos 3) ≡ false = ground arith in
      let c' = renew (reached v) c in
      (
        record c' {
          place = in_loop;
          handle = record { client_socket = pos v.fd; client_status = client_connect };
        },
        rw (p, low, connet_works v.fd server_port) refl,
        record { place = refl; status = refl; socket = refl; coming = w.brings },
        refl,
      )

  pub one_deals :
      (v : Visit Net) (m : Message) (more : List ℕ) (c : Client Net)
      → Prompt sock
      → Fits fuel mem_alloc m
      → On v (wire (length m.rest) m.code (text m) ++ more) c
      → (c' : Client Net) × (step v c ≡ some c')
        × On v more c'
        × (reads c'.calls ≡ reads c.calls ++ (m.code, text m) ∷ [])
  unfolding client_attempt client_exit init_msg_head
  one_deals v m more c prompt f on =
      let (buf, net', q, t, i) =
        recv_msg-wire sock fuel v.fd (length m.rest) m.code (text m) c.net mem_alloc f.block more
          prompt (omega arith) f.int f.code_in f.alloc f.room f.rounds on.coming in
      let msg : CallbackMsg = record {
        msg_head = head_for (pos (suc (length m.rest))) m.code;
        recv_value = buf;
      } in
      (
        record c { net = net'; calls = c.calls ++ msg ∷ [] },
        loop_step sock fuel mem_alloc (pos 1) (pos (suc server_port)) (reached v) c refl on.place
            on.status (ap (λ s. recv_msg sock fuel mem_alloc s c.net) on.socket ∙ q),
        record { place = on.place; status = on.status; socket = on.socket; coming = i },
        reads-append c.calls (msg ∷ [])
            ∙ ap (λ b. reads c.calls ++ (m.code, b) ∷ []) (t ∙ take_whole (text m) refl),
      )

  pub one_loses :
      (v : Visit Net) (k : ℕ) (c : Client Net)
      → fuel ≡ suc k
      → (sock.recv head_len c.net).0 ≡ bytes []
      → On v [] c
      → (c' : Client Net) × (step v c ≡ some c')
        × (c'.place ≡ repeat_connect)
        × (c'.calls ≡ c.calls)
  unfolding client_attempt client_exit set_re_client_socket
  one_loses v k c f e on =
      let net = (sock.recv head_len c.net).1 in
      let q : recv_msg sock fuel mem_alloc (pos v.fd) c.net ≡ some (lost efail net) =
        ap (λ n. recv_msg sock n mem_alloc (pos v.fd) c.net) f
        ∙ closed_attempt sock fuel v.fd mem_alloc k c.net e in
      (
        record c {
          place = repeat_connect;
          handle = record c.handle { client_socket = negsuc 0 };
          net = net;
        },
        loop_step sock fuel mem_alloc (pos 1) (pos (suc server_port)) (reached v) c refl on.place
            on.status (ap (λ s. recv_msg sock fuel mem_alloc s c.net) on.socket ∙ q),
        refl,
        refl,
      )
