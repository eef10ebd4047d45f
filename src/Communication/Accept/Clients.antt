-- ===== src/Communication/Accept/Clients.antt =====
-- How many clients a server can have.
use osa_base.Base.{
  ℕ, suc, ◌==◌, ◌+◌, some, ap, length-append, ◌<◌, ◌≡◌, refl, sym, subst, true, false, List, [],
  ◌∷◌, ◌++◌, append_assoc, append-nil, length, All, arith, ℤ, pos, sok, ltb_ℤ,
}
use osa_base.Socket.Options.{accept_nonblock_fd}
use osa_base.Communication.{server_star}
use osa_base.Communication.Accept.{
  ServerHandle, Threads, add_client, behind_tail, listed_or_not, register_client, Round,
  server_round, accepts, Step, accept, register, Reach, here, onward,
}

abbrev pub handle_of : List ℤ → ServerHandle
handle_of client_list = record { client_list = client_list; n_size = length client_list }

abbrev pub waiting_room : (starting client_list : List ℤ) → Threads
waiting_room starting client_list = record {
  handle = handle_of client_list;
  starting = starting;
  unlisted = [];
  unserved = [];
}

add_client-handle_of :
    (c : ℤ) (clients : List ℤ)
    → add_client true c (handle_of clients) ≡ some (true, handle_of (clients ++ c ∷ []))
unfolding add_client behind_tail
add_client-handle_of c [] = refl
add_client-handle_of c (x ∷ xs) =
    let counted : (suc (length xs) == 0) ≡ false = ground arith in
    let one_more : suc (length xs) + 1 ≡ suc (length (xs ++ c ∷ [])) =
      omega (arith, length-append xs (c ∷ [])) in
    rw counted
      (ap (λ n. some (true, record { client_list = x ∷ xs ++ c ∷ []; n_size = n })) one_more)

abbrev pub sockets : List ℕ → List ℤ
sockets [] = []
sockets (c ∷ cs) = pos c ∷ sockets cs

module _ (server_socket max_client : ℤ) where
  module _ (usable : ltb_ℤ server_socket (pos 3) ≡ false)
      (room : ltb_ℤ (pos 0) max_client ≡ true) where
    -- a round that accepts a client, and starts its thread
    abbrev pub knock : ℕ → Round
    knock c = record {
      ready = pos 1;
      accepted = pos c;
      status = server_star;
      alloc = true;
      thread = sok;
    }

    let_in :
        (c : ℕ) (starting : List ℤ)
        → 2 < c
        → server_round server_socket max_client (knock c) (waiting_room starting [])
          ≡ waiting_room (starting ++ pos c ∷ []) []
    unfolding server_round accept_nonblock_fd
    let_in c starting h =
        let t : ltb_ℤ (pos 2) (pos c) ≡ true = ground arith in
        let f : ltb_ℤ (pos c) (pos 0) ≡ false = ground arith in rw (usable, f, t, room) refl

    accepted_one : (c : ℕ) → 2 < c → accepts server_socket max_client (knock c) ≡ pos c ∷ []
    unfolding accepts accept_nonblock_fd
    accepted_one c h =
        let t : ltb_ℤ (pos 2) (pos c) ≡ true = ground arith in
        let f : ltb_ℤ (pos c) (pos 0) ≡ false = ground arith in rw (usable, f, t) refl

    knock-Step :
        (c : ℕ) (starting : List ℤ)
        → 2 < c
        → Step server_socket max_client
            (waiting_room starting [])
            (pos c ∷ [])
            (waiting_room (starting ++ pos c ∷ []) [])
    knock-Step c starting h =
        let from = waiting_room starting [] in
        subst (λ t. Step server_socket max_client from (pos c ∷ []) t) (let_in c starting h)
          (subst
            (λ xs.
              Step server_socket max_client from xs
                (server_round server_socket max_client (knock c) from))
            (accepted_one c h) (accept (knock c)))

    joined :
        (c : ℤ) (cs clients : List ℤ)
        → register_client sok true c (waiting_room cs clients)
          ≡ some (waiting_room cs (clients ++ c ∷ []))
    unfolding register_client listed_or_not
    joined c cs clients =
        ap (listed_or_not c (waiting_room cs clients)) (add_client-handle_of c clients)

    register_all :
        (cs clients : List ℤ)
        → Reach server_socket max_client
            (waiting_room cs clients)
            []
            (waiting_room [] (clients ++ cs))
    register_all [] clients =
        subst (λ l. Reach server_socket max_client (waiting_room [] clients) [] (waiting_room [] l))
          (sym (append-nil clients)) here
    register_all (c ∷ cs) clients =
        subst
          (λ l.
            Reach server_socket max_client (waiting_room (c ∷ cs) clients) [] (waiting_room [] l))
          (append_assoc clients (c ∷ []) cs)
          (onward (register [] cs sok true c (joined c cs clients))
            (register_all cs (clients ++ c ∷ [])))

    crowd :
        (cs : List ℕ) (starting : List ℤ)
        → All (λ c. 2 < c) cs
        → Reach server_socket max_client
            (waiting_room starting [])
            (sockets cs)
            (waiting_room [] (starting ++ sockets cs))
    crowd [] starting h =
        subst
          (λ l. Reach server_socket max_client (waiting_room starting []) [] (waiting_room [] l))
          (sym (append-nil starting)) (register_all starting [])
    crowd (c ∷ cs) starting (h, hs) =
        subst
          (λ l.
            Reach server_socket max_client (waiting_room starting []) (sockets (c ∷ cs))
              (waiting_room [] l))
          (append_assoc starting (pos c ∷ []) (sockets cs))
          (onward (knock-Step c starting h) (crowd cs (starting ++ pos c ∷ []) hs))

    -- `max_client` does not bound the number of clients, if it is 1 at least: a server that starts with
    -- none can come to have any sockets at once in its list of clients, since a client is counted only
    -- when its thread has added it.
    pub limit_missed :
        (cs : List ℕ)
        → All (λ c. 2 < c) cs
        → Reach server_socket max_client
            (waiting_room [] [])
            (sockets cs)
            (waiting_room [] (sockets cs))
    limit_missed cs h = crowd cs [] h
