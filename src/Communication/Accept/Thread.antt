-- ===== src/Communication/Accept/Thread.antt =====
-- The whole of OSA_server_thread in communication/osa_communication.c, from the making of its socket to its
-- return, and OSA_server_destory, which waits for that.
use osa_base.Base.{
  ℕ, zero, suc, ◌≡◌, refl, ap, ◌∙◌, Bool, true, false, not, none, some, List, [], ◌∷◌, ◌++◌,
  Bool-cases, inl, inr, if◌then◌else◌, replicate, ◌==◌, ℤ, pos, sok, eq_ℤ,
}
use osa_base.Socket.Options.{create_tcp_fd}
use osa_base.Communication.{ServerStatus, server_star, server_stop, server_abor, is_star}
use osa_base.Communication.Life.{
  handle_memory, mutex_handle, list_mutex, client_list, is_server_abor, await_no_clients,
  await_server_abor, server_destory,
}
use osa_base.Communication.Accept.{Threads, Round, server_round}

-- the members of OSA_ServerHandle_t that the thread writes, with the threads for the clients, and the
-- descriptors that it has opened for its own socket
pub record Listener : Type 0 where
  pub server_socket : ℤ
  pub server_status : ServerStatus
  pub clients : Threads
  pub opened : List ℤ

-- The thread is at the test of its loop, it has returned since its socket could not be made, or it has
-- returned behind its loop.
pub data ServerThread : Type 0 where
  running : Listener → ServerThread
  refused : Listener → ServerThread
  ended : Listener → ServerThread

unfoldable pub set_server_status : ServerStatus → Listener → Listener
set_server_status status l = record l { server_status = status }

-- the statements before the loop, where socket, setsockopt, bind and listen return the four numbers
-- behind `server_port`
unfoldable pub start : (server_port fd set_opt bound listening : ℤ) → Listener → ServerThread
unfolding create_tcp_fd set_server_status
start server_port fd set_opt bound listening l =
    let made = create_tcp_fd server_port fd set_opt bound listening l.server_socket in
    let l' = record l { server_socket = made.server_fd; opened = l.opened ++ made.opened } in
    if not (eq_ℤ made.status sok) then refused l' else running (set_server_status server_star l')

-- the loop; each entry says whether OSA_server_destory has set the status before the test.
unfoldable pub server_loop : (max_client : ℤ) → List (Bool × Round) → Listener → ServerThread
unfolding server_round set_server_status
server_loop max_client [] l = running l
server_loop max_client ((destroyed, r) ∷ rest) l =
    let l' = if destroyed then set_server_status server_stop l else l in
    let more =
      server_loop max_client rest
        (record l' { clients = server_round l'.server_socket max_client r l'.clients }) in
    if is_star l'.server_status then more else ended (set_server_status server_abor l')

-- OSA_server_thread, of a handle that is not NULL
unfoldable pub server_thread :
    (server_port fd set_opt bound listening max_client : ℤ)
    → List (Bool × Round)
    → Listener
    → ServerThread
unfolding start server_loop
server_thread server_port fd set_opt bound listening max_client rounds l =
    elim (start server_port fd set_opt bound listening l) [
      | running l' ↦ server_loop max_client rounds l'
      | refused l' ↦ refused l'
      | ended l' ↦ ended l'
    ]

-- The status that OSA_server_destory finds when it has set SERVER_STOP and the thread has come this
-- far. A thread that has returned before its loop writes none.
unfoldable pub found : ServerThread → ServerStatus
unfolding set_server_status
found (running l) = l.server_status
found (refused l) = (set_server_status server_stop l).server_status
found (ended l) = l.server_status

-- rounds before OSA_server_destory is called
abbrev pub undisturbed : List Round → List (Bool × Round)
undisturbed [] = []
undisturbed (r ∷ rs) = (false, r) ∷ undisturbed rs

no_clients : (sizes : List ℕ) → await_no_clients (sizes ++ 0 ∷ []) ≡ true
unfolding await_no_clients
no_clients [] = refl
no_clients (n ∷ sizes) = elim (Bool-cases (n == 0)) [
  | inl none_left ↦ rw none_left refl
  | inr some_left ↦ rw some_left (no_clients sizes)
]

looks : (k : ℕ) (s : ServerStatus) → await_server_abor (replicate (suc k) s) ≡ is_server_abor s
unfolding await_server_abor
looks k server_abor = refl
looks zero server_star = refl
looks (suc k) server_star = looks k server_star
looks zero server_stop = refl
looks (suc k) server_stop = looks k server_stop

loop_ends :
    (max_client : ℤ) (before : List Round) (r : Round) (rest : List (Bool × Round)) (l : Listener)
    → is_star l.server_status ≡ true
    → found (server_loop max_client (undisturbed before ++ (true, r) ∷ rest) l) ≡ server_abor
unfolding server_loop found set_server_status
loop_ends max_client [] r rest l star = refl
loop_ends max_client (b ∷ before) r rest l star = rw star (
    loop_ends max_client before r rest
      (record l { clients = server_round l.server_socket max_client b l.clients }) star)

found_lem :
    (server_port fd set_opt bound listening max_client : ℤ) (before : List Round) (r : Round)
    (rest : List (Bool × Round)) (l : Listener)
    → found (
        server_thread server_port fd set_opt bound listening max_client
          (undisturbed before ++ (true, r) ∷ rest)
          l)
      ≡ (if eq_ℤ (create_tcp_fd server_port fd set_opt bound listening l.server_socket).status sok
          then server_abor
          else server_stop)
unfolding server_thread start found set_server_status
found_lem server_port fd set_opt bound listening max_client before r rest l =
    let made = create_tcp_fd server_port fd set_opt bound listening l.server_socket in
    elim (Bool-cases (eq_ℤ made.status sok)) [
      | inl good ↦
          rw (server_thread, start, good)
            (loop_ends max_client before r rest
              (record l {
                server_socket = made.server_fd;
                server_status = server_star;
                opened = l.opened ++ made.opened;
              })
              refl)
      | inr bad ↦ rw (server_thread, start, bad) refl
    ]

-- OSA_server_destory of a server, called when its thread has returned or is at some test of its loop,
-- and finding no client left at some look: it returns 0 and has released the two mutexes, the list and
-- the handle exactly if the thread could make its socket. If not it waits, however often it looks,
-- since the thread has returned without setting SERVER_ABOR.
pub server_thread-destory :
    (server_port fd set_opt bound listening max_client : ℤ) (before : List Round) (r : Round)
    (rest : List (Bool × Round)) (l : Listener) (sizes : List ℕ) (k : ℕ)
    → server_destory false (sizes ++ 0 ∷ []) (
        replicate (suc k) (
          found (
            server_thread server_port fd set_opt bound listening max_client
              (undisturbed before ++ (true, r) ∷ rest)
              l)))
      ≡ (if eq_ℤ (create_tcp_fd server_port fd set_opt bound listening l.server_socket).status sok
          then some (pos 0, mutex_handle ∷ list_mutex ∷ client_list ∷ handle_memory ∷ [])
          else none)
unfolding server_destory
server_thread-destory server_port fd set_opt bound listening max_client before r rest l sizes k =
    let made = create_tcp_fd server_port fd set_opt bound listening l.server_socket in
    let f = found_lem server_port fd set_opt bound listening max_client before r rest l in
    elim (Bool-cases (eq_ℤ made.status sok)) [
      | inl good ↦
          let status = f ∙ ap (λ b. if b then server_abor else server_stop) good in
          rw
            (
              no_clients sizes,
              looks k (
                  found (
                    server_thread server_port fd set_opt bound listening max_client
                      (undisturbed before ++ (true, r) ∷ rest) l)),
              status,
              good,
            )
            refl
      | inr bad ↦
          let status = f ∙ ap (λ b. if b then server_abor else server_stop) bad in
          rw
            (
              no_clients sizes,
              looks k (
                  found (
                    server_thread server_port fd set_opt bound listening max_client
                      (undisturbed before ++ (true, r) ∷ rest) l)),
              status,
              bad,
            )
            refl
    ]
