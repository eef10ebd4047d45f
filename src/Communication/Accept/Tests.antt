-- ===== src/Communication/Accept/Tests.antt =====
-- Clients of a concrete server.
use osa_base.Base.{◌≡◌, refl, true, false, none, some, [], ◌∷◌, replicate, arith, pos, negsuc, sok}
use osa_base.Socket.Options.{create_tcp_fd, accept_nonblock_fd}
use osa_base.Communication.{server_star, server_abor}
use osa_base.Communication.Life.{
  server_destory, handle_memory, mutex_handle, list_mutex, client_list,
}
use osa_base.Communication.Accept.{
  Threads, Reach, here, onward, accept, register, depart, depart_unlisted, Round, look, nothing,
  register_client, add_client, behind_tail, listed_or_not, server_round, accepts,
}
use osa_base.Communication.Accept.Miscount.{miscount_stalls}
use osa_base.Communication.Accept.Thread.{Listener, server_thread, found, server_thread-destory}
use osa_base.Communication.Accept.Clients.{knock, waiting_room, limit_missed}

-- 4 is in the list when 5 comes and finds no memory; then both end.
abbrev lone : Threads
lone = record {
  handle = record { client_list = pos 4 ∷ []; n_size = 2 };
  starting = [];
  unlisted = pos 5 ∷ [];
  unserved = [];
}

abbrev nobody_left : Threads
nobody_left = record {
  handle = record { client_list = []; n_size = 1 };
  starting = [];
  unlisted = [];
  unserved = [];
}

crowded :
    Reach
      (pos 3)
      (pos 2)
      (waiting_room [] [])
      (pos 4 ∷ pos 5 ∷ [])
      (waiting_room (pos 5 ∷ []) (pos 4 ∷ []))
unfolding server_round accepts accept_nonblock_fd register_client add_client listed_or_not
crowded = onward (accept (knock (pos 3) (pos 2) refl refl 4)) (
    onward (register [] [] sok true (pos 4) refl)
      (onward (accept (knock (pos 3) (pos 2) refl refl 5)) here))

emptied : Reach (pos 3) (pos 2) lone [] nobody_left
emptied = onward (depart [] [] (pos 4)) (onward (depart_unlisted [] [] (pos 5)) here)

joins_unlisted : register_client sok false (pos 5) (waiting_room [] (pos 4 ∷ [])) ≡ some lone
unfolding register_client add_client behind_tail listed_or_not
joins_unlisted = refl

miscount_stalls_example : server_destory false (2 ∷ 1 ∷ []) (server_abor ∷ []) ≡ none
miscount_stalls_example =
    miscount_stalls (pos 3) (pos 2) [] [] (pos 5) (server_abor ∷ []) crowded (omega arith)
      joins_unlisted (look here (look emptied nothing))

limit_missed_example :
    Reach
      (pos 3)
      (pos 1)
      (waiting_room [] [])
      (pos 4 ∷ pos 5 ∷ pos 6 ∷ [])
      (waiting_room [] (pos 4 ∷ pos 5 ∷ pos 6 ∷ []))
limit_missed_example =
    limit_missed (pos 3) (pos 1) refl refl (4 ∷ 5 ∷ 6 ∷ [])
      (omega arith, (omega arith, (omega arith, tt)))

abbrev new_server : Listener
new_server = record {
  server_socket = pos 0;
  server_status = server_star;
  clients = waiting_room [] [];
  opened = [];
}

abbrev nobody : Round
nobody = record {
  ready = pos 0;
  accepted = negsuc 0;
  status = server_star;
  alloc = true;
  thread = pos 0;
}

-- bind has failed.
server_thread-destory_example :
    server_destory false (2 ∷ 0 ∷ []) (
      replicate 3 (
        found (
          server_thread
            (pos 8000)
            (pos 3)
            (pos 0)
            (negsuc 0)
            (pos 0)
            (pos 16)
            ((false, nobody) ∷ (true, nobody) ∷ [])
            new_server)))
    ≡ none
unfolding create_tcp_fd
server_thread-destory_example =
    server_thread-destory (pos 8000) (pos 3) (pos 0) (negsuc 0) (pos 0) (pos 16) (nobody ∷ [])
      nobody [] new_server (2 ∷ []) 2

server_ends :
    server_destory false (2 ∷ 0 ∷ []) (
      found (
        server_thread
          (pos 8000)
          (pos 3)
          (pos 0)
          (pos 0)
          (pos 0)
          (pos 16)
          ((false, nobody) ∷ (true, nobody) ∷ [])
          new_server)
      ∷ [])
    ≡ some (pos 0, mutex_handle ∷ list_mutex ∷ client_list ∷ handle_memory ∷ [])
unfolding create_tcp_fd server_destory found server_thread
server_ends = refl
