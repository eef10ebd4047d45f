-- ===== src/Communication/Life/Tests.antt =====
-- A server and a client that cannot be begun, and a client whose thread returns at once.
use osa_base.Base.{◌≡◌, refl, true, [], ◌∷◌, pos}
use osa_base.Communication.{msg_type}
use osa_base.Communication.Life.{
  handle_memory, mutex_handle, list_mutex, client_list, ServerParam, ClientParam, server_init,
  client_init, failed, returns, client_begin,
}

abbrev server_param : ServerParam
server_param = record {
  log_fun = true;
  status_fun = true;
  server_port = pos 8000;
  max_client = pos 16;
}

abbrev client_param : ClientParam
client_param = record { log_fun = true; msg_fun = true; status_fun = true; server_port = pos 8000 }

server_without_thread :
    server_init server_param true (pos 0) (pos 0) true (pos 11)
    ≡ failed
        (handle_memory ∷ mutex_handle ∷ list_mutex ∷ client_list ∷ [])
        (mutex_handle ∷ list_mutex ∷ client_list ∷ handle_memory ∷ [])
unfolding server_init
server_without_thread = refl

client_without_thread :
    client_init client_param true (pos 0) (pos 11)
    ≡ failed (handle_memory ∷ mutex_handle ∷ []) (mutex_handle ∷ handle_memory ∷ [])
unfolding client_init
client_without_thread = refl

client_without_heart :
    client_begin client_param msg_type (pos 11) true ≡ returns (mutex_handle ∷ handle_memory ∷ [])
unfolding client_begin
client_without_heart = refl
