-- ===== src/Communication/Life.antt =====
-- How the servers and clients of communication/osa_communication.c begin and end: OSA_server_init,
-- OSA_server_destory, OSA_client_init and OSA_client_destory. What OSA_memAlloc, OSA_mutexCreate,
-- list_create and OSA_thrCreate return are arguments.
pub mod Clean
mod Tests
use osa_base.Base.{
  ℕ, zero, suc, ◌+◌, ◌≡◌, Bool, true, false, not, ◌&&◌, ◌||◌, Option, none, some, List, [], ◌∷◌,
  ◌==◌, if◌then◌else◌, ℤ, pos, negsuc, sok, efail, eq_ℤ, ltb_ℤ,
}
use osa_base.Communication.{
  ClientStatus, client_abor, client_connect, client_disconnect, ServerStatus, server_star,
  server_stop, server_abor, ComType, msg_type, stream_type,
}

-- what a function acquires and releases: the handle, its mutexes, the list of clients, and the thread
pub data Resource : Type 0 where
  handle_memory mutex_handle list_mutex client_list thread : Resource

-- what an initialisation leaves: whether it returns a handle, and what it acquired and released
pub record Begun : Type 0 where
  pub handle : Bool
  pub acquired : List Resource
  pub released : List Resource

abbrev pub failed : (acquired released : List Resource) → Begun
failed acquired released = record { handle = false; acquired = acquired; released = released }

-- the members of OSA_ServerParam_t that OSA_server_init reads; for the functions, whether they are not
-- NULL
pub record ServerParam : Type 0 where
  pub log_fun : Bool
  pub status_fun : Bool
  pub server_port : ℤ
  pub max_client : ℤ

-- OSA_server_init
unfoldable pub server_init :
    ServerParam → (alloc : Bool) → (mutex list_lock : ℤ) → (list : Bool) → (thread : ℤ) → Begun
server_init p alloc mutex list_lock list thread_ret =
    if not (p.log_fun && p.status_fun && ltb_ℤ (pos 0) p.server_port && ltb_ℤ (pos 0) p.max_client)
    then failed [] []
    else if not alloc
    then failed [] []
    else if not (eq_ℤ mutex sok)
    then failed (handle_memory ∷ []) (handle_memory ∷ [])
    else if not (eq_ℤ list_lock sok)
    then failed (handle_memory ∷ mutex_handle ∷ []) (mutex_handle ∷ handle_memory ∷ [])
    else if not list
    then failed (handle_memory ∷ mutex_handle ∷ list_mutex ∷ [])
        (mutex_handle ∷ list_mutex ∷ handle_memory ∷ [])
    else if not (eq_ℤ thread_ret (pos 0))
    then failed (handle_memory ∷ mutex_handle ∷ list_mutex ∷ client_list ∷ [])
        (mutex_handle ∷ list_mutex ∷ client_list ∷ handle_memory ∷ [])
    else record {
      handle = true;
      acquired = handle_memory ∷ mutex_handle ∷ list_mutex ∷ client_list ∷ thread ∷ [];
      released = [];
    }

-- the first loop of OSA_server_destory, with the sizes of the list of clients that it finds, and the
-- second, with the statuses; `none` if it still waits.
unfoldable pub await_no_clients : List ℕ → Bool
await_no_clients [] = false
await_no_clients (n ∷ ns) = let rest = await_no_clients ns in if n == 0 then true else rest

abbrev pub is_server_abor : ServerStatus → Bool
is_server_abor server_star = false
is_server_abor server_stop = false
is_server_abor server_abor = true

unfoldable pub await_server_abor : List ServerStatus → Bool
await_server_abor [] = false
await_server_abor (s ∷ ss) =
    let rest = await_server_abor ss in if is_server_abor s then true else rest

-- OSA_server_destory: its value and what it releases, or `none` if it still waits. The thread has
-- ended when its status is SERVER_ABOR.
unfoldable pub server_destory :
    (handle_null : Bool) → List ℕ → List ServerStatus → Option (ℤ × List Resource)
unfolding await_no_clients await_server_abor
server_destory handle_null sizes statuses =
    if handle_null
    then some (negsuc 0, [])
    else if not (await_no_clients sizes)
    then none
    else if not (await_server_abor statuses)
    then none
    else some (pos 0, mutex_handle ∷ list_mutex ∷ client_list ∷ handle_memory ∷ [])

-- the members of OSA_ClientParam_t that OSA_client_init reads
pub record ClientParam : Type 0 where
  pub log_fun : Bool
  pub msg_fun : Bool
  pub status_fun : Bool
  pub server_port : ℤ

-- OSA_client_init
unfoldable pub client_init : ClientParam → (alloc : Bool) → (mutex thread : ℤ) → Begun
client_init p alloc mutex thread_ret =
    if not (p.log_fun && p.msg_fun && p.status_fun && ltb_ℤ (pos 0) p.server_port)
    then failed [] []
    else if not alloc
    then failed [] []
    else if not (eq_ℤ mutex sok)
    then failed (handle_memory ∷ []) (handle_memory ∷ [])
    else if not (eq_ℤ thread_ret (pos 0))
    then failed (handle_memory ∷ mutex_handle ∷ []) (mutex_handle ∷ handle_memory ∷ [])
    else record {
      handle = true;
      acquired = handle_memory ∷ mutex_handle ∷ thread ∷ [];
      released = [];
    }

-- how OSA_client_processThr begins: it returns, with what it has released, or it goes on to connect
pub data ClientBegun : Type 0 where
  returns : List Resource → ClientBegun
  connects : ClientBegun

-- OSA_client_processThr up to REPEAT_CONNECT, where OSA_thrCreate returns `heart`, and `get_emptybuf`
-- says whether that member is not NULL
unfoldable pub client_begin :
    ClientParam → ComType → (heart : ℤ) → (get_emptybuf : Bool) → ClientBegun
client_begin p client_type heart get_emptybuf =
    if not (p.log_fun && p.msg_fun && p.status_fun && ltb_ℤ (pos 0) p.server_port)
    then returns []
    else elim client_type [
      | msg_type ↦
          if not (eq_ℤ heart (pos 0)) then returns (mutex_handle ∷ handle_memory ∷ []) else connects
      | stream_type ↦
          if not get_emptybuf then returns (mutex_handle ∷ handle_memory ∷ []) else connects
    ]

abbrev pub is_client_abor : ClientStatus → Bool
is_client_abor client_disconnect = false
is_client_abor client_connect = false
is_client_abor client_abor = true

-- the loop of OSA_client_destory, with the statuses that it finds
unfoldable pub await_client_abor : List ClientStatus → Bool
await_client_abor [] = false
await_client_abor (s ∷ ss) =
    let rest = await_client_abor ss in if is_client_abor s then true else rest

-- OSA_client_destory, likewise
unfoldable pub client_destory :
    (handle_null : Bool) → List ClientStatus → Option (ℤ × List Resource)
unfolding await_client_abor
client_destory handle_null statuses =
    if handle_null
    then some (efail, [])
    else if not (await_client_abor statuses)
    then none
    else some (sok, mutex_handle ∷ handle_memory ∷ [])
