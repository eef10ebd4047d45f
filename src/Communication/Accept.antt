-- ===== src/Communication/Accept.antt =====
-- The thread of communication/osa_communication.c that accepts clients, OSA_server_thread, and the
-- list of clients, to which the threads that it starts, OSA_processClient_thread, add themselves and
-- from which they take themselves at their end.
pub mod Clients
pub mod Miscount
pub mod Thread
mod Tests
use osa_base.Base.{
  ℕ, zero, suc, Bool, true, false, not, ◌&&◌, Option, none, some, List, [], ◌∷◌, ◌++◌, ◌+◌, ◌-◌,
  ◌≡◌, ◌==◌, if◌then◌else◌, length, ℤ, pos, sok, efail, ltb_ℤ, eq_ℤ,
}
use osa_base.Socket.Options.{accept_nonblock_fd}
use osa_base.Communication.{ServerStatus, is_star}

-- The list behind `clientList_Hndl` of an OSA_ServerHandle_t, as the sockets of its clients, and the
-- number that its head has for them.
pub record ServerHandle : Type 0 where
  pub client_list : List ℤ
  pub n_size : ℕ

-- The handle, and where the threads for the clients stand, which no member of the handle says: the
-- sockets of threads that have been started and have not come to the list yet, those of threads that
-- run though their client could not be added to the list, and those that were accepted and have no
-- thread, which stay open.
pub record Threads : Type 0 where
  pub handle : ServerHandle
  pub starting : List ℤ
  pub unlisted : List ℤ
  pub unserved : List ℤ

-- What the system and the other threads do about a round: what select and accept return, the status
-- of the server at the second test, whether there is memory, and what OSA_thrCreate returns.
pub record Round : Type 0 where
  pub ready : ℤ
  pub accepted : ℤ
  pub status : ServerStatus
  pub alloc : Bool
  pub thread : ℤ

-- list_push_back of the client behind the list, where `alloc` says whether there is memory for its
-- node: whether it is in the list then, and the list; `none` if FindNodeTail follows NULL, as it does
-- where the head counts a node and there is none.
unfoldable pub behind_tail : (alloc : Bool) → ℤ → ServerHandle → Option (Bool × ServerHandle)
behind_tail alloc c h = elim h.client_list [
  | [] ↦ none
  | x ∷ xs ↦ some (
    alloc,
    record { client_list = if alloc then (x ∷ xs) ++ c ∷ [] else x ∷ xs; n_size = h.n_size + 1 },
  )
]

unfoldable pub add_client : (alloc : Bool) → ℤ → ServerHandle → Option (Bool × ServerHandle)
unfolding behind_tail
add_client alloc c h =
    if h.n_size == 0
    then (if alloc
        then some (true, record { client_list = c ∷ h.client_list; n_size = h.n_size + 1 })
        else some (false, h))
    else behind_tail alloc c h

-- what becomes of the thread then: its client is in the list, or is served without
unfoldable pub listed_or_not : ℤ → Threads → Option (Bool × ServerHandle) → Option Threads
listed_or_not c s none = none
listed_or_not c s (some (true, h)) = some (record s { handle = h })
listed_or_not c s (some (false, h)) =
    some (record s { handle = h; unlisted = s.unlisted ++ c ∷ [] })

-- OSA_processClient_thread up to its loop, of the thread for `c`, where `mutex` is what
-- OSA_mutexCreate returns: if that fails it returns at once.
unfoldable pub register_client : (mutex : ℤ) (alloc : Bool) → ℤ → Threads → Option Threads
unfolding add_client listed_or_not
register_client mutex alloc c s =
    if not (eq_ℤ mutex sok)
    then some (record s { unserved = s.unserved ++ c ∷ [] })
    else listed_or_not c s (add_client alloc c s.handle)

module _ (server_socket max_client : ℤ) where
  -- a round of the loop in OSA_server_thread
  unfoldable pub server_round : Round → Threads → Threads
  server_round r s =
      let client_socket = accept_nonblock_fd server_socket r.ready r.accepted in
      if not (ltb_ℤ (pos 2) client_socket)
      then s
      else if not (ltb_ℤ (pos s.handle.n_size) max_client && is_star r.status)
      then record s { unserved = s.unserved ++ client_socket ∷ [] }
      else if not r.alloc
      then record s { unserved = s.unserved ++ client_socket ∷ [] }
      else if not (eq_ℤ r.thread sok)
      then record s { unserved = s.unserved ++ client_socket ∷ [] }
      else record s { starting = s.starting ++ client_socket ∷ [] }

  -- what the round accepts
  unfoldable pub accepts : Round → List ℤ
  accepts r =
      let client_socket = accept_nonblock_fd server_socket r.ready r.accepted in
      if ltb_ℤ (pos 2) client_socket then client_socket ∷ [] else []

  -- A step of the server's thread, or of the thread for a client: it comes to the list and is added
  -- to it, or not; or it ends and takes itself from the list by list_earse_data, if it is in it. The
  -- list of a step are the sockets that it accepts.
  pub data Step : Threads → List ℤ → Threads → Type 0 where
    accept : {s : Threads} (r : Round) → Step s (accepts r) (server_round r s)
    register :
        {handle : ServerHandle} (before after : List ℤ) {unlisted unserved : List ℤ} (mutex : ℤ)
        (alloc : Bool) (c : ℤ) {t : Threads}
        → register_client mutex alloc c (record {
          handle = handle;
          starting = before ++ after;
          unlisted = unlisted;
          unserved = unserved;
        })
          ≡ some t
        → Step
            (record {
              handle = handle;
              starting = before ++ c ∷ after;
              unlisted = unlisted;
              unserved = unserved;
            })
            []
            t
    depart :
        (before after : List ℤ) {n_size : ℕ} {starting unlisted unserved : List ℤ} (c : ℤ)
        → Step
            (record {
              handle = record { client_list = before ++ c ∷ after; n_size = n_size };
              starting = starting;
              unlisted = unlisted;
              unserved = unserved;
            })
            []
            (record {
              handle = record { client_list = before ++ after; n_size = n_size - 1 };
              starting = starting;
              unlisted = unlisted;
              unserved = unserved;
            })
    depart_unlisted :
        {handle : ServerHandle} {starting : List ℤ} (before after : List ℤ) {unserved : List ℤ}
        (c : ℤ)
        → Step
            (record {
              handle = handle;
              starting = starting;
              unlisted = before ++ c ∷ after;
              unserved = unserved;
            })
            []
            (record {
              handle = handle;
              starting = starting;
              unlisted = before ++ after;
              unserved = unserved;
            })

  -- some steps, and the sockets that they accept
  pub data Reach : Threads → List ℤ → Threads → Type 0 where
    here : {s : Threads} → Reach s [] s
    onward : {s t u : Threads} {xs ys : List ℤ} → Step s xs t → Reach t ys u → Reach s (xs ++ ys) u

  -- The sizes of the list that another thread reads by list_size, one after some steps each.
  pub data Watch : Threads → List ℕ → Type 0 where
    nothing : {s : Threads} → Watch s []
    look :
        {s t : Threads} {xs : List ℤ} {sizes : List ℕ}
        → Reach s xs t
        → Watch t sizes
        → Watch s (t.handle.n_size ∷ sizes)
