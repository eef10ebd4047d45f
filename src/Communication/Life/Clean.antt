-- ===== src/Communication/Life/Clean.antt =====
-- What is left behind when a server or a client is not begun, or is ended.
use osa_base.Base.{
  ℕ, ◌+◌, ◌*◌, ◌≡◌, refl, ap, ap₂, ◌∙◌, Bool, true, false, not, ◌&&◌, some, List, [], ◌∷◌, ◌++◌,
  if◌then◌else◌, arith, ℤ, pos, sok, eq_ℤ, ltb_ℤ,
}
use osa_base.Base.Count.{one_if}
use osa_base.Communication.Life.{
  Resource, handle_memory, mutex_handle, list_mutex, client_list, thread, Begun, ServerParam,
  ClientParam, server_init, client_init, returns, client_begin, client_destory,
}
use osa_base.Communication.{ComType, msg_type, stream_type, ClientStatus}

abbrev pub is_same : Resource → Resource → Bool
is_same handle_memory handle_memory = true
is_same mutex_handle mutex_handle = true
is_same list_mutex list_mutex = true
is_same client_list client_list = true
is_same thread thread = true
is_same r s = false

abbrev pub times : Resource → List Resource → ℕ
times r [] = 0
times r (s ∷ ss) = one_if (is_same r s) + times r ss

-- A begun handle keeps all that was acquired; without one all of it is released.
Clean : Begun → Type 0
Clean b =
    (r : Resource)
    → times r b.acquired ≡ times r b.released + (if b.handle then times r b.acquired else 0)

checked :
    (b : Bool) (bad good : Begun) → Clean bad → Clean good → Clean (if not b then bad else good)
checked true bad good g h = h
checked false bad good g h = g

server_init-Clean :
    (p : ServerParam) (alloc : Bool) (mutex list_lock : ℤ) (list : Bool) (thread_ret : ℤ)
    → Clean (server_init p alloc mutex list_lock list thread_ret)
unfolding server_init Clean
server_init-Clean p alloc mutex list_lock list thread_ret =
    checked (p.log_fun && p.status_fun && ltb_ℤ (pos 0) p.server_port && ltb_ℤ (pos 0) p.max_client)
      _ _ (λ r. refl)
      (checked alloc _ _ (λ r. refl)
        (checked (eq_ℤ mutex sok) _ _ (λ r. omega arith)
          (checked (eq_ℤ list_lock sok) _ _ (λ r. omega arith)
            (checked list _ _ (λ r. omega arith)
              (checked (eq_ℤ thread_ret (pos 0)) _ _ (λ r. omega arith) (λ r. omega arith))))))

client_init-Clean :
    (p : ClientParam) (alloc : Bool) (mutex thread_ret : ℤ)
    → Clean (client_init p alloc mutex thread_ret)
unfolding client_init Clean
client_init-Clean p alloc mutex thread_ret =
    checked (p.log_fun && p.msg_fun && p.status_fun && ltb_ℤ (pos 0) p.server_port) _ _ (λ r. refl)
      (checked alloc _ _ (λ r. refl)
        (checked (eq_ℤ mutex sok) _ _ (λ r. omega arith)
          (checked (eq_ℤ thread_ret (pos 0)) _ _ (λ r. omega arith) (λ r. omega arith))))

without_handle :
    (b : Begun)
    → Clean b
    → b.handle ≡ false
    → (r : Resource) → times r b.acquired ≡ times r b.released
unfolding Clean
without_handle b clean e r =
    let h : times r b.acquired ≡ times r b.released + 0 =
      clean r ∙ ap (λ x. times r b.released + (if x then times r b.acquired else 0)) e in
    omega arith

-- Where OSA_server_init returns NULL, and where OSA_client_init does, whichever call has failed, each
-- thing that was acquired on the way has been released, and as often.
pub inits_clean :
    (p : ServerParam) (q : ClientParam) (alloc list : Bool) (mutex list_lock thread_ret : ℤ)
    → (server_init p alloc mutex list_lock list thread_ret).handle ≡ false
    → (client_init q alloc mutex thread_ret).handle ≡ false
    → (r : Resource)
    → let s = server_init p alloc mutex list_lock list thread_ret in
      let c = client_init q alloc mutex thread_ret in
      (times r s.acquired ≡ times r s.released) × (times r c.acquired ≡ times r c.released)
inits_clean p q alloc list mutex list_lock thread_ret hs hc r = (
  without_handle (server_init p alloc mutex list_lock list thread_ret)
      (server_init-Clean p alloc mutex list_lock list thread_ret) hs r,
  without_handle (client_init q alloc mutex thread_ret) (client_init-Clean q alloc mutex thread_ret)
      hc r,
)

-- the thread of a client that goes no further than its checks, once OSA_client_init has checked the
-- same members
begun_freed :
    (p : ClientParam) (client_type : ComType) (alloc get_emptybuf : Bool)
    (mutex thread_ret heart : ℤ) {freed : List Resource}
    → (client_init p alloc mutex thread_ret).handle ≡ true
    → client_begin p client_type heart get_emptybuf ≡ returns freed
    → (freed ≡ mutex_handle ∷ handle_memory ∷ [])
      × ((client_init p alloc mutex thread_ret).acquired
          ≡ handle_memory ∷ mutex_handle ∷ thread ∷ [])
unfolding client_init client_begin
begun_freed p msg_type alloc get_emptybuf mutex thread_ret heart h e = ground arith
begun_freed p stream_type alloc get_emptybuf mutex thread_ret heart h e = ground arith

destory_freed :
    (statuses : List ClientStatus) {ret : ℤ} {released : List Resource}
    → client_destory false statuses ≡ some (ret, released)
    → released ≡ mutex_handle ∷ handle_memory ∷ []
unfolding client_destory
destory_freed statuses e = ground arith

-- Where OSA_client_init has returned a handle and the thread of the client returns before it connects,
-- a call of OSA_client_destory that returns has released the handle and its mutex a second time; they
-- were acquired once.
pub client_freed_twice :
    (p : ClientParam) (client_type : ComType) (alloc get_emptybuf : Bool)
    (mutex thread_ret heart : ℤ) (statuses : List ClientStatus) (ret : ℤ)
    (freed released : List Resource)
    → (client_init p alloc mutex thread_ret).handle ≡ true
    → client_begin p client_type heart get_emptybuf ≡ returns freed
    → client_destory false statuses ≡ some (ret, released)
    → (r : Resource) → is_same r thread ≡ false
    → times r (freed ++ released) ≡ 2 * times r (client_init p alloc mutex thread_ret).acquired
client_freed_twice p client_type alloc get_emptybuf mutex thread_ret heart statuses ret freed
      released h e d r other =
    let (f, a) = begun_freed p client_type alloc get_emptybuf mutex thread_ret heart h e in
    let g = destory_freed statuses d in
    let all : freed ++ released ≡ mutex_handle ∷ handle_memory ∷ mutex_handle ∷ handle_memory ∷ [] =
      ap₂ (λ xs ys. xs ++ ys) f g in
    omega (arith, ap (times r) all, ap (times r) a, ap one_if other)
