-- ===== src/Communication/Accept/Miscount.antt =====
-- What a client that could not be added to its server's list leaves behind.
use osa_base.Base.{
  ℕ, ◌+◌, ◌≤◌, ◌<◌, ◌≡◌, refl, subst, sym, ap, Bool, true, false, ◌&&◌, Option, none, some, List,
  [], ◌∷◌, ◌++◌, inl, inr, Bool-cases, ◌==◌, length, length-append, some_pair, some_eq, arith, ℤ,
  pos, sok, ltb_ℤ, eq_ℤ,
}
use osa_base.Socket.Options.{accept_nonblock_fd}
use osa_base.Communication.{ServerStatus, is_star}
use osa_base.Communication.Life.{await_no_clients, server_destory}
use osa_base.Communication.Accept.{
  ServerHandle, Threads, Round, behind_tail, add_client, listed_or_not, register_client,
  server_round, Step, accept, register, depart, depart_unlisted, Reach, here, onward, Watch,
  nothing, look,
}
use osa_base.Communication.Accept.Clients.{waiting_room}

-- The head of the list counts at least `k` more nodes than there are.
abbrev pub CountsOver : ℕ → ServerHandle → Type 0
CountsOver k h = length h.client_list + k ≤ h.n_size

behind_tail-CountsOver :
    (k : ℕ) (alloc added : Bool) (c : ℤ) (clients : List ℤ) (n : ℕ) {h : ServerHandle}
    → length clients + k ≤ n
    → behind_tail alloc c (record { client_list = clients; n_size = n }) ≡ some (added, h)
    → CountsOver k h
unfolding behind_tail
behind_tail-CountsOver k alloc added c [] n o e = absurd (cc)
behind_tail-CountsOver k true added c (x ∷ xs) n o e =
    subst (CountsOver k) (some_pair e).1 (omega (arith, length-append (x ∷ xs) (c ∷ [])))
behind_tail-CountsOver k false added c (x ∷ xs) n o e =
    subst (CountsOver k) (some_pair e).1 (omega arith)

add_client-CountsOver :
    (k : ℕ) (alloc added : Bool) (c : ℤ) (g : ServerHandle) {h : ServerHandle}
    → CountsOver k g
    → add_client alloc c g ≡ some (added, h)
    → CountsOver k h
unfolding add_client
add_client-CountsOver k alloc added c g o e = elim (Bool-cases (g.n_size == 0)) [
  | inr some_left ↦
      behind_tail-CountsOver k alloc added c g.client_list g.n_size o
        (rw (some_left, add_client) at e)
  | inl none_left ↦ elim (Bool-cases alloc) [
    | inl there ↦
        subst (CountsOver k) (some_pair (rw (none_left, there, add_client) at e)).1 (omega arith)
    | inr short ↦ subst (CountsOver k) (some_pair (rw (none_left, short, add_client) at e)).1 o
  ]
]

-- where the node is missing there is one more
behind_tail_fails :
    (k : ℕ) (added : Bool) (c : ℤ) (clients : List ℤ) (n : ℕ) {h : ServerHandle}
    → length clients + k ≤ n
    → behind_tail false c (record { client_list = clients; n_size = n }) ≡ some (added, h)
    → CountsOver (k + 1) h
unfolding behind_tail
behind_tail_fails k added c [] n o e = absurd (cc)
behind_tail_fails k added c (x ∷ xs) n o e =
    subst (CountsOver (k + 1)) (some_pair e).1 (omega arith)

-- The list of a thread that has begun is what list_push_back left.
listed-handle :
    (c : ℤ) (s : Threads) (o : Option (Bool × ServerHandle)) {t : Threads}
    → listed_or_not c s o ≡ some t
    → (added : Bool) × (o ≡ some (added, t.handle))
unfolding listed_or_not
listed-handle c s none e = absurd (cc)
listed-handle c s (some (true, h)) e =
    (true, ap (λ g. some (true, g)) (ap (λ t. t.handle) (some_eq e)))
listed-handle c s (some (false, h)) e =
    (false, ap (λ g. some (false, g)) (ap (λ t. t.handle) (some_eq e)))

register_client-CountsOver :
    (k : ℕ) (mutex : ℤ) (alloc : Bool) (c : ℤ) (s : Threads) {t : Threads}
    → CountsOver k s.handle
    → register_client mutex alloc c s ≡ some t
    → CountsOver k t.handle
unfolding register_client
register_client-CountsOver k mutex alloc c s o e = elim (Bool-cases (eq_ℤ mutex sok)) [
  | inr failed ↦ subst (λ t. CountsOver k t.handle) (some_eq (rw (failed, register_client) at e)) o
  | inl made ↦
      let (added, a) =
        listed-handle c s (add_client alloc c s.handle) (rw (made, register_client) at e) in
      add_client-CountsOver k alloc added c s.handle o a
]

-- Without memory for the node, and with a client in the list, the head counts one more.
register_client_fails :
    (c : ℤ) (s : Threads) {t : Threads}
    → 0 < length s.handle.client_list
    → CountsOver 0 s.handle
    → register_client sok false c s ≡ some t
    → CountsOver 1 t.handle
unfolding register_client add_client
register_client_fails c s some_in o e =
    let some_counted : (s.handle.n_size == 0) ≡ false = ground arith in
    let (added, a) = listed-handle c s (add_client false c s.handle) e in
    behind_tail_fails 0 added c s.handle.client_list s.handle.n_size o
      (rw (some_counted, add_client) at a)

module _ (server_socket max_client : ℤ) where
  -- a round of the server's thread leaves the list alone
  round-handle :
      (r : Round) (s : Threads) → (server_round server_socket max_client r s).handle ≡ s.handle
  unfolding server_round
  round-handle r s =
      elim (Bool-cases (ltb_ℤ (pos 2) (accept_nonblock_fd server_socket r.ready r.accepted))) [
        | inr nobody ↦ rw nobody refl
        | inl taken ↦
            elim (Bool-cases (ltb_ℤ (pos s.handle.n_size) max_client && is_star r.status)) [
              | inr full ↦ rw (taken, full) refl
              | inl room ↦ elim (Bool-cases r.alloc) [
                | inr short ↦ rw (taken, room, short) refl
                | inl there ↦ elim (Bool-cases (eq_ℤ r.thread sok)) [
                  | inr failed ↦ rw (taken, room, there, failed) refl
                  | inl started ↦ rw (taken, room, there, started) refl
                ]
              ]
            ]
      ]

  Step-CountsOver :
      (k : ℕ) {s t : Threads} {xs : List ℤ}
      → Step server_socket max_client s xs t
      → CountsOver k s.handle
      → CountsOver k t.handle
  Step-CountsOver k {s} (accept r) o = subst (CountsOver k) (sym (round-handle r s)) o
  Step-CountsOver k (register before after mutex alloc c e) o =
      register_client-CountsOver k mutex alloc c _ o e
  Step-CountsOver k (depart before after c) o =
      omega (arith, length-append before (c ∷ after), length-append before after)
  Step-CountsOver k (depart_unlisted before after c) o = o

  Reach-CountsOver :
      (k : ℕ) {s t : Threads} {xs : List ℤ}
      → Reach server_socket max_client s xs t
      → CountsOver k s.handle
      → CountsOver k t.handle
  Reach-CountsOver k here o = o
  Reach-CountsOver k (onward step rest) o = Reach-CountsOver k rest (Step-CountsOver k step o)

  never_none :
      {s : Threads} {sizes : List ℕ}
      → Watch server_socket max_client s sizes
      → CountsOver 1 s.handle
      → await_no_clients sizes ≡ false
  unfolding await_no_clients
  never_none nothing o = refl
  never_none (look {t = t} reach watch) o =
      let p = Reach-CountsOver 1 reach o in
      let counted : (t.handle.n_size == 0) ≡ false = ground arith in
      rw (counted, never_none watch p)

  -- Once a thread of a server that has begun without clients finds no memory for its client's node
  -- in list_push_back, while another client is in the list, the head of the list counts a client too
  -- many for ever: OSA_server_destory, called at any time after, does not return, however often it
  -- looks and whatever the threads do between its looks, also when all of them have ended.
  pub miscount_stalls :
      {handle : ServerHandle} (before after : List ℤ) {unlisted unserved xs : List ℤ} (c : ℤ)
      {t : Threads} {sizes : List ℕ} (statuses : List ServerStatus)
      → Reach server_socket max_client (waiting_room [] []) xs (record {
        handle = handle;
        starting = before ++ c ∷ after;
        unlisted = unlisted;
        unserved = unserved;
      })
      → 0 < length handle.client_list
      → register_client sok false c (record {
        handle = handle;
        starting = before ++ after;
        unlisted = unlisted;
        unserved = unserved;
      })
        ≡ some t
      → Watch server_socket max_client t sizes
      → server_destory false sizes statuses ≡ none
  unfolding server_destory
  miscount_stalls before after c statuses reach some_in e watch =
      let o = register_client_fails c _ some_in (Reach-CountsOver 0 reach (omega arith)) e in
      rw (never_none watch o)
