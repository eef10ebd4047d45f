-- ===== src/OsaList/Release.antt =====
-- list_destory and list_clear (osa/src/osa_list.c): all nodes are freed, once each. And a walk with
-- list_begin and list_next, as OSA_server_sendBuf makes it.
use osa_base.Base.{
  ℕ, zero, suc, ◌<◌, ◌≡◌, refl, sym, ap, ◌∙◌, none, some, List, [], ◌∷◌, ◌++◌, append-nil,
  append_assoc, arith, length, ◌==◌, if◌then◌else◌, pos,
}
use osa_base.Memory.{
  Ptr, null, head, Memory, update, ok, out_of_fuel, Cmd, pure, ◌>>=◌, load, store_head, free_head,
}
use osa_base.OsaList.{free_loop, destroy, clear, begin, next, end}
use osa_base.OsaList.Chain.{
  Cells, has, datas, Chain, nil, cons, IsList, null-test, ==_self, load-ok, load_head-ok, free-ok,
  frame-update,
}

-- `m'` is `m` less the nodes of `xs`, with the same heads and locks
pub record Without (xs : Cells) (m m' : Memory) : Type 0 where
  pub gone : (a : Ptr) → m'.nodes a ≡ (if has a xs then none else m.nodes a)
  pub same_heads : m'.heads ≡ m.heads
  pub same_locks : m'.locks ≡ m.locks

free_loop-Without :
    (k : ℕ) (m : Memory) {p : Ptr} {xs : Cells}
    → Chain m.nodes null p xs
    → length xs < k
    → (m' : Memory) × (free_loop k p m ≡ ok tt m') × Without xs m m'
unfolding free_loop
free_loop-Without zero m c enough = absurd (omega arith)
free_loop-Without (suc k) m nil enough =
    (m, refl, record { gone = λ a. refl; same_heads = refl; same_locks = refl })
free_loop-Without (suc k) m (cons {p} {xs} ne e out c) enough =
    let (m', q, w) =
      free_loop-Without k (record m { nodes = update m.nodes p none }) (frame-update p none c out)
        (omega arith) in
    (
      m',
      rw (null-test ne, load-ok m ne e, free-ok m ne e) q,
      record {
        gone = λ a. ground (arith, w.gone a);
        same_heads = w.same_heads;
        same_locks = w.same_locks;
      },
    )

-- list_destory returns 0 and frees the nodes and the head, once each, and nothing else: every other
-- node and head stays what it was, and so do the mutexes; given a round for each node and one more it
-- ends.
pub destroy-Without :
    {m : Memory} {h : Ptr} {xs : Cells} (fuel : ℕ)
    → IsList m h xs
    → length xs < fuel
    → (m' : Memory) × (destroy fuel h m ≡ ok (pos 0) m')
      × ((a : Ptr) → m'.nodes a ≡ (if has a xs then none else m.nodes a))
      × ((a : Ptr) → m'.heads a ≡ (if a == h then none else m.heads a))
      × (m'.locks ≡ m.locks)
unfolding destroy free_head
destroy-Without {m} {h} fuel is enough =
    let (m₁, q, w) = free_loop-Without fuel m is.chain enough in
    let e = load_head-ok m is.ne_null is.at in
    let f = load_head-ok m₁ is.ne_null (ap (λ g. g h) w.same_heads ∙ is.at) in
    (
      record m₁ { heads = update m₁.heads h none },
      rw (null-test is.ne_null, e, q, f),
      w.gone,
      λ a. ap (λ g. if a == h then none else g a) w.same_heads,
      w.same_locks,
    )

-- list_clear returns 0, frees the nodes, once each, and leaves the handle an empty list.
pub clear-Without :
    {m : Memory} {h : Ptr} {xs : Cells} (fuel : ℕ)
    → IsList m h xs
    → length xs < fuel
    → (m' : Memory) × (clear fuel h m ≡ ok (pos 0) m')
      × ((a : Ptr) → m'.nodes a ≡ (if has a xs then none else m.nodes a))
      × IsList m' h []
unfolding clear store_head
clear-Without {m} {h} fuel is enough =
    let (m₁, q, w) = free_loop-Without fuel m is.chain enough in
    let e = load_head-ok m is.ne_null is.at in
    (
      record m₁ { heads = update m₁.heads h (some (head (pos 0) null)) },
      rw (null-test is.ne_null, e, q),
      w.gone,
      record { first = null; ne_null = is.ne_null; at = rw (==_self h); chain = nil },
    )

-- `for (p = list_begin(h); p != list_end(h); p = list_next(h, p))`, collecting the data
unfoldable pub walk : ℕ → Ptr → List ℕ → Cmd (List ℕ)
walk zero p acc = λ _. out_of_fuel
walk (suc k) p acc =
    if p == end then pure acc else do n ← load p; q ← next p; walk k q (acc ++ n.p_data ∷ [])

unfoldable pub walk_all : ℕ → Ptr → Cmd (List ℕ)
unfolding walk
walk_all fuel h = do p ← begin h; walk fuel p []

walk-datas :
    (k : ℕ) (m : Memory) {p : Ptr} {xs : Cells} (acc : List ℕ)
    → Chain m.nodes null p xs
    → length xs < k
    → walk k p acc m ≡ ok (acc ++ datas xs) m
unfolding walk next end
walk-datas zero m acc c enough = absurd (omega arith)
walk-datas (suc k) m acc nil enough = ap (λ l. ok l m) (sym (append-nil acc))
walk-datas (suc k) m acc (cons {d} {xs} ne e out c) enough =
    rw (null-test ne, load-ok m ne e, load-ok m ne e)
      (walk-datas k m (acc ++ d ∷ []) c (omega arith)
        ∙ ap (λ l. ok l m) (append_assoc acc (d ∷ []) (datas xs)))

-- A walk from list_begin by list_next to list_end meets the data of every node once, in order, and
-- changes nothing.
pub walk_all-datas :
    {m : Memory} {h : Ptr} {xs : Cells} (fuel : ℕ)
    → IsList m h xs
    → length xs < fuel
    → walk_all fuel h m ≡ ok (datas xs) m
unfolding walk_all begin
walk_all-datas {m} fuel is enough =
    rw (null-test is.ne_null, load_head-ok m is.ne_null is.at)
      (walk-datas fuel m [] is.chain enough)
