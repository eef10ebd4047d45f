-- ===== src/OsaList/Pop.antt =====
-- list_pop_front and list_pop_back (osa/src/osa_list.c).
use osa_base.Base.{
  ℕ, zero, suc, ◌<◌, ◌≡◌, ◌≢◌, ap, ◌∙◌, false, none, some, [], ◌∷◌, ◌++◌, arith, length,
  length-append, ◌==◌, Bool-cases, inl, inr, subst, pos, eq_ℤ,
}
use osa_base.Memory.{Ptr, null, head, Memory, update, ok, fault, store_head}
use osa_base.OsaList.{
  is_empty, find_node_tail, free_loop, pop_front, pop_back, push_back, destroy, clear,
}
use osa_base.OsaList.Chain.{
  Cells, Chain, nil, cons, IsList, null-test, ==_self, load-ok, load-freed, load_head-ok, free-ok,
  frame-update, Snoc, snoc, tail_loop-ok, tail_loop-fault,
}

-- Taking from the empty list returns NULL and changes nothing.
pub pop-nil :
    {m : Memory} {h : Ptr} (fuel : ℕ)
    → IsList m h []
    → (pop_front h m ≡ ok null m) × (pop_back fuel h m ≡ ok null m)
unfolding pop_front pop_back is_empty
pop-nil {m} fuel is = (
  rw (null-test is.ne_null, load_head-ok m is.ne_null is.at),
  rw (null-test is.ne_null, load_head-ok m is.ne_null is.at),
)

pub pos-ne-zero : (n : ℕ) → eq_ℤ (pos (suc n)) (pos 0) ≡ false
pos-ne-zero n = ground arith

-- the memory after list_pop_front took the node at `p` off a list of `suc n`
abbrev popped : Memory → (h p q n : ℕ) → Memory
popped m h p q n = record m {
  nodes = update m.nodes p none;
  heads = update (update m.heads h (some (head (pos (suc n)) q))) h (some (head (pos n) q));
}

pop_front-Chain :
    (m : Memory) {h p : Ptr} {a d : ℕ} {xs : Cells}
    → h ≢ null
    → m.heads h ≡ some (head (pos (suc (length xs))) p)
    → Chain m.nodes null p ((a, d) ∷ xs)
    → (m' : Memory) × (pop_front h m ≡ ok d m') × IsList m' h xs × (m'.nodes a ≡ none)
unfolding pop_front is_empty store_head
pop_front-Chain m {h} ne_h e (cons {p} {q} {xs} ne e_p out c) =
    let m₁ : Memory = record m {
      heads = update m.heads h (some (head (pos (suc (length xs))) q));
    } in
    (
      popped m h p q (length xs),
      rw (
        null-test ne_h,
        load_head-ok m ne_h e,
        pos-ne-zero (length xs),
        load_head-ok m ne_h e,
        load-ok m ne e_p,
        free-ok m₁ ne e_p,
      ),
      record { first = q; ne_null = ne_h; at = rw (==_self h); chain = frame-update p none c out },
      rw (==_self p),
    )

-- list_pop_front returns the first data, frees that node and leaves the list of the others.
pub pop_front-cons :
    {m : Memory} {h : Ptr} {a d : ℕ} {xs : Cells}
    → IsList m h ((a, d) ∷ xs)
    → (m' : Memory) × (pop_front h m ≡ ok d m') × IsList m' h xs × (m'.nodes a ≡ none)
pop_front-cons {m} is = pop_front-Chain m is.ne_null is.at is.chain

-- A list whose size says `n` nodes, while its last link leads to memory that is freed.
pub record Dangles (m : Memory) (h : Ptr) (front : Cells) (last : Ptr) (n : ℕ) : Type 0 where
  pub first : Ptr
  pub ne_null : h ≢ null
  pub at : m.heads h ≡ some (head (pos n) first)
  pub chain : Chain m.nodes last first front
  pub last_ne : last ≢ null
  pub freed : m.nodes last ≡ none

pop_back-Snoc :
    (m : Memory) {h p : Ptr} {xs : Cells} (fuel n : ℕ)
    → h ≢ null
    → m.heads h ≡ some (head (pos (suc n)) p)
    → (s : Snoc m.nodes p xs) → length xs < fuel
    → (m' : Memory) × (pop_back fuel h m ≡ ok s.d m') × Dangles m' h s.front s.last n
unfolding pop_back is_empty find_node_tail store_head
pop_back-Snoc m {h} {p} fuel n ne_h e s enough =
    let m₁ : Memory = record m { nodes = update m.nodes s.last none } in
    (
      record m₁ { heads = update m.heads h (some (head (pos n) p)) },
      rw (
        null-test ne_h,
        load_head-ok m ne_h e,
        pos-ne-zero n,
        load_head-ok m ne_h e,
        tail_loop-ok fuel m s.chain s.ne_null s.at (
            omega (
              arith,
              ap (λ (l : Cells). length l) s.is,
              length-append s.front ((s.last, s.d) ∷ []),
            )),
        load-ok m s.ne_null s.at,
        free-ok m s.ne_null s.at,
        load_head-ok m₁ ne_h e,
      ),
      record {
        first = p;
        ne_null = ne_h;
        at = rw (==_self h);
        chain = frame-update s.last none s.chain s.out;
        last_ne = s.ne_null;
        freed = rw (==_self s.last);
      },
    )

pop_back-Chain :
    (m : Memory) {h p : Ptr} {xs : Cells} (fuel : ℕ)
    → h ≢ null
    → m.heads h ≡ some (head (pos (length xs)) p)
    → Chain m.nodes null p xs
    → 0 < length xs
    → length xs < fuel
    → (s : Snoc m.nodes p xs) × (m' : Memory) × (pop_back fuel h m ≡ ok s.d m')
      × Dangles m' h s.front s.last (length s.front)
pop_back-Chain m fuel ne_h e nil some_in enough = absurd (omega arith)
pop_back-Chain m {h} fuel ne_h e (cons {p} {d} {xs} ne e_p out c) some_in enough =
    let s = snoc ne e_p out c in
    let (m', q, r) = pop_back-Snoc m fuel (length xs) ne_h e s enough in
    let same : length xs ≡ length s.front =
      omega
        (arith, ap (λ (l : Cells). length l) s.is, length-append s.front ((s.last, s.d) ∷ [])) in
    (s, m', q, subst (λ k. Dangles m' h s.front s.last k) same r)

-- list_pop_back on a list that is not empty returns the last data and counts one node less, but
-- does not unlink the node that it frees.
pub pop_back-Dangles :
    {m : Memory} {h : Ptr} {xs : Cells} (fuel : ℕ)
    → IsList m h xs
    → 0 < length xs
    → length xs < fuel
    → (front : Cells) × (last : Ptr) × (d : ℕ) × (m' : Memory) × (xs ≡ front ++ (last, d) ∷ [])
      × (pop_back fuel h m ≡ ok d m')
      × Dangles m' h front last (length front)
pop_back-Dangles {m} fuel is some_in enough =
    let (s, m', q, r) = pop_back-Chain m fuel is.ne_null is.at is.chain some_in enough in
    (s.front, s.last, s.d, m', s.is, q, r)

free_loop-fault :
    (k : ℕ) (m : Memory) {a p : Ptr} {xs : Cells}
    → Chain m.nodes a p xs
    → a ≢ null
    → m.nodes a ≡ none
    → length xs < k
    → free_loop k p m ≡ fault
unfolding free_loop
free_loop-fault zero m c ne e enough = absurd (omega arith)
free_loop-fault (suc k) m nil ne e enough = rw (null-test ne, load-freed m ne e)
free_loop-fault (suc k) m {a} (cons {p} ne' e' out c) ne e enough =
    rw (null-test ne', load-ok m ne' e', free-ok m ne' e')
      (free_loop-fault k (record m { nodes = update m.nodes p none }) (frame-update p none c out) ne
        (elim (Bool-cases (a == p)) [ inl s ↦ rw s | inr s ↦ rw (s, e) ]) (omega arith))

-- After list_pop_back the list cannot be used up or extended: list_destory, list_clear, and (while
-- the size is not 0) list_push_back and list_pop_back all read the freed node.
pub Dangles-fault :
    {m : Memory} {h : Ptr} {front : Cells} {last : Ptr} {n : ℕ} (fuel fresh d : ℕ)
    → Dangles m h front last n
    → length front < fuel
    → 0 < n
    → (destroy fuel h m ≡ fault)
      × (clear fuel h m ≡ fault)
      × (push_back fuel fresh h d m ≡ fault)
      × (pop_back fuel h m ≡ fault)
unfolding destroy clear push_back pop_back is_empty find_node_tail
Dangles-fault {m} {h} {n} fuel fresh d bad enough more =
    let f = free_loop-fault fuel m bad.chain bad.last_ne bad.freed enough in
    let t = tail_loop-fault fuel m bad.chain bad.last_ne bad.freed enough in
    let z : eq_ℤ (pos n) (pos 0) ≡ false = ground arith in
    let e = load_head-ok m bad.ne_null bad.at in
    (
      rw (null-test bad.ne_null, e, f),
      rw (null-test bad.ne_null, e, f),
      rw (null-test bad.ne_null, e, z, e, t),
      rw (null-test bad.ne_null, e, z, e, t),
    )

-- On a list of two nodes or more, list_pop_back returns data, and after it list_destory, list_clear,
-- list_push_back and list_pop_back all follow a link to freed memory.
pub pop_back-breaks :
    {m : Memory} {h : Ptr} {xs : Cells} (fuel fresh e : ℕ)
    → IsList m h xs
    → 1 < length xs
    → length xs < fuel
    → (d : ℕ) × (m' : Memory) × (pop_back fuel h m ≡ ok d m')
      × (destroy fuel h m' ≡ fault)
      × (clear fuel h m' ≡ fault)
      × (push_back fuel fresh h e m' ≡ fault)
      × (pop_back fuel h m' ≡ fault)
pop_back-breaks fuel fresh e is two enough =
    let (front, last, d, m', split, q, bad) = pop_back-Dangles fuel is (omega arith) enough in
    let len = ap (λ (l : Cells). length l) split ∙ length-append front ((last, d) ∷ []) in
    let (a, b, c, f) = Dangles-fault fuel fresh e bad (omega (arith, len)) (omega (arith, len)) in
    (d, m', q, a, b, c, f)
