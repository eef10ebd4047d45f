-- ===== src/OsaList/Push.antt =====
-- list_create, list_push_front and list_push_back (osa/src/osa_list.c).
use osa_base.Base.{
  ℕ, suc, ◌+◌, ◌<◌, ◌≡◌, ◌≢◌, refl, sym, ap, ◌∙◌, subst, false, ◌||◌, Option, none, some, [], ◌∷◌,
  ◌++◌, append_assoc, arith, length, length-append, ◌==◌, pos, eq_ℤ,
}
use osa_base.Memory.{Ptr, null, DataNode, node, head, Memory, update, ok, store, store_head}
use osa_base.OsaList.{create, is_empty, find_node_tail, insert, push_front, push_back, size}
use osa_base.OsaList.Chain.{
  Cells, has, Chain, nil, cons, IsList, null-test, ==_self, load-ok, load_head-ok, frame-update,
  append, has-append, has-ne, not-has_of_none, Snoc, snoc, tail_loop-ok,
}

-- list_create makes an empty list, or returns NULL and changes nothing if memory is exhausted.
pub create-IsList :
    (m : Memory) (fresh : Ptr)
    → fresh ≢ null
    → (m' : Memory) × (create fresh m ≡ ok fresh m') × IsList m' fresh []
unfolding create store_head
create-IsList m fresh ne = (
  record m { heads = update m.heads fresh (some (head (pos 0) null)) },
  rw (null-test ne),
  record { first = null; ne_null = ne; at = rw (==_self fresh); chain = nil },
)

-- the memory after list_push_front on a list of `n` nodes that begins at `p`
abbrev pub pushed_front : Memory → (h p fresh n d : ℕ) → Memory
pushed_front m h p fresh n d = record m {
  nodes = update m.nodes fresh (some (node d p));
  heads = update m.heads h (some (head (pos (suc n)) fresh));
}

push_front-ok :
    (m : Memory) (h p fresh n d : ℕ)
    → h ≢ null
    → m.heads h ≡ some (head (pos n) p)
    → fresh ≢ null
    → push_front fresh h d m ≡ ok fresh (pushed_front m h p fresh n d)
unfolding push_front store store_head
push_front-ok m h p fresh n d ne_h e ne = rw (null-test ne_h, null-test ne, load_head-ok m ne_h e)

module _ {m : Memory} {h : Ptr} {xs : Cells} (is : IsList m h xs) where
  pub size-ok : size h m ≡ ok (pos (length xs)) m
  unfolding size
  size-ok = rw (null-test is.ne_null, load_head-ok m is.ne_null is.at)

  -- Given a new address, list_push_front returns it and puts the data in front.
  pub push_front-cons :
      (fresh : Ptr) (d : ℕ)
      → fresh ≢ null
      → m.nodes fresh ≡ none
      → (m' : Memory) × (push_front fresh h d m ≡ ok fresh m') × IsList m' h ((fresh, d) ∷ xs)
  push_front-cons fresh d ne unheld =
      let out = not-has_of_none fresh is.chain unheld in
      (
        pushed_front m h is.first fresh (length xs) d,
        push_front-ok m h is.first fresh (length xs) d is.ne_null is.at ne,
        record {
          first = fresh;
          ne_null = is.ne_null;
          at = rw (==_self h);
          chain = cons ne (rw (==_self fresh)) out (frame-update fresh _ is.chain out);
        },
      )

-- A write at the last node links the new one behind it.
linked :
    {nodes : Ptr → Option DataNode} {p fresh : Ptr} {xs : Cells} (s : Snoc nodes p xs) (d : ℕ)
    → fresh ≢ null
    → has fresh xs ≡ false
    → Chain
        (update (update nodes fresh (some (node d null))) s.last (some (node s.d fresh)))
        null
        p
        (xs ++ (fresh, d) ∷ [])
linked {nodes} {p} {fresh} {xs} s d ne out =
    let parts : (has fresh s.front || has fresh ((s.last, s.d) ∷ [])) ≡ false =
      sym (has-append fresh s.front ((s.last, s.d) ∷ [])) ∙ ap (has fresh) (sym s.is) ∙ out in
    let apart : (fresh == s.last) ≡ false = ground (arith, parts) in
    let apart' : (s.last == fresh) ≡ false = ground (arith, apart) in
    let front =
      frame-update s.last (some (node s.d fresh))
        (frame-update fresh (some (node d null)) s.chain (ground (arith, parts))) s.out in
    let back =
      cons s.ne_null (rw (==_self s.last)) (ground (arith, apart'))
        (cons ne (rw (apart, ==_self fresh)) refl nil) in
    subst
      (λ l.
        Chain (update (update nodes fresh (some (node d null))) s.last (some (node s.d fresh))) null
          p l)
      (sym (append_assoc s.front ((s.last, s.d) ∷ []) ((fresh, d) ∷ []))
        ∙ ap (λ l. l ++ (fresh, d) ∷ []) (sym s.is))
      (append front back λ a i.
        ground (
          arith,
          has-ne a s.last s.front i s.out,
          has-ne a fresh s.front i (ground (arith, parts)),
        ))

module _ (m : Memory) {h : Ptr} (ne_h : h ≢ null) where
  -- the call on a list that is not empty, up to the new node
  pos-ne-zero : (n : ℕ) → eq_ℤ (pos (suc n)) (pos 0) ≡ false
  pos-ne-zero n = ground arith

  push_back-step :
      (fuel fresh : ℕ) (d n : ℕ) {p : Ptr} {xs : Cells}
      → m.heads h ≡ some (head (pos (suc n)) p)
      → (s : Snoc m.nodes p xs) → length xs < fuel
      → push_back fuel fresh h d m
        ≡ insert fresh s.last d
            (record m { heads = update m.heads h (some (head (pos (suc (suc n))) p)) })
  unfolding push_back is_empty find_node_tail store_head
  push_back-step fuel fresh d n {p} {xs} e s enough = rw (
    null-test ne_h,
    load_head-ok m ne_h e,
    pos-ne-zero n,
    load_head-ok m ne_h e,
    tail_loop-ok fuel m s.chain s.ne_null s.at (
        omega
          (arith, ap (λ (l : Cells). length l) s.is, length-append s.front ((s.last, s.d) ∷ []))),
    load_head-ok m ne_h e,
  )

insert-ok :
    (m : Memory) (fresh d : ℕ) {p : Ptr} {xs : Cells} (s : Snoc m.nodes p xs)
    → fresh ≢ null
    → has fresh xs ≡ false
    → insert fresh s.last d m
      ≡ ok fresh (record m {
        nodes = update (update m.nodes fresh (some (node d null))) s.last (some (node s.d fresh));
      })
unfolding insert store
insert-ok m fresh d s ne out = rw (null-test ne, load-ok m s.ne_null s.at)

IsList-at :
    (m : Memory) {h : Ptr} (ne : h ≢ null) (p : Ptr) (xs : Cells) {n : ℕ}
    → m.heads h ≡ some (head (pos n) p)
    → n ≡ length xs
    → Chain m.nodes null p xs
    → IsList m h xs
IsList-at m ne p xs e z c = record {
  first = p;
  ne_null = ne;
  at = e ∙ ap (λ k. some (head (pos k) p)) z;
  chain = c;
}

module _ (m : Memory) {h : Ptr} (ne_h : h ≢ null) where
  -- the first node in its parts, since a chain's start cannot be a field where it is matched
  push_back-Chain :
      (fuel fresh : ℕ) (d : ℕ) {p : Ptr} {xs : Cells}
      → m.heads h ≡ some (head (pos (length xs)) p)
      → Chain m.nodes null p xs
      → fresh ≢ null
      → m.nodes fresh ≡ none
      → length xs < fuel
      → (m' : Memory) × (push_back fuel fresh h d m ≡ ok fresh m')
        × IsList m' h (xs ++ (fresh, d) ∷ [])
  unfolding push_back is_empty
  push_back-Chain fuel fresh d e nil ne unheld enough =
      let (m', q, r) = push_front-cons (IsList-at m ne_h null [] e refl nil) fresh d ne unheld in
      (m', rw (null-test ne_h, load_head-ok m ne_h e) q, r)
  push_back-Chain fuel fresh d e (cons {p} {d = d₀} {xs} ne_p e_p out_p c) ne unheld enough =
      let s = snoc ne_p e_p out_p c in
      let whole : Chain m.nodes null p ((p, d₀) ∷ xs) = cons ne_p e_p out_p c in
      let out = not-has_of_none fresh whole unheld in
      let m₁ : Memory = record m {
        heads = update m.heads h (some (head (pos (suc (suc (length xs)))) p));
      } in
      let m₂ : Memory = record m₁ {
        nodes = update (update m.nodes fresh (some (node d null))) s.last (some (node s.d fresh));
      } in
      (
        m₂,
        push_back-step m ne_h fuel fresh d (length xs) e s enough ∙ insert-ok m₁ fresh d s ne out,
        IsList-at m₂ ne_h p (((p, d₀) ∷ xs) ++ (fresh, d) ∷ []) {n = suc (suc (length xs))}
            (rw (==_self h)) (omega (arith, length-append xs ((fresh, d) ∷ [])))
            (linked s d ne out),
      )

-- On any list list_push_back, given a new address, returns it and puts the data at the end; a round
-- of its loop for each node, and one more, is enough fuel.
pub push_back-append :
    {m : Memory} {h : Ptr} {xs : Cells} (fuel fresh : ℕ) (d : ℕ)
    → IsList m h xs
    → fresh ≢ null
    → m.nodes fresh ≡ none
    → length xs < fuel
    → (m' : Memory) × (push_back fuel fresh h d m ≡ ok fresh m')
      × IsList m' h (xs ++ (fresh, d) ∷ [])
push_back-append {m} fuel fresh d is ne unheld enough =
    push_back-Chain m is.ne_null fuel fresh d is.at is.chain ne unheld enough

no_memory-Chain :
    (m : Memory) {h : Ptr} (ne_h : h ≢ null) (fuel d : ℕ) {p : Ptr} {xs : Cells}
    → m.heads h ≡ some (head (pos (length xs)) p)
    → Chain m.nodes null p xs
    → 0 < length xs
    → length xs < fuel
    → push_back fuel null h d m
      ≡ ok null (record m { heads = update m.heads h (some (head (pos (suc (length xs))) p)) })
unfolding insert
no_memory-Chain m ne_h fuel d e nil some_in enough = absurd (omega arith)
no_memory-Chain m ne_h fuel d e (cons {xs} ne_p e_p out_p c) some_in enough =
    push_back-step m ne_h fuel null d (length xs) e (snoc ne_p e_p out_p c) enough

-- When `malloc` fails on a list that is not empty, list_push_back returns NULL and adds no node, but
-- counts one: from then on list_size tells one more than there are nodes.
pub push_back-no_memory :
    {m : Memory} {h : Ptr} {xs : Cells} (fuel : ℕ) (d : ℕ) (is : IsList m h xs)
    → 0 < length xs
    → length xs < fuel
    → (m' : Memory) × (push_back fuel null h d m ≡ ok null m')
      × Chain m'.nodes null is.first xs
      × (size h m' ≡ ok (pos (length xs + 1)) m')
unfolding size
push_back-no_memory {m} {h} {xs} fuel d is some_in enough =
    let m' : Memory = record m {
      heads = update m.heads h (some (head (pos (suc (length xs))) is.first));
    } in
    (
      m',
      no_memory-Chain m is.ne_null fuel d is.at is.chain some_in enough,
      is.chain,
      rw
          (
            null-test is.ne_null,
            load_head-ok m' {n = head (pos (suc (length xs))) is.first} is.ne_null (rw (==_self h)),
          )
          (ap (λ k. ok (pos k) m') (omega arith)),
    )
