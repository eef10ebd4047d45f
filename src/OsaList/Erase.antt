-- ===== src/OsaList/Erase.antt =====
-- list_earse_data (osa/src/osa_list.c): the first node with the data is unlinked and freed.
use osa_base.Base.{
  ℕ, zero, suc, ◌+◌, ◌<◌, ◌≡◌, ◌≢◌, refl, ap, ◌∙◌, false, none, some, [], ◌∷◌, arith, length, ◌==◌,
  if◌then◌else◌, Bool-cases, inl, inr, pos,
}
use osa_base.Memory.{Ptr, null, node, head, Memory, update, ok, store, store_head}
use osa_base.OsaList.{dec, unlink, erase_loop, erase_data}
use osa_base.OsaList.Chain.{
  Cells, has, Chain, nil, cons, IsList, null-test, ==_self, load-ok, load_head-ok, free-ok,
  frame-update,
}

-- the first node with the data left out
abbrev pub erase : ℕ → Cells → Cells
erase d [] = []
erase d ((a, e) ∷ xs) = if e == d then xs else (a, e) ∷ erase d xs

pub has-erase : (b : Ptr) (d : ℕ) (xs : Cells) → has b xs ≡ false → has b (erase d xs) ≡ false
has-erase b d [] o = refl
has-erase b d ((a, e) ∷ xs) o = elim (Bool-cases (e == d)) [
  | inl s ↦ rw s (ground (arith, o))
  | inr s ↦
      let r : has b xs ≡ false = ground (arith, o) in rw s (ground (arith, o, has-erase b d xs r))
]

dec-suc : (n : ℕ) → dec (pos (suc n)) ≡ pos n
dec-suc n = refl

module _ (m : Memory) {h : Ptr} (ne_h : h ≢ null) where
  -- the memory after a node behind another one is taken out
  abbrev cut : (first prev e cur rest n : ℕ) → Memory
  cut first prev e cur rest n = record m {
    nodes = update (update m.nodes prev (some (node e rest))) cur none;
    heads = update m.heads h (some (head (pos n) first));
  }

  unlink-later :
      (first prev e cur rest d n : ℕ)
      → m.heads h ≡ some (head (pos (suc n)) first)
      → (cur == first) ≡ false
      → (cur == prev) ≡ false
      → prev ≢ null
      → m.nodes prev ≡ some (node e cur)
      → cur ≢ null
      → m.nodes cur ≡ some (node d rest)
      → unlink h prev cur rest m ≡ ok tt (cut first prev e cur rest n)
  unfolding unlink store store_head
  unlink-later first prev e cur rest d n at nf np ne_p e_p ne_c e_c =
      let m₁ : Memory = record m { nodes = update m.nodes prev (some (node e rest)) } in
      let m₂ : Memory = record m₁ { nodes = update m₁.nodes cur none } in
      let held : m₁.nodes cur ≡ some (node d rest) = rw (np, e_c) in
      rw (
        load_head-ok m ne_h at,
        nf,
        load-ok m ne_p e_p,
        free-ok m₁ ne_c held,
        load_head-ok m₂ ne_h at,
      )

  -- the memory after the first node is taken out
  abbrev cut_first : (cur rest n : ℕ) → Memory
  cut_first cur rest n = record m {
    nodes = update m.nodes cur none;
    heads = update (update m.heads h (some (head (pos (suc n)) rest))) h (some (head (pos n) rest));
  }

  unlink-first :
      (prev cur rest d n : ℕ)
      → m.heads h ≡ some (head (pos (suc n)) cur)
      → cur ≢ null
      → m.nodes cur ≡ some (node d rest)
      → unlink h prev cur rest m ≡ ok tt (cut_first cur rest n)
  unfolding unlink store_head
  unlink-first prev cur rest d n at ne_c e_c =
      let m₁ : Memory = record m { heads = update m.heads h (some (head (pos (suc n)) rest)) } in
      let m₂ : Memory = record m₁ { nodes = update m.nodes cur none } in
      let e : m₂.heads h ≡ some (head (pos (suc n)) rest) = rw (==_self h) in
      rw (load_head-ok m ne_h at, ==_self cur, free-ok m₁ ne_c e_c, load_head-ok m₂ ne_h e)

-- what the loop has done when it stops: `front` is the node before the ones that it looked at
record Erased (m m' : Memory) (h first prev e c : ℕ) (xs ys : Cells) : Type 0 where
  chain : Chain m'.nodes null prev ((prev, e) ∷ ys)
  at : m'.heads h ≡ some (head (pos (c + length ys)) first)
  same : (a : Ptr) → has a ((prev, e) ∷ xs) ≡ false → m'.nodes a ≡ m.nodes a

erase_loop-Erased :
    (k : ℕ) (m : Memory) {h : Ptr} (d first prev e c : ℕ) {cur : Ptr} {xs : Cells}
    → h ≢ null
    → m.heads h ≡ some (head (pos (c + length xs)) first)
    → has first xs ≡ false
    → prev ≢ null
    → m.nodes prev ≡ some (node e cur)
    → has prev xs ≡ false
    → Chain m.nodes null cur xs
    → length xs < k
    → (m' : Memory) × (erase_loop k h d prev cur m ≡ ok tt m')
      × Erased m m' h first prev e c xs (erase d xs)
unfolding erase_loop
erase_loop-Erased zero m d first prev e c ne_h at nf ne_p e_p out ch enough = absurd (omega arith)
erase_loop-Erased (suc k) m d first prev e c ne_h at nf ne_p e_p out nil enough =
    (m, refl, record { chain = cons ne_p e_p refl nil; at = at; same = λ a o. refl })
erase_loop-Erased (suc k) m {h} d first prev e c ne_h at nf ne_p e_p out
      (cons {p = cur} {q} {d = e'} {xs} ne_c e_c out_c ch) enough =
    elim (Bool-cases (e' == d)) [
      | inl hit ↦
          let n = c + length xs in
          let at' : m.heads h ≡ some (head (pos (suc n)) first) =
            at ∙ ap (λ z. some (head (pos z) first)) (omega arith) in
          let np : (cur == prev) ≡ false = ground (arith, out) in
          let pn : (prev == cur) ≡ false = ground (arith, out) in
          let nf' : (cur == first) ≡ false = ground (arith, nf) in
          let op : has prev xs ≡ false = ground (arith, out) in
          (
            cut m ne_h first prev e cur q n,
            rw (null-test ne_c, load-ok m ne_c e_c, hit)
                (unlink-later m ne_h first prev e cur q e' n at' nf' np ne_p e_p ne_c e_c),
            rw hit (record {
              chain =
                  cons ne_p (rw (pn, ==_self prev)) op
                    (frame-update cur none (frame-update prev (some (node e q)) ch op) out_c);
              at = rw (==_self h);
              same = λ a o. ground (arith, o);
            }),
          )
      | inr miss ↦
          let oc : has first xs ≡ false = ground (arith, nf) in
          let op : has prev xs ≡ false = ground (arith, out) in
          let pn : (prev == cur) ≡ false = ground (arith, out) in
          let (m', q', r) =
            erase_loop-Erased k m d first cur e' (c + 1) ne_h
              (at ∙ ap (λ z. some (head (pos z) first)) (omega arith)) oc ne_c e_c out_c ch
              (omega arith) in
          (
            m',
            rw (null-test ne_c, load-ok m ne_c e_c, miss) q',
            rw miss (record {
              chain =
                  cons ne_p (r.same prev (ground (arith, pn, op)) ∙ e_p)
                    (ground (arith, pn, has-erase prev d xs op)) r.chain;
              at = r.at ∙ ap (λ z. some (head (pos z) first)) (omega arith);
              same = λ a o. r.same a (ground (arith, o));
            }),
          )
    ]

erase_data-Chain :
    (fuel : ℕ) (m : Memory) {h p : Ptr} (d : ℕ) {xs : Cells}
    → h ≢ null
    → m.heads h ≡ some (head (pos (length xs)) p)
    → Chain m.nodes null p xs
    → length xs < fuel
    → (m' : Memory) × (erase_data fuel h d m ≡ ok (pos 0) m') × IsList m' h (erase d xs)
unfolding erase_data erase_loop
erase_data-Chain zero m d ne_h at c enough = absurd (omega arith)
erase_data-Chain (suc k) m d ne_h at nil enough = (
  m,
  rw (null-test ne_h, load_head-ok m ne_h at),
  record { first = null; ne_null = ne_h; at = at; chain = nil },
)
erase_data-Chain (suc k) m {h} d ne_h at (cons {p} {q} {d = e} {xs} ne e_p out c) enough =
    elim (Bool-cases (e == d)) [
      | inl hit ↦ (
        cut_first m ne_h p q (length xs),
        rw (
          null-test ne_h,
          load_head-ok m ne_h at,
          null-test ne,
          load-ok m ne e_p,
          hit,
          unlink-first m ne_h null p q e (length xs) at ne e_p,
        ),
        rw hit (record {
          first = q;
          ne_null = ne_h;
          at = rw (==_self h);
          chain = frame-update p none c out;
        }),
      )
      | inr miss ↦
          let (m', r, w) =
            erase_loop-Erased k m d p p e 1 ne_h
              (at ∙ ap (λ z. some (head (pos z) p)) (omega arith)) out ne e_p out c (omega arith) in
          (
            m',
            rw (null-test ne_h, load_head-ok m ne_h at, null-test ne, load-ok m ne e_p, miss, r),
            rw miss (record {
              first = p;
              ne_null = ne_h;
              at = w.at ∙ ap (λ z. some (head (pos z) p)) (omega arith);
              chain = w.chain;
            }),
          )
    ]

-- list_earse_data returns 0 and leaves the list without its first node that holds the data, or as
-- it was if none does; the size stays the number of nodes.
pub erase_data-erase :
    {m : Memory} {h : Ptr} {xs : Cells} (fuel d : ℕ)
    → IsList m h xs
    → length xs < fuel
    → (m' : Memory) × (erase_data fuel h d m ≡ ok (pos 0) m') × IsList m' h (erase d xs)
erase_data-erase {m} fuel d is enough = erase_data-Chain fuel m d is.ne_null is.at is.chain enough
