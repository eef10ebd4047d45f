-- ===== src/OsaList/Chain.antt =====
-- What a list in memory stands for: its nodes, each with address and data, in order.
use mathlib.Core.Bool.{or_assoc}
use osa_base.Base.{
  ℕ, zero, suc, ◌<◌, ◌≡◌, ◌≢◌, refl, sym, ap, ◌∙◌, Bool, true, false, ◌||◌, Option, none, some,
  List, [], ◌∷◌, ◌++◌, arith, length, ◌==◌, pos, Bool-cases, ==_iff, inl, inr,
}
use osa_base.Memory.{
  Ptr, null, DataNode, node, HeadNode, head, Memory, update, ok, fault, load, load_head, free,
}
use osa_base.OsaList.{tail_loop}

abbrev pub Cells : Type 0
Cells = List (Ptr × ℕ)

-- whether a node stands at this address
abbrev pub has : Ptr → Cells → Bool
has a [] = false
has a ((p, d) ∷ xs) = (a == p) || has a xs

-- the data alone
abbrev pub datas : Cells → List ℕ
datas [] = []
datas ((p, d) ∷ xs) = d ∷ datas xs

-- From `p` the links lead through the nodes `xs`, at addresses of their own, to `stop`.
pub data Chain (nodes : Ptr → Option DataNode) (stop : Ptr) : Ptr → Cells → Type 0 where
  nil : Chain nodes stop stop []
  cons :
      {p q : Ptr} {d : ℕ} {xs : Cells}
      → p ≢ null
      → nodes p ≡ some (node d q)
      → has p xs ≡ false
      → Chain nodes stop q xs
      → Chain nodes stop p ((p, d) ∷ xs)

-- The handle `h` is a list of the nodes `xs`, and its size is their number.
pub record IsList (m : Memory) (h : Ptr) (xs : Cells) : Type 0 where
  pub first : Ptr
  pub ne_null : h ≢ null
  pub at : m.heads h ≡ some (head (pos (length xs)) first)
  pub chain : Chain m.nodes null first xs

-- single accesses
module _ (m : Memory) {p q : Ptr} {d : ℕ} (ne : p ≢ null) (e : m.nodes p ≡ some (node d q)) where
  pub ne_null-== : (p == null) ≡ false
  ne_null-== = ground arith

  pub load-ok : load p m ≡ ok (node d q) m
  unfolding load
  load-ok = rw (ne_null-==, e)

  pub free-ok : free p m ≡ ok tt (record m { nodes = update m.nodes p none })
  unfolding free
  free-ok = rw load-ok

pub null-test : {p : Ptr} → p ≢ null → (p == null) ≡ false
null-test ne = ground arith

pub ==_self : (p : ℕ) → (p == p) ≡ true
==_self p = ground arith

pub load-freed : (m : Memory) {p : Ptr} → p ≢ null → m.nodes p ≡ none → load p m ≡ fault
unfolding load
load-freed m {p} ne e = let t : (p == null) ≡ false = null-test ne in rw (t, e)

pub load_head-ok :
    (m : Memory) {h : Ptr} {n : HeadNode} → h ≢ null → m.heads h ≡ some n → load_head h m ≡ ok n m
unfolding load_head
load_head-ok m {h} ne e = let t : (h == null) ≡ false = null-test ne in rw (t, e)

pub has-append : (a : Ptr) (xs ys : Cells) → has a (xs ++ ys) ≡ (has a xs || has a ys)
has-append a [] ys = refl
has-append a ((p, d) ∷ xs) ys = rw (has-append a xs ys, or_assoc)

-- An address in the list is not one outside it.
pub has-ne : (a b : Ptr) (xs : Cells) → has a xs ≡ true → has b xs ≡ false → (a == b) ≡ false
has-ne a b xs i o = elim (Bool-cases (a == b)) [
  | inl s ↦ absurd (cc (i, o, ap (λ z. has z xs) ((==_iff a b).0 s)))
  | inr s ↦ s
]

module _ {nodes : Ptr → Option DataNode} {stop : Ptr} where
  -- a chain survives any change that spares its own addresses
  pub frame :
      {nodes' : Ptr → Option DataNode} {p : Ptr} {xs : Cells}
      → Chain nodes stop p xs
      → ((a : Ptr) → has a xs ≡ true → nodes' a ≡ nodes a)
      → Chain nodes' stop p xs
  frame nil same = nil
  frame (cons {p} {xs} ne e out c) same =
      cons ne (same p (ground arith) ∙ e) out (frame c λ a i. same a (ground arith))

  pub frame-update :
      {p : Ptr} {xs : Cells} (a : Ptr) (n : Option DataNode)
      → Chain nodes stop p xs
      → has a xs ≡ false
      → Chain (update nodes a n) stop p xs
  frame-update {xs} a n c out = frame c λ b i. elim (Bool-cases (b == a)) [
    | inl s ↦ absurd (ground (arith, s, ap (λ z. has z xs) ((==_iff b a).0 s)))
    | inr s ↦ rw s
  ]

  -- no node stands at an address that is not held
  pub not-has_of_none :
      {p : Ptr} {xs : Cells} (a : Ptr) → Chain nodes stop p xs → nodes a ≡ none → has a xs ≡ false
  not-has_of_none a nil unheld = refl
  not-has_of_none a (cons {p} ne e out c) unheld = elim (Bool-cases (a == p)) [
    | inl s ↦ absurd (cc (unheld, e, ap nodes ((==_iff a p).0 s)))
    | inr s ↦ rw s (not-has_of_none a c unheld)
  ]

  -- a chain to an address that is not NULL does not begin at NULL
  pub start-ne : {p : Ptr} {xs : Cells} → Chain nodes stop p xs → stop ≢ null → p ≢ null
  start-ne nil s = s
  start-ne (cons ne e out c) s = ne

  pub eq_of_nil : {p : Ptr} → Chain nodes stop p [] → p ≡ stop
  eq_of_nil nil = refl

  -- two chains that meet
  pub append :
      {end p : Ptr} {ys xs : Cells}
      → Chain nodes stop p xs
      → Chain nodes end stop ys
      → ((a : Ptr) → has a xs ≡ true → has a ys ≡ false)
      → Chain nodes end p (xs ++ ys)
  append nil t apart = t
  append {ys} (cons {p} {xs} ne e out c) t apart =
      cons ne e (has-append p xs ys ∙ ground (arith, out, apart p))
        (append c t λ a i. apart a (ground arith))

-- A list that is not empty, at its last node.
pub record Snoc (nodes : Ptr → Option DataNode) (first : Ptr) (xs : Cells) : Type 0 where
  pub front : Cells
  pub last : Ptr
  pub d : ℕ
  pub is : xs ≡ front ++ (last, d) ∷ []
  pub chain : Chain nodes last first front
  pub ne_null : last ≢ null
  pub at : nodes last ≡ some (node d null)
  pub out : has last front ≡ false

pub snoc :
    {nodes : Ptr → Option DataNode} {p q : Ptr} {d : ℕ} {xs : Cells}
    → p ≢ null
    → nodes p ≡ some (node d q)
    → has p xs ≡ false
    → Chain nodes null q xs
    → Snoc nodes p ((p, d) ∷ xs)
snoc {p} {d} ne e out nil = record {
  front = [];
  last = p;
  d = d;
  is = refl;
  chain = nil;
  ne_null = ne;
  at = e;
  out = refl;
}
snoc {p} {d} ne e out (cons {p = r} {d = d'} {xs} ne' e' out' c) =
    let s = snoc ne' e' out' c in
    let apart : (has p s.front || has p ((s.last, s.d) ∷ [])) ≡ false =
      sym (has-append p s.front ((s.last, s.d) ∷ [])) ∙ ap (has p) (sym s.is) ∙ out in
    record {
      front = (p, d) ∷ s.front;
      last = s.last;
      d = s.d;
      is = ap (λ l. (p, d) ∷ l) s.is;
      chain = cons ne e (ground (arith, apart)) s.chain;
      ne_null = s.ne_null;
      at = s.at;
      out = ground (arith, apart, s.out);
    }

-- The loop of FindNodeTail stops at the last node, given a round for each node.
pub tail_loop-ok :
    (k : ℕ) (m : Memory) {a p : Ptr} {d : ℕ} {xs : Cells}
    → Chain m.nodes a p xs
    → a ≢ null
    → m.nodes a ≡ some (node d null)
    → length xs < k
    → tail_loop k p m ≡ ok a m
unfolding tail_loop
tail_loop-ok zero m c ne e fuel = absurd (omega arith)
tail_loop-ok (suc k) m nil ne e fuel = rw (load-ok m ne e)
tail_loop-ok (suc k) m {a} (cons {q} ne' e' out c) ne e fuel =
    let more : (q == null) ≡ false = null-test (start-ne c ne) in
    rw (load-ok m ne' e', more) (tail_loop-ok k m c ne e (omega arith))

-- At a last node that is freed the loop faults.
pub tail_loop-fault :
    (k : ℕ) (m : Memory) {a p : Ptr} {xs : Cells}
    → Chain m.nodes a p xs
    → a ≢ null
    → m.nodes a ≡ none
    → length xs < k
    → tail_loop k p m ≡ fault
unfolding tail_loop
tail_loop-fault zero m c ne e fuel = absurd (omega arith)
tail_loop-fault (suc k) m nil ne e fuel = rw (load-freed m ne e)
tail_loop-fault (suc k) m {a} (cons {q} ne' e' out c) ne e fuel =
    let more : (q == null) ≡ false = null-test (start-ne c ne) in
    rw (load-ok m ne' e', more) (tail_loop-fault k m c ne e (omega arith))
