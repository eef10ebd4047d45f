-- ===== src/Ring/Fifo.antt =====
-- A valid ring stands for a bounded first-in first-out list of its cells, oldest first.
use native.Mathlib.Nat.{mod-eq_of_lt, mod-eq-sub-mod, add-zero}
use native.Mathlib.Decide.{dec_lt}
use osa_base.Base.{
  ℕ, zero, suc, ◌+◌, ◌-◌, ◌%◌, ◌<◌, ◌≡◌, ◌≢◌, refl, sym, ap, ap₂, ◌∙◌, Bool, Option, none, some,
  List, [], ◌∷◌, ◌++◌, arith, ltb, if◌then◌else◌, get_elem?, set, length, get_elem?-set_self,
  get_elem?-set_ne, get_elem?-in_bounds, u32, Bool-cases, ltb→lt, inl, inr,
}
use osa_base.Ring.{Ring, put_cell, drop_cell, attempt_put, attempt_get}
use osa_base.Ring.Invariant.{IsValid, next_start}

-- the specification: a list of at most `cap` values
module _ {ℓ} {A : Type ℓ} where
  unfoldable pub offer : ℕ → A → List A → Option (Unit {0} × List A)
  offer cap x xs = if ltb (length xs) cap then some (tt, xs ++ x ∷ []) else none

  unfoldable pub poll : Bool → List A → Option (Option A × List A)
  poll wanted [] = none
  poll wanted (x ∷ xs) = some ((if wanted then some x else none), xs)

  abbrev pub cons_some : Option A → List A → List A
  cons_some none xs = xs
  cons_some (some x) xs = x ∷ xs

  -- the `n` cells from index `h` on, going round at `len`
  abbrev pub stretch : List A → ℕ → ℕ → ℕ → List A
  stretch cells len h zero = []
  stretch cells len h (suc n) = cons_some (get_elem? cells h) (stretch cells len ((h + 1) % len) n)

  abbrev pub contents : Ring A → List A
  contents r = stretch r.queue r.len r.cur_rd r.count

  -- what an attempt leaves, seen as a list
  abbrev pub seen {κ} : {B : Type κ} → Option (B × Ring A) → Option (B × List A)
  seen none = none
  seen (some (b, r)) = some (b, contents r)

-- Fewer than `len` steps round the ring do not come back to where they began.
round-ne : (len h k : ℕ) → h < len → suc k < len → (h + suc k) % len ≢ h
round-ne len h k a b = elim (dec_lt (h + suc k) len) [
  | yes p ↦ omega (arith, mod-eq_of_lt p)
  | no p ↦ omega (
    arith,
    mod-eq-sub-mod {n = h + suc k} {m = len} (omega arith),
    mod-eq_of_lt {n = h + suc k - len} {m = len} (omega arith),
  )
]

module _ {ℓ} {A : Type ℓ} where
  -- A write behind a stretch makes it longer by that cell.
  stretch-set :
      (cells : List A) (len : ℕ) (x : A) (n h i : ℕ)
      → length cells ≡ len
      → h < len
      → n < len
      → i ≡ (h + n) % len
      → stretch (set cells i x) len h (suc n) ≡ stretch cells len h n ++ x ∷ []
  stretch-set cells len x zero h i hs hh hn e =
      rw (e, add-zero, mod-eq_of_lt hh, get_elem?-set_self cells h x (omega arith))
  stretch-set cells len x (suc n) h i hs hh hn e =
      let (a, p) = get_elem?-in_bounds cells h (omega arith) in
      let apart : i ≢ h = λ q. round-ne len h n hh hn (sym e ∙ q) in
      let ih = stretch-set cells len x n ((h + 1) % len) i hs (omega arith) (omega arith) (
        e
        ∙ next_start h len (suc n) (omega arith) (omega arith)
        ∙ ap (λ m. ((h + 1) % len + m) % len) (omega arith)) in
      let q : get_elem? (set cells i x) h ≡ some a = get_elem?-set_ne cells x apart ∙ p in
      ap₂ cons_some q ih
      ∙ ap (λ o. cons_some o (stretch cells len ((h + 1) % len) n) ++ x ∷ []) (sym p)

  length-stretch :
      (cells : List A) (len h n : ℕ)
      → length cells ≡ len
      → h < len
      → length (stretch cells len h n) ≡ n
  length-stretch cells len h zero hs hh = refl
  length-stretch cells len h (suc n) hs hh =
      let (a, p) = get_elem?-in_bounds cells h (omega arith) in
      ap (λ o. length (cons_some o (stretch cells len ((h + 1) % len) n))) p
      ∙ ap suc (length-stretch cells len ((h + 1) % len) n hs (omega arith))

  pub length-contents : {r : Ring A} → IsValid r → length (contents r) ≡ r.count
  length-contents {r} v = length-stretch r.queue r.len r.cur_rd r.count v.cells v.rd_in

  -- A put appends, and a get takes the oldest cell off.
  pub contents-put_cell :
      {r : Ring A} (x : A)
      → IsValid r
      → r.count < r.len
      → contents (put_cell x r) ≡ contents r ++ x ∷ []
  unfolding put_cell
  contents-put_cell {r} x v h =
      let c : u32 (r.count + 1) ≡ suc r.count = omega arith in
      rw c (stretch-set r.queue r.len x r.count r.cur_rd r.cur_wr v.cells v.rd_in h v.wr_at)

  pub contents-drop_cell :
      {r : Ring A}
      → IsValid r
      → 0 < r.count
      → (x : A) × (get_elem? r.queue r.cur_rd ≡ some x) × (contents r ≡ x ∷ contents (drop_cell r))
  unfolding drop_cell
  contents-drop_cell {r} v h =
      let (x, p) = get_elem?-in_bounds r.queue r.cur_rd (omega arith) in
      let c : r.count ≡ suc (r.count - 1) = omega arith in
      let w : u32 (r.cur_rd + 1) ≡ r.cur_rd + 1 = omega arith in
      let rest = stretch r.queue r.len ((r.cur_rd + 1) % r.len) (r.count - 1) in
      (
        x,
        p,
        ap (stretch r.queue r.len r.cur_rd) c
            ∙ ap (λ o. cons_some o rest) p
            ∙ ap (λ m. x ∷ stretch r.queue r.len (m % r.len) (r.count - 1)) (sym w),
      )

  -- An attempt to put is the specification's `offer`, and one to get its `poll`.
  pub attempt_put_refines :
      (x : A) {r : Ring A} → IsValid r → seen (attempt_put x r) ≡ offer r.len x (contents r)
  unfolding attempt_put offer
  attempt_put_refines x {r} v = elim (Bool-cases (ltb r.count r.len)) [
    | inl p ↦
        rw (p, length-contents v, p)
          (ap (λ xs. some (tt, xs)) (contents-put_cell x v (ltb→lt _ _ p)))
    | inr p ↦ rw (p, length-contents v, p)
  ]

  pub attempt_get_refines :
      (wanted : Bool) {r : Ring A}
      → IsValid r
      → seen (attempt_get wanted r) ≡ poll wanted (contents r)
  unfolding attempt_get poll
  attempt_get_refines wanted {r} v = elim (Bool-cases (ltb 0 r.count)) [
    | inl p ↦
        let (x, e, c) = contents-drop_cell v (ltb→lt _ _ p) in rw (p, e) (ap (poll wanted) (sym c))
    | inr p ↦
        let z : r.count ≡ 0 = ground arith in
        rw p (ap (λ n. poll wanted (stretch r.queue r.len r.cur_rd n)) (sym z))
  ]
