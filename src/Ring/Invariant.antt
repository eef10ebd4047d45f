-- ===== src/Ring/Invariant.antt =====
-- The representation invariant of a ring of cells.
use native.Mathlib.Nat.{mod-add-mod}
use osa_base.Base.{
  ℕ, ◌+◌, ◌-◌, ◌%◌, ◌^◌, ◌≤◌, ◌<◌, ◌≡◌, ◌∙◌, refl, sym, ap, subst, Bool, false, Option, none, some,
  arith, length, length-set, u32, ltb, lt→ltb, get_elem?, if◌then◌else◌,
}
use osa_base.Ring.{Ring, put_cell, drop_cell, attempt_put, attempt_get}

pub record IsValid {ℓ} {A : Type ℓ} (r : Ring A) : Type 0 where
  pub cells : length r.queue ≡ r.len
  pub some_cells : 0 < r.len
  pub small : r.len < 2 ^ 32
  pub rd_in : r.cur_rd < r.len
  pub wr_at : r.cur_wr ≡ (r.cur_rd + r.count) % r.len
  pub count_in : r.count ≤ r.len

-- Going one cell on at the end of a stretch, and at its start.
next_end : (a n c : ℕ) → 0 < n → ((a + c) % n + 1) % n ≡ (a + (c + 1)) % n
next_end a n c h = mod-add-mod (a + c) n 1 ∙ ap (λ k. k % n) (omega arith)

pub next_start : (a n c : ℕ) → 0 < n → 0 < c → (a + c) % n ≡ ((a + 1) % n + (c - 1)) % n
next_start a n c h k = ap (λ m. m % n) (omega arith) ∙ sym (mod-add-mod (a + 1) n (c - 1))

module _ {ℓ} {A : Type ℓ} where
  pub wr_in : {r : Ring A} → IsValid r → r.cur_wr < r.len
  wr_in v = omega arith

  pub put_cell-IsValid : {r : Ring A} (x : A) → IsValid r → r.count < r.len → IsValid (put_cell x r)
  unfolding put_cell
  put_cell-IsValid {r} x v h = record {
    cells = omega (arith, length-set r.queue r.cur_wr x);
    some_cells = v.some_cells;
    small = v.small;
    rd_in = v.rd_in;
    wr_at =
        let a : u32 (r.cur_wr + 1) ≡ r.cur_wr + 1 = omega arith in
        let b : u32 (r.count + 1) ≡ r.count + 1 = omega arith in
        rw (a, b, v.wr_at) (next_end r.cur_rd r.len r.count v.some_cells);
    count_in = omega arith;
  }

  pub drop_cell-IsValid : {r : Ring A} → IsValid r → 0 < r.count → IsValid (drop_cell r)
  unfolding drop_cell
  drop_cell-IsValid {r} v h = record {
    cells = v.cells;
    some_cells = v.some_cells;
    small = v.small;
    rd_in = omega arith;
    wr_at =
        let a : u32 (r.cur_rd + 1) ≡ r.cur_rd + 1 = omega arith in
        rw (a, v.wr_at) (next_start r.cur_rd r.len r.count v.some_cells h);
    count_in = omega arith;
  }

  -- What a successful attempt did.
  pub attempt_put-some :
      (x : A) (r : Ring A) {r' : Ring A} {u : Unit {0}}
      → attempt_put x r ≡ some (u, r')
      → (r.count < r.len) × (r' ≡ put_cell x r)
  unfolding attempt_put
  attempt_put-some x r e = ground arith

  pub attempt_get-some :
      (wanted : Bool) (r : Ring A) {r' : Ring A} {out : Option A}
      → attempt_get wanted r ≡ some (out, r')
      → (0 < r.count)
        × (out ≡ (if wanted then get_elem? r.queue r.cur_rd else none))
        × (r' ≡ drop_cell r)
  unfolding attempt_get
  attempt_get-some wanted r e = ground arith

  -- A put that succeeds keeps the invariant.
  pub attempt_put-IsValid :
      {r r' : Ring A} {u : Unit {0}} (x : A)
      → IsValid r
      → attempt_put x r ≡ some (u, r')
      → IsValid r'
  attempt_put-IsValid {r} x v e =
      let s = attempt_put-some x r e in subst IsValid (sym s.1) (put_cell-IsValid x v s.0)

  pub attempt_get-IsValid :
      {r r' : Ring A} (wanted : Bool) {out : Option A}
      → IsValid r
      → attempt_get wanted r ≡ some (out, r')
      → IsValid r'
  attempt_get-IsValid {r} wanted v e =
      let s = attempt_get-some wanted r e in subst IsValid (sym s.2) (drop_cell-IsValid v s.0)

  -- When an attempt succeeds, and when it does not.
  pub attempt_put_room :
      (x : A) (r : Ring A) → r.count < r.len → attempt_put x r ≡ some (tt, put_cell x r)
  unfolding attempt_put
  attempt_put_room x r h = rw (lt→ltb _ _ h)

  pub attempt_put_full : (x : A) (r : Ring A) → r.len ≤ r.count → attempt_put x r ≡ none
  unfolding attempt_put
  attempt_put_full x r h = let no : ltb r.count r.len ≡ false = ground arith in rw no

  pub attempt_get_value :
      (wanted : Bool) (r : Ring A)
      → 0 < r.count
      → attempt_get wanted r
        ≡ some ((if wanted then get_elem? r.queue r.cur_rd else none), drop_cell r)
  unfolding attempt_get
  attempt_get_value wanted r h = rw (lt→ltb _ _ h)

  pub attempt_get_empty : (wanted : Bool) (r : Ring A) → r.count ≡ 0 → attempt_get wanted r ≡ none
  unfolding attempt_get
  attempt_get_empty wanted r h = rw h

  pub len-put_cell : (x : A) (r : Ring A) → (put_cell x r).len ≡ r.len
  unfolding put_cell
  len-put_cell x r = refl

  pub len-drop_cell : (r : Ring A) → (drop_cell r).len ≡ r.len
  unfolding drop_cell
  len-drop_cell r = refl

  pub count-put_cell :
      (x : A) {r : Ring A} → IsValid r → r.count < r.len → (put_cell x r).count ≡ r.count + 1
  unfolding put_cell
  count-put_cell x v h = omega arith

  pub count-drop_cell : (r : Ring A) → (drop_cell r).count ≡ r.count - 1
  unfolding drop_cell
  count-drop_cell r = refl
