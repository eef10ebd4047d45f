-- ===== src/Base/Lists.antt =====
-- Lists measured and indexed by native numbers, under the library's names.
use Prim.Native.Nat.{ℕ, zero, suc, ◌+◌, ◌-◌, ◌<◌, ◌≤◌}
use mathlib.Core.Path.{◌≡◌, refl, ap}
use mathlib.Core.Logic.{◌≢◌}
use mathlib.Core.List.{List, [], ◌∷◌, ◌++◌}
use mathlib.Core.Option.{Option, none, some}
use native.Mathlib.Nat.{zero-add, suc-add}
use native.Mathlib.Omega.{arith}

module _ {ℓ} {A : Type ℓ} where
  abbrev pub length : List A → ℕ
  length [] = 0
  length (x ∷ xs) = suc (length xs)

  -- A read out of bounds gives nothing.
  abbrev pub get_elem? : List A → ℕ → Option A
  get_elem? [] i = none
  get_elem? (x ∷ xs) zero = some x
  get_elem? (x ∷ xs) (suc i) = get_elem? xs i

  -- A write out of bounds changes nothing.
  abbrev pub set : List A → ℕ → A → List A
  set [] i v = []
  set (x ∷ xs) zero v = v ∷ xs
  set (x ∷ xs) (suc i) v = x ∷ set xs i v

  abbrev pub take : ℕ → List A → List A
  take zero xs = []
  take (suc n) [] = []
  take (suc n) (x ∷ xs) = x ∷ take n xs

  abbrev pub drop : ℕ → List A → List A
  drop zero xs = xs
  drop (suc n) [] = []
  drop (suc n) (x ∷ xs) = drop n xs

  abbrev pub replicate : ℕ → A → List A
  replicate zero a = []
  replicate (suc n) a = a ∷ replicate n a

  pub length-replicate : (n : ℕ) (a : A) → length (replicate n a) ≡ n
  length-replicate zero a = refl
  length-replicate (suc n) a = omega (arith, length-replicate n a)

  -- What holds of every element.
  abbrev pub All {κ} : (A → Type κ) → List A → Type κ
  All P [] = Unit
  All P (x ∷ xs) = P x × All P xs

module _ {ℓ} {A : Type ℓ} where
  pub length-append : (xs ys : List A) → length (xs ++ ys) ≡ length xs + length ys
  length-append [] ys = omega arith
  length-append (x ∷ xs) ys = omega (arith, length-append xs ys)

  pub length-set : (xs : List A) (i : ℕ) (v : A) → length (set xs i v) ≡ length xs
  length-set [] i v = refl
  length-set (x ∷ xs) zero v = refl
  length-set (x ∷ xs) (suc i) v = ap suc (length-set xs i v)

  pub get_elem?-set_self :
      (xs : List A) (i : ℕ) (v : A) → i < length xs → get_elem? (set xs i v) i ≡ some v
  get_elem?-set_self [] i v h = elim h [ ]
  get_elem?-set_self (x ∷ xs) zero v h = refl
  get_elem?-set_self (x ∷ xs) (suc i) v h = get_elem?-set_self xs i v (omega arith)

  pub get_elem?-set_ne :
      (xs : List A) {i j : ℕ} (v : A) → i ≢ j → get_elem? (set xs i v) j ≡ get_elem? xs j
  get_elem?-set_ne [] v h = refl
  get_elem?-set_ne (x ∷ xs) {i = zero} {j = zero} v h = absurd (h refl)
  get_elem?-set_ne (x ∷ xs) {i = zero} {j = suc j} v h = refl
  get_elem?-set_ne (x ∷ xs) {i = suc i} {j = zero} v h = refl
  get_elem?-set_ne (x ∷ xs) {i = suc i} {j = suc j} v h = get_elem?-set_ne xs v (λ e. h (ap suc e))

  pub get_elem?-in_bounds :
      (xs : List A) (i : ℕ) → i < length xs → (a : A) × (get_elem? xs i ≡ some a)
  get_elem?-in_bounds [] i h = elim h [ ]
  get_elem?-in_bounds (x ∷ xs) zero h = (x, refl)
  get_elem?-in_bounds (x ∷ xs) (suc i) h = get_elem?-in_bounds xs i (omega arith)

pub some_pair {ℓ κ} :
    {A : Type ℓ} {B : Type κ} {a a' : A} {b b' : B}
    → ◌≡◌ {A = Option (A × B)} (some (a, b)) (some (a', b'))
    → (a ≡ a') × (b ≡ b')
some_pair h = (cc, cc)

module _ {ℓ} {A : Type ℓ} where
  -- Values written over the start of a buffer, and from an index on; those that do not fit are lost.
  abbrev pub overlay : List A → List A → List A
  overlay [] buf = buf
  overlay (x ∷ xs) [] = []
  overlay (x ∷ xs) (c ∷ cs) = x ∷ overlay xs cs

  abbrev pub write_at : ℕ → List A → List A → List A
  write_at zero xs buf = overlay xs buf
  write_at (suc i) xs [] = []
  write_at (suc i) xs (c ∷ cs) = c ∷ write_at i xs cs

  pub length-write_at : (i : ℕ) (xs buf : List A) → length (write_at i xs buf) ≡ length buf
  length-write_at zero [] buf = refl
  length-write_at zero (x ∷ xs) [] = refl
  length-write_at zero (x ∷ xs) (c ∷ cs) = ap suc (length-write_at zero xs cs)
  length-write_at (suc i) xs [] = refl
  length-write_at (suc i) xs (c ∷ cs) = ap suc (length-write_at i xs cs)

  -- One write behind another.
  pub write_at_twice :
      (i k : ℕ) (xs ys buf : List A)
      → k ≡ i + length xs
      → write_at k ys (write_at i xs buf) ≡ write_at i (xs ++ ys) buf
  write_at_twice zero zero [] ys buf e = refl
  write_at_twice zero (suc k) [] ys buf e = absurd (omega arith)
  write_at_twice zero zero (x ∷ xs) ys buf e = absurd (omega arith)
  write_at_twice zero (suc k) (x ∷ xs) ys [] e = refl
  write_at_twice zero (suc k) (x ∷ xs) ys (c ∷ cs) e =
      ap (λ l. x ∷ l) (write_at_twice zero k xs ys cs (omega arith))
  write_at_twice (suc i) zero xs ys buf e = absurd (omega arith)
  write_at_twice (suc i) (suc k) xs ys [] e = refl
  write_at_twice (suc i) (suc k) xs ys (c ∷ cs) e =
      ap (λ l. c ∷ l) (write_at_twice i k xs ys cs (omega arith))

  pub take-overlay :
      (xs buf : List A) → length xs ≤ length buf → take (length xs) (overlay xs buf) ≡ xs
  take-overlay [] buf h = refl
  take-overlay (x ∷ xs) [] h = absurd (omega arith)
  take-overlay (x ∷ xs) (c ∷ cs) h = ap (λ l. x ∷ l) (take-overlay xs cs (omega arith))

  pub length-take : (n : ℕ) (xs : List A) → n ≤ length xs → length (take n xs) ≡ n
  length-take zero xs h = refl
  length-take (suc n) [] h = absurd (omega arith)
  length-take (suc n) (x ∷ xs) h = ap suc (length-take n xs (omega arith))

  pub length-drop : (n : ℕ) (xs : List A) → length (drop n xs) ≡ length xs - n
  length-drop zero xs = omega arith
  length-drop (suc n) [] = omega arith
  length-drop (suc n) (x ∷ xs) = omega (arith, length-drop n xs)

  -- The first `n`, then `k` of those behind them.
  pub take_more : (n k : ℕ) (xs : List A) → take n xs ++ take k (drop n xs) ≡ take (n + k) xs
  take_more zero k xs = rw (zero-add k)
  take_more (suc n) zero [] = rw (suc-add n 0)
  take_more (suc n) (suc k) [] = rw (suc-add n (suc k))
  take_more (suc n) k (x ∷ xs) = rw (suc-add n k) (ap (λ l. x ∷ l) (take_more n k xs))

  pub take-take : (n k : ℕ) (xs : List A) → k ≤ n → take k (take n xs) ≡ take k xs
  take-take n zero xs h = refl
  take-take zero (suc k) xs h = absurd (omega arith)
  take-take (suc n) (suc k) [] h = refl
  take-take (suc n) (suc k) (x ∷ xs) h = ap (λ l. x ∷ l) (take-take n k xs (omega arith))

  pub take_all : (xs : List A) → take (length xs) xs ≡ xs
  take_all [] = refl
  take_all (x ∷ xs) = ap (λ l. x ∷ l) (take_all xs)

-- Two splits of one list at the same place.
pub append_cancel {ℓ} :
    {A : Type ℓ} (xs ys : List A) {us vs : List A}
    → xs ++ us ≡ ys ++ vs
    → length xs ≡ length ys
    → (xs ≡ ys) × (us ≡ vs)
append_cancel [] [] h e = (refl, h)
append_cancel [] (y ∷ ys) h e = absurd (omega arith)
append_cancel (x ∷ xs) [] h e = absurd (omega arith)
append_cancel {A} (x ∷ xs) (y ∷ ys) {us} {vs} h e =
    let rest : xs ++ us ≡ ys ++ vs = cc in
    let (p, q) = append_cancel xs ys rest (omega arith) in (cc, q)

pub some_eq {ℓ} : {A : Type ℓ} {a b : A} → ◌≡◌ {A = Option A} (some a) (some b) → a ≡ b
some_eq h = cc

module _ {ℓ} {A : Type ℓ} where
  pub take-append_front : (k : ℕ) (xs ys : List A) → k ≤ length xs → take k (xs ++ ys) ≡ take k xs
  take-append_front zero xs ys h = refl
  take-append_front (suc k) [] ys h = absurd (omega arith)
  take-append_front (suc k) (x ∷ xs) ys h =
      ap (λ l. x ∷ l) (take-append_front k xs ys (omega arith))

  pub take-append_back :
      (n k : ℕ) (xs ys : List A) → n ≡ length xs + k → take n (xs ++ ys) ≡ xs ++ take k ys
  take-append_back n k [] ys h = ap (λ m. take m ys) (omega arith)
  take-append_back zero k (x ∷ xs) ys h = absurd (omega arith)
  take-append_back (suc n) k (x ∷ xs) ys h =
      ap (λ l. x ∷ l) (take-append_back n k xs ys (omega arith))

  pub take-drop : (k : ℕ) (xs : List A) → xs ≡ take k xs ++ drop k xs
  take-drop zero xs = refl
  take-drop (suc k) [] = refl
  take-drop (suc k) (x ∷ xs) = ap (λ l. x ∷ l) (take-drop k xs)

  pub take_over : (n : ℕ) (xs : List A) → length xs ≤ n → take n xs ≡ xs
  take_over zero [] h = refl
  take_over zero (x ∷ xs) h = absurd (omega arith)
  take_over (suc n) [] h = refl
  take_over (suc n) (x ∷ xs) h = ap (λ l. x ∷ l) (take_over n xs (omega arith))

  -- A write where there is an element.
  pub get_elem?-set_there :
      (xs : List A) (i : ℕ) (v : A) {a : A}
      → get_elem? xs i ≡ some a
      → get_elem? (set xs i v) i ≡ some v
  get_elem?-set_there [] i v h = absurd (cc)
  get_elem?-set_there (x ∷ xs) zero v h = refl
  get_elem?-set_there (x ∷ xs) (suc i) v h = get_elem?-set_there xs i v h
