-- ===== src/Place.antt =====
-- Where a structure stands in a larger state: the `hndl` pointer of a call, as a pair of functions
-- that read and write the structure that it points to.
use osa_base.Base.{◌≡◌, sym, ap, Option, none, some, some_pair}

pub record Place {ℓ κ} (W : Type ℓ) (R : Type κ) : Type (ℓ ⊔ κ) where
  pub read : W → R
  pub write : W → R → W
  pub read-write : (w : W) (r : R) → read (write w r) ≡ r

-- the structure alone
abbrev pub whole {ℓ} : {R : Type ℓ} → Place R R
whole = record { read = λ r. r; write = λ _ r. r; read-write = λ _ r. λ i. r }

module _ {ℓ κ μ} {W : Type ℓ} {R : Type κ} {A : Type μ} where
  -- put a changed structure back
  abbrev pub put_back : Place W R → W → Option (A × R) → Option (A × W)
  put_back p w none = none
  put_back p w (some (a, r)) = some (a, p.write w r)

  -- an attempt on the structure, made where it stands
  abbrev pub attempt_at : Place W R → (R → Option (A × R)) → W → Option (A × W)
  attempt_at p attempt w = put_back p w (attempt (p.read w))

  pub put_back-some :
      (p : Place W R) (w : W) (o : Option (A × R)) {a : A} {w' : W}
      → put_back p w o ≡ some (a, w')
      → (r : R) × (o ≡ some (a, r)) × (w' ≡ p.write w r)
  put_back-some p w none h = absurd (cc)
  put_back-some p w (some (a, r)) h =
      (r, ap (λ b. some (b, r)) (some_pair h).0, sym (some_pair h).1)
