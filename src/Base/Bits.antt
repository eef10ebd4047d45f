-- ===== src/Base/Bits.antt =====
-- The binary digits of numbers, for the masks that C code tests with `&` and sets with `|`.
use Prim.Native.Nat.{bit_and, bit_or, bit_and-bitwise, bit_or-bitwise, bitwise, digits, min, max}
use osa_base.Base.{ℕ, zero, suc, ◌+◌, ◌*◌, ◌/◌, ◌%◌, ◌≤◌, ◌≡◌, refl, sym, ap, ◌∙◌, arith}

digits_fuel :
    (z : ℕ → ℕ) (f : ℕ → ℕ → ℕ) (n m a b : ℕ) → a ≤ n → a ≤ m → digits z f n a b ≡ digits z f m a b
digits_fuel z f zero zero a b p q = refl
digits_fuel z f zero (suc m) zero b p q = refl
digits_fuel z f zero (suc m) (suc a) b p q = absurd (omega arith)
digits_fuel z f (suc n) zero zero b p q = refl
digits_fuel z f (suc n) zero (suc a) b p q = absurd (omega arith)
digits_fuel z f (suc n) (suc m) zero b p q = refl
digits_fuel z f (suc n) (suc m) (suc a) b p q =
    ap (λ d. d * 2 + f (suc a % 2) (b % 2))
      (digits_fuel z f n m (suc a / 2) (b / 2) (omega arith) (omega arith))

and_bits : (a b : ℕ) → bit_and a b ≡ bitwise (λ _. zero) min a b
and_bits a b = λ i. bit_and-bitwise a b i

or_bits : (a b : ℕ) → bit_or a b ≡ bitwise (λ b'. b') max a b
or_bits a b = λ i. bit_or-bitwise a b i

-- both operations, digit by digit
pub bit_and_halve : (a b : ℕ) → bit_and a b ≡ bit_and (a / 2) (b / 2) * 2 + min (a % 2) (b % 2)
bit_and_halve zero b = rw (and_bits 0 b, and_bits (0 / 2) (b / 2)) (omega arith)
bit_and_halve (suc a) b =
    and_bits (suc a) b
    ∙ ap (λ d. d * 2 + min (suc a % 2) (b % 2))
        (digits_fuel (λ _. zero) min a (suc a / 2) (suc a / 2) (b / 2) (omega arith) (omega arith)
          ∙ sym (and_bits (suc a / 2) (b / 2)))

pub bit_or_halve : (a b : ℕ) → bit_or a b ≡ bit_or (a / 2) (b / 2) * 2 + max (a % 2) (b % 2)
bit_or_halve zero b = rw (or_bits 0 b, or_bits (0 / 2) (b / 2)) (omega arith)
bit_or_halve (suc a) b =
    or_bits (suc a) b
    ∙ ap (λ d. d * 2 + max (suc a % 2) (b % 2))
        (digits_fuel (λ b'. b') max a (suc a / 2) (suc a / 2) (b / 2) (omega arith) (omega arith)
          ∙ sym (or_bits (suc a / 2) (b / 2)))

-- A mask that is set is there.
absorb : (n a b : ℕ) → a + b ≤ n → bit_and (bit_or a b) b ≡ b
absorb zero zero zero h = refl
absorb zero zero (suc b) h = absurd (omega arith)
absorb zero (suc a) b h = absurd (omega arith)
absorb (suc n) zero zero h = refl
absorb (suc n) a b h =
    let ih = absorb n (a / 2) (b / 2) (omega arith) in
    let x = bit_or (a / 2) (b / 2) in
    let e = bit_or_halve a b in
    let q : bit_or a b / 2 ≡ x = omega arith in
    let r : bit_or a b % 2 ≡ max (a % 2) (b % 2) = omega arith in
    rw (bit_and_halve (bit_or a b) b, q, r, ih) (omega arith)

pub bit_and-bit_or : (a b : ℕ) → bit_and (bit_or a b) b ≡ b
bit_and-bit_or a b = absorb (a + b) a b (omega arith)

and_within : (n a b : ℕ) → a ≤ n → bit_and a b ≤ b
and_within n zero b h = let e : bit_and 0 b ≡ 0 = and_bits 0 b in omega arith
and_within zero (suc a) b h = absurd (omega arith)
and_within (suc n) (suc a) b h =
    let ih = and_within n (suc a / 2) (b / 2) (omega arith) in
    let e = bit_and_halve (suc a) b in omega arith

pub bit_and_le : (a b : ℕ) → bit_and a b ≤ b
bit_and_le a b = and_within a a b (omega arith)
