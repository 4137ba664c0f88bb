-- ===== src/Prelude/Bits.antt =====
-- Masks and powers of two: `x & (2 ^ k - 1)` is `x % 2 ^ k`, and the 32-bit wrap does not change it.
use Prim.Native.Nat.{
  ℕ, zero, suc, ◌+◌, ◌-◌, ◌*◌, ◌/◌, ◌%◌, ◌^◌, ◌≤◌, ◌<◌, ◌∣◌, min, bit_and, digits, bit_and-bitwise,
}
use mathlib.Core.Path.{◌≡◌, ap, ◌∙◌, sym, subst}
use native.Mathlib.Omega.{arith}
use native.Mathlib.Nat.{
  pow-suc, one-le-pow, mod-lt, zero-mod, div-add-mod', mod-eq_of_lt, add-mul-mod_self_right,
  mod-mod_of_dvd, dvd-mul_right_of_dvd, dvd_refl,
}

pub two-pow_pos : (k : ℕ) → 0 < 2 ^ k
two-pow_pos k = one-le-pow k 2 (omega arith)

-- The low k + 1 bits are the low k bits of the half, and the last bit.
pub mod-two-pow-suc : (a k : ℕ) → a % 2 ^ suc k ≡ (a / 2 % 2 ^ k) * 2 + a % 2
mod-two-pow-suc a k =
    ap (λ t. t % 2 ^ suc k) split
    ∙ add-mul-mod_self_right ((a / 2 % 2 ^ k) * 2 + a % 2) (a / 2 / 2 ^ k) (2 ^ suc k)
    ∙ mod-eq_of_lt (omega (arith, pow-suc 2 k, mod-lt (a / 2) (two-pow_pos k)))
  where
    split : a ≡ (a / 2 % 2 ^ k) * 2 + a % 2 + a / 2 / 2 ^ k * 2 ^ suc k
    split =
        omega (arith, ap (λ (t : ℕ). a / 2 / 2 ^ k * t) (pow-suc 2 k), div-add-mod' (a / 2) (2 ^ k))

abbrev and_rounds : ℕ → ℕ → ℕ → ℕ
and_rounds n a b = digits (λ b. zero) min n a b

and_rounds-mask : (n k a : ℕ) → a ≤ n → and_rounds n a (2 ^ k - 1) ≡ a % 2 ^ k
and_rounds-mask zero k zero h = sym (zero-mod (2 ^ k))
and_rounds-mask zero k (suc a) h = absurd (omega arith)
and_rounds-mask (suc n) k zero h = sym (zero-mod (2 ^ k))
and_rounds-mask (suc n) zero (suc a) h =
    omega (arith, and_rounds-mask n 0 (suc a / 2) (omega arith))
and_rounds-mask (suc n) (suc k) (suc a) h =
    let half : (2 ^ suc k - 1) / 2 ≡ 2 ^ k - 1 = omega (arith, pow-suc 2 k, two-pow_pos k) in
    let odd : (2 ^ suc k - 1) % 2 ≡ 1 = omega (arith, pow-suc 2 k, two-pow_pos k) in
    rw (half, odd)
      (omega (arith, and_rounds-mask n k (suc a / 2) (omega arith), mod-two-pow-suc (suc a) k))

pub bit_and-mask : (k a : ℕ) → bit_and a (2 ^ k - 1) ≡ a % 2 ^ k
bit_and-mask k a = bit_and-bitwise a (2 ^ k - 1) ∙ and_rounds-mask a k a (omega arith)

two-pow-dvd-add : (d k : ℕ) → 2 ^ k ∣ 2 ^ (d + k)
two-pow-dvd-add zero k = let e : zero + k ≡ k = omega arith in rw e (dvd_refl (2 ^ k))
two-pow-dvd-add (suc d) k =
    let e : suc d + k ≡ suc (d + k) = omega arith in
    rw (e, pow-suc 2 (d + k)) (dvd-mul_right_of_dvd _ (two-pow-dvd-add d k) 2)

pub two-pow-dvd : (k n : ℕ) → k ≤ n → 2 ^ k ∣ 2 ^ n
two-pow-dvd k n h = subst (λ m. 2 ^ k ∣ 2 ^ m) (omega arith) (two-pow-dvd-add (n - k) k)

-- An index that wraps at 2 ^ n still has its low k bits, for k up to n.
pub mod-mod-two-pow : (k n x : ℕ) → k ≤ n → x % 2 ^ n % 2 ^ k ≡ x % 2 ^ k
mod-mod-two-pow k n x h = mod-mod_of_dvd _ x (two-pow-dvd k n h)
