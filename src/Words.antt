-- ===== src/Words.antt =====
-- Machine words: the wrapping and the saturating operations of the standard library, and
-- `is_power_of_two`, on numbers below 2 ^ w.
use native.Mathlib.Nat.{
  pow-suc, add-zero, add-suc, mul_assoc, mul-mod_left, dvd_of_mod-eq-zero, mod-mod_of_dvd,
}
use rust_nano_vm.Prelude.{
  ℕ, zero, suc, ◌+◌, ◌-◌, ◌*◌, ◌%◌, ◌^◌, ◌≤◌, ◌<◌, ◌≡◌, ap, ◌∙◌, arith, Bool, true, false, ◌||◌,
  ◌==◌, ==→eq, Bool-cases, inl, inr,
}

-- `wrapping_add` and `wrapping_sub` at width `w`.
abbrev pub wrapping_add : ℕ → ℕ → ℕ → ℕ
wrapping_add w a b = (a + b) % 2 ^ w

abbrev pub wrapping_sub : ℕ → ℕ → ℕ → ℕ
wrapping_sub w a b = (a + 2 ^ w - b) % 2 ^ w

-- `is_power_of_two` on a `w`-bit number: it is one of the powers 2 ^ 0 .. 2 ^ (w - 1).
unfoldable pub is_power_of_two : ℕ → ℕ → Bool
is_power_of_two zero n = false
is_power_of_two (suc k) n = (n == 2 ^ k) || is_power_of_two k n

pub is_power_of_two-pow : (w n : ℕ) → is_power_of_two w n ≡ true → (k : ℕ) × (k < w) × (n ≡ 2 ^ k)
unfolding is_power_of_two
is_power_of_two-pow zero n h = cc
is_power_of_two-pow (suc w) n h = elim (Bool-cases (n == 2 ^ w)) [
  | inl e ↦ (w, omega arith, ==→eq _ _ e)
  | inr e ↦ let (k, lt, eq) = is_power_of_two-pow w n (rw e at h) in (k, omega arith, eq)
]

pow-add : (j k : ℕ) → 2 ^ (j + k) ≡ 2 ^ j * 2 ^ k
pow-add j zero = rw (add-zero j) (omega arith)
pow-add j (suc k) =
    rw (add-suc j k, pow-suc 2 (j + k), pow-suc 2 k, pow-add j k) (mul_assoc (2 ^ j) (2 ^ k) 2)

power_divides : (w k : ℕ) → k ≤ w → 2 ^ w % 2 ^ k ≡ 0
power_divides w k h =
    let split : w ≡ (w - k) + k = omega arith in
    ap (λ (n : ℕ). 2 ^ n % 2 ^ k) split
    ∙ ap (λ (n : ℕ). n % 2 ^ k) (pow-add (w - k) k)
    ∙ mul-mod_left (2 ^ (w - k)) (2 ^ k)

-- A u16 counter that wraps still counts modulo a power of two.
pub wrap-mod : (n x : ℕ) → is_power_of_two 16 n ≡ true → x % 2 ^ 16 % n ≡ x % n
wrap-mod n x h =
    let (k, lt, e) = is_power_of_two-pow 16 n h in
    let divides : 2 ^ 16 % 2 ^ k ≡ 0 = power_divides 16 k (omega arith) in
    rw e (mod-mod_of_dvd (2 ^ k) x (dvd_of_mod-eq-zero (2 ^ k) divides))

pub one_le_pow : (k : ℕ) → 1 ≤ 2 ^ k
one_le_pow zero = omega arith
one_le_pow (suc k) = omega (arith, pow-suc 2 k, one_le_pow k)

pub is_power_of_two-pos : (w n : ℕ) → is_power_of_two w n ≡ true → 0 < n
is_power_of_two-pos w n h =
    let (k, lt, e) = is_power_of_two-pow w n h in omega (arith, one_le_pow k)
