-- ===== src/Relay/Reconnect/Runs.antt =====
-- relay/reconnect.go with tenths in place of Float64.
use tunnelmanager.Prelude.{
  ◌*◌, ◌+◌, ◌-◌, ◌/◌, ◌^◌, ◌∙◌, ◌≡◌, ◌≤◌, ap, arith, false, ltb, suc, sym, zero, ℕ,
}
use native.Mathlib.Nat.{mul-mul-mul_comm, mul_comm, mul_assoc, pow-succ', pow-le-pow_right}
use tunnelmanager.Relay.Reconnect.{Floats, default_backoff, backoff_delay}
use tunnelmanager.Relay.Reconnect.Bounds.{IsRounding, backoff_delay-bounds, IsFraction}

instance abbrev tenths : Floats ℕ
tenths = record {
  of_int = λ a. a * 10;
  to_int = λ x. x / 10;
  mul = λ x y. x * y / 10;
  add = λ x y. x + y;
  sub = λ x y. x - y;
  gt = λ x y. ltb y x;
}

gt_false : (x y : ℕ) → ltb y x ≡ false → x ≤ y
gt_false x y h = ground arith

le_false : (x y : ℕ) → x ≤ y → ltb y x ≡ false
le_false x y h = ground arith

mul_le : (x y z : ℕ) → x ≤ y → x * z ≤ y * z
mul_le x y z h = grind arith

div_le_div : (a b : ℕ) → a ≤ b → a / 10 ≤ b / 10
div_le_div a b h = omega arith

-- Tenths of at most 2 ^ k.
abbrev TenthsWithin : ℕ → ℕ → Type 0
TenthsWithin k x = x ≤ 10 * 2 ^ k

pow-add : (k l : ℕ) → 2 ^ (k + l) ≡ 2 ^ k * 2 ^ l
pow-add zero l =
    let e : 0 + l ≡ l = omega arith in
    ap (λ (n : ℕ). 2 ^ n) e ∙ (let f : 2 ^ l ≡ 1 * 2 ^ l = omega arith in f)
pow-add (suc k) l =
    let n : suc k + l ≡ suc (k + l) = omega arith in
    let e : 2 ^ (suc k + l) ≡ 2 * 2 ^ (k + l) = ap (λ (i : ℕ). 2 ^ i) n ∙ pow-succ' 2 (k + l) in
    let f : 2 ^ suc k ≡ 2 * 2 ^ k = pow-succ' 2 k in
    e ∙ rw (pow-add k l, f) (sym (mul_assoc 2 (2 ^ k) (2 ^ l)))

pow_le : (k l : ℕ) → k ≤ l → 2 ^ k ≤ 2 ^ l
pow_le k l h = pow-le-pow_right (omega arith) h

product : (k l x y : ℕ) → x ≤ 10 * 2 ^ k → y ≤ 10 * 2 ^ l → x * y / 10 ≤ 10 * 2 ^ (k + l)
product k l x y h g =
    let p : x * y ≤ 10 * 2 ^ k * y = mul_le x (10 * 2 ^ k) y h in
    let q : y * (10 * 2 ^ k) ≤ 10 * 2 ^ l * (10 * 2 ^ k) = mul_le y (10 * 2 ^ l) (10 * 2 ^ k) g in
    let r : 10 * 2 ^ l * (10 * 2 ^ k) ≡ 100 * 2 ^ (k + l) =
      mul-mul-mul_comm 10 (2 ^ l) 10 (2 ^ k)
      ∙ ap (λ (n : ℕ). 100 * n) (mul_comm (2 ^ l) (2 ^ k) ∙ sym (pow-add k l)) in
    let c : 10 * 2 ^ k * y ≡ y * (10 * 2 ^ k) = mul_comm (10 * 2 ^ k) y in omega arith

tenths-IsRounding : IsRounding ℕ TenthsWithin
tenths-IsRounding = record {
  within-of_int = λ k a h g. omega arith;
  within_mono = λ k l x h g. let p = pow_le k l h in omega arith;
  within-mul = λ k l x y h g i. product k l x y g i;
  within-add = λ k x y h g i. rw (pow-succ' 2 k) (omega arith);
  within-sub = λ k x y h g i. rw (pow-succ' 2 k) (omega arith);
  double = λ a. omega arith;
  mul_one = λ a. omega arith;
  of_int_mono = λ a b h. le_false (a * 10) (b * 10) (omega arith);
  of_int_antisym = λ a b h g. ground arith;
  mul_comm = λ k x y h g i. ap (λ (n : ℕ). n / 10) (mul_comm x y);
  mul_mono = λ k x y z h g i u v w.
      le_false (x * z / 10) (y * z / 10)
        (div_le_div (x * z) (y * z) (mul_le x y z (gt_false x y w)));
  mul_nonneg = λ k x y h g i u v. le_false 0 (x * y / 10) (omega arith);
  add_mono = λ k x y z h g i u v. le_false (x + y) (x + z) (let w = gt_false y z v in omega arith);
  add_zero = λ k x h g. le_false x (x + 0) (omega arith);
  sub_nonneg = λ k x y h g i u. le_false 0 (x - y) (omega arith);
  le_trans = λ k x y z h g i u v.
      le_false x z (let p = gt_false x y u in let q = gt_false y z v in omega arith);
  to_int_mono = λ x y h g u v. let k = gt_false x y v in omega arith;
}

fraction : (x : ℕ) → x ≤ 10 → IsFraction tenths-IsRounding x
fraction x h = record {
  number = omega arith;
  nonneg = le_false 0 x (omega arith);
  at_most_one = le_false x 10 h;
}

backoff_delay-bounds_example :
    (24_000_000_000 ≤ backoff_delay {F = ℕ} 5 (default_backoff 2) 7)
    × (backoff_delay {F = ℕ} 5 (default_backoff 2) 7 ≤ 36_000_000_000)
unfolding backoff_delay
backoff_delay-bounds_example =
    backoff_delay-bounds tenths-IsRounding (default_backoff 2) 7 5 (omega arith)
      (fraction 2 (omega arith)) (fraction 5 (omega arith))
