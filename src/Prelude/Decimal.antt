-- ===== src/Prelude/Decimal.antt =====
-- Decimal numbers as strconv writes them and, for 16 bits, reads them.
use Prim.Native.Nat.{ℕ, zero, suc, ◌+◌, ◌-◌, ◌*◌, ◌/◌, ◌%◌, ◌^◌, ◌<◌, ◌≤◌}
use mathlib.Core.Path.{◌≡◌, refl}
use mathlib.Core.Logic.{inl, inr}
use mathlib.Core.Option.{Option, none, some}
use mathlib.Core.List.{[], ◌∷◌, ◌++◌}
use native.Mathlib.Omega.{arith}
use tunnelmanager.Prelude.Tests.{ltb, ltb→lt, if◌then◌else◌, Bool-cases, Option-cases}
use tunnelmanager.Prelude.Lists.{length, length-append, All, All-append}
use tunnelmanager.Prelude.Text.{Bytes}

-- 20 digits are enough for 64 bits.
digits : ℕ → ℕ → Bytes
digits zero n = []
digits (suc fuel) n =
    let front = digits fuel (n / 10) in
    if ltb n 10 then (48 + n) ∷ [] else front ++ ((48 + n % 10) ∷ [])

-- strconv.Itoa of a number that is not negative.
unfoldable pub decimal : ℕ → Bytes
unfolding digits
decimal n = digits 20 n

digit_of : ℕ → Option ℕ
digit_of c = if ltb c 48 then none else if ltb 57 c then none else some (c - 48)

-- The value of digits behind those that make up `acc`.
value_of : ℕ → Bytes → Option ℕ
unfolding digit_of
value_of acc [] = some acc
value_of acc (c ∷ s) = elim (digit_of c) [ none ↦ none | some d ↦ value_of (acc * 10 + d) s ]

-- strconv.ParseUint(s, 10, 16).
unfoldable pub parse_u16 : Bytes → Option ℕ
unfolding value_of
parse_u16 [] = none
parse_u16 (c ∷ s) = elim (value_of 0 (c ∷ s)) [
  | none ↦ none
  | some n ↦ if ltb n (2 ^ 16) then some n else none
]

-- What a number of digits can write.
bound : ℕ → ℕ
bound zero = 1
bound (suc fuel) = 10 * bound fuel

value_of-append :
    (acc : ℕ) (s t : Bytes)
    → value_of acc (s ++ t) ≡ elim (value_of acc s) [ none ↦ none | some v ↦ value_of v t ]
unfolding value_of
value_of-append acc [] t = refl
value_of-append acc (c ∷ s) t = elim (Option-cases (digit_of c)) [
  | inl e ↦ rw (e, value_of) refl
  | inr (d, e) ↦ rw (e, value_of) (value_of-append (acc * 10 + d) s t)
]

value_of_digit : (acc d : ℕ) → d < 10 → value_of acc ((48 + d) ∷ []) ≡ some (acc * 10 + d)
unfolding value_of digit_of
value_of_digit acc d h = ground arith

value_of-digits : (fuel n : ℕ) → n < bound fuel → value_of 0 (digits fuel n) ≡ some n
unfolding value_of digits bound
value_of-digits zero n h = ground arith
value_of-digits (suc fuel) n h = ground (
  arith,
  value_of_digit 0 n,
  value_of_digit (n / 10) (n % 10),
  value_of-append 0 (digits fuel (n / 10)) ((48 + n % 10) ∷ []),
  value_of-digits fuel (n / 10),
)

abbrev pub IsDigit : ℕ → Type 0
IsDigit c = (48 ≤ c) × (c ≤ 57)

digits-IsDigit : (fuel n : ℕ) → All IsDigit (digits fuel n)
unfolding digits
digits-IsDigit zero n = tt
digits-IsDigit (suc fuel) n = elim (Bool-cases (ltb n 10)) [
  | inl e ↦ rw (e, digits) ((omega arith, omega (arith, ltb→lt n 10 e)), tt)
  | inr e ↦
      rw (e, digits)
        (All-append IsDigit (digits fuel (n / 10)) ((48 + n % 10) ∷ [])
          (digits-IsDigit fuel (n / 10)) ((omega arith, omega arith), tt))
]

digits_some : (fuel n : ℕ) → 0 < length (digits (suc fuel) n)
unfolding digits
digits_some fuel n = ground (arith, length-append (digits fuel (n / 10)) ((48 + n % 10) ∷ []))

pub decimal-IsDigit : (n : ℕ) → All IsDigit (decimal n)
unfolding decimal
decimal-IsDigit n = digits-IsDigit 20 n

parse_u16_value :
    (s : Bytes) (n : ℕ) → 0 < length s → value_of 0 s ≡ some n → n < 2 ^ 16 → parse_u16 s ≡ some n
unfolding parse_u16
parse_u16_value [] n p e h = absurd (omega arith)
parse_u16_value (c ∷ s) n p e h = rw (e, parse_u16) (ground arith)

small : (n : ℕ) → n < 2 ^ 16 → n < bound 20
unfolding bound
small n h = omega arith

pub parse_u16-decimal : (n : ℕ) → n < 2 ^ 16 → parse_u16 (decimal n) ≡ some n
unfolding decimal
parse_u16-decimal n h =
    parse_u16_value (digits 20 n) n (digits_some 19 n) (value_of-digits 20 n (small n h)) h

pub length-decimal : (n : ℕ) → 0 < length (decimal n)
unfolding decimal
length-decimal n = digits_some 19 n
