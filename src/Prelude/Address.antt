-- ===== src/Prelude/Address.antt =====
-- Network addresses as text, as package net and package strings handle them.
use Prim.Native.Nat.{ℕ, ◌<◌}
use mathlib.Core.Path.{◌≡◌, refl}
use mathlib.Core.Bool.{Bool, false, ◌||◌}
use mathlib.Core.Option.{Option, none, some}
use mathlib.Core.List.{[], ◌∷◌, ◌++◌}
use native.Mathlib.Omega.{arith}
use tunnelmanager.Prelude.Tests.{◌==◌, ==_refl, if◌then◌else◌}
use tunnelmanager.Prelude.Lists.{All}
use tunnelmanager.Prelude.Text.{Bytes}
use tunnelmanager.Prelude.Decimal.{IsDigit}

unfoldable pub has_byte : ℕ → Bytes → Bool
has_byte b [] = false
has_byte b (c ∷ s) = c == b || has_byte b s

-- net.JoinHostPort: a host with a colon is put into brackets.
unfoldable pub join_host_port : Bytes → Bytes → Bytes
unfolding has_byte
join_host_port host port =
    if has_byte 58 host then (91 ∷ []) ++ (host ++ (93 ∷ 58 ∷ port)) else host ++ (58 ∷ port)

-- `i := strings.LastIndexByte(s, b)`, with `s[:i]` and `s[i+1:]`.
unfoldable pub cut_last : ℕ → Bytes → Option (Bytes × Bytes)
cut_last b [] = none
cut_last b (c ∷ s) = elim (cut_last b s) [
  | some (front, back) ↦ some (c ∷ front, back)
  | none ↦ if c == b then some ([], s) else none
]

pub has_byte-append : (b : ℕ) (s t : Bytes) → has_byte b (s ++ t) ≡ (has_byte b s || has_byte b t)
unfolding has_byte
has_byte-append b [] t = refl
has_byte-append b (c ∷ s) t = ground (arith, has_byte-append b s t)

pub has_byte_digits : (b : ℕ) (s : Bytes) → All IsDigit s → 57 < b → has_byte b s ≡ false
unfolding has_byte
has_byte_digits b [] d h = refl
has_byte_digits b (c ∷ s) d h = ground (arith, has_byte_digits b s d.1 h)

pub cut_last-none : (b : ℕ) (s : Bytes) → has_byte b s ≡ false → cut_last b s ≡ none
unfolding cut_last has_byte
cut_last-none b [] h = refl
cut_last-none b (c ∷ s) h = ground (arith, cut_last-none b s)

pub cut_last-append :
    (b : ℕ) (front back : Bytes)
    → has_byte b back ≡ false
    → cut_last b (front ++ (b ∷ back)) ≡ some (front, back)
unfolding cut_last
cut_last-append b [] back h = ground (arith, cut_last-none b back h, ==_refl b)
cut_last-append b (c ∷ front) back h = ground (arith, cut_last-append b front back h)
