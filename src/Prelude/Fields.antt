-- ===== src/Prelude/Fields.antt =====
-- Lines and fields of a text, as package strings cuts them.
use Prim.Native.Nat.{ℕ, ◌<◌}
use mathlib.Core.Path.{◌≡◌, refl}
use mathlib.Core.Bool.{Bool, true, false, not, ◌&&◌, ◌||◌}
use mathlib.Core.List.{List, [], ◌∷◌, ◌++◌, append-nil}
use native.Mathlib.Omega.{arith}
use tunnelmanager.Prelude.Tests.{◌==◌, ltb, if◌then◌else◌}
use tunnelmanager.Prelude.Lists.{length, All, All-append}
use tunnelmanager.Prelude.Text.{Bytes}

add_first : ℕ → List Bytes → List Bytes
add_first c [] = (c ∷ []) ∷ []
add_first c (l ∷ ls) = (c ∷ l) ∷ ls

-- strings.Split(s, "\n").
unfoldable pub split_lines : Bytes → List Bytes
unfolding add_first
split_lines [] = [] ∷ []
split_lines (c ∷ s) = let rest = split_lines s in if c == 10 then [] ∷ rest else add_first c rest

-- unicode.IsSpace on ASCII: tab to carriage return, and the blank.
unfoldable pub is_space : ℕ → Bool
is_space c = (ltb 8 c && ltb c 14) || c == 32

starts_word : Bytes → Bool
starts_word [] = false
starts_word (c ∷ s) = not (is_space c)

-- strings.Fields on ASCII text.
unfoldable pub fields : Bytes → List Bytes
unfolding add_first starts_word
fields [] = []
fields (c ∷ s) =
    let rest = fields s in
    if is_space c then rest else if starts_word s then add_first c rest else (c ∷ []) ∷ rest

-- strings.HasPrefix(s, prefix).
unfoldable pub has_prefix : Bytes → Bytes → Bool
has_prefix [] s = true
has_prefix (c ∷ prefix) [] = false
has_prefix (c ∷ prefix) (d ∷ s) = c == d && has_prefix prefix s

-- A word of a line: not empty, no white space.
pub record IsWord (w : Bytes) : Type 0 where
  pub some_byte : 0 < length w
  pub no_space : All (λ c. is_space c ≡ false) w

fields-append : (w s : Bytes) → IsWord w → starts_word s ≡ false → fields (w ++ s) ≡ w ∷ fields s
unfolding fields starts_word add_first
fields-append [] s v h = absurd (omega (arith, v.some_byte))
fields-append (c ∷ []) s v h = ground (arith, v.no_space.0)
fields-append (c ∷ d ∷ w) s v h = ground (
  arith,
  v.no_space.0,
  v.no_space.1.0,
  fields-append (d ∷ w) s (record { some_byte = omega arith; no_space = v.no_space.1 }) h,
)

-- Two words with a blank between them.
pub fields_two : (v w : Bytes) → IsWord v → IsWord w → fields (v ++ (32 ∷ w)) ≡ v ∷ w ∷ []
unfolding fields starts_word is_space
fields_two v w hv hw =
    ground (arith, fields-append v (32 ∷ w) hv refl, fields-append w [] hw refl, append-nil w)

no_newline : (c : ℕ) → is_space c ≡ false → (c == 10) ≡ false
unfolding is_space
no_newline c h = ground arith

split_lines-append :
    (l s : Bytes) → All (λ c. (c == 10) ≡ false) l → split_lines (l ++ (10 ∷ s)) ≡ l ∷ split_lines s
unfolding split_lines add_first
split_lines-append [] s h = refl
split_lines-append (c ∷ l) s h = ground (arith, h.0, split_lines-append l s h.1)

no_newlines : (w : Bytes) → All (λ c. is_space c ≡ false) w → All (λ c. (c == 10) ≡ false) w
no_newlines [] h = tt
no_newlines (c ∷ w) h = (no_newline c h.0, no_newlines w h.1)

pub split_lines_two :
    (v w s : Bytes)
    → IsWord v
    → IsWord w
    → split_lines ((v ++ (32 ∷ w)) ++ (10 ∷ s)) ≡ (v ++ (32 ∷ w)) ∷ split_lines s
split_lines_two v w s hv hw = split_lines-append (v ++ (32 ∷ w)) s (
    All-append (λ c. (c == 10) ≡ false) v (32 ∷ w) (no_newlines v hv.no_space)
      (refl, no_newlines w hw.no_space))
