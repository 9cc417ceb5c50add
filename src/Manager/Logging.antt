-- ===== src/Manager/Logging.antt =====
-- manager/logging.go: the daemon's buffer of recent log lines. Text is bytes, and '\n' is 10.
pub mod Recent
mod Runs
use tunnelmanager.Prelude.{
  ◌&&◌, ◌++◌, ◌==◌, ◌||◌, ◌∷◌, Bool, Bytes, List, [], drop, exceeds, has_prefix, if◌then◌else◌, leb,
  length, ltb, reverse, split_lines, to_nat, ℕ, ℤ,
}

pub record LogBuffer : Type 0 where
  pub lines : List Bytes
  pub capacity : ℕ

unfoldable pub new_log_buffer : ℤ → LogBuffer
new_log_buffer capacity = record {
  lines = [];
  capacity = if exceeds capacity 0 then to_nat capacity else 1000;
}

-- strings.TrimRight(s, "\n").
unfoldable pub trim_right : Bytes → Bytes
trim_right [] = []
trim_right (c ∷ s) = let rest = trim_right s in if c == 10 && length rest == 0 then [] else c ∷ rest

unfoldable pub append_locked : Bytes → LogBuffer → LogBuffer
append_locked line lb =
    let kept = if leb lb.capacity (length lb.lines) then drop 1 lb.lines else lb.lines in
    record lb { lines = kept ++ (line ∷ []) }

append_lines : List Bytes → LogBuffer → LogBuffer
unfolding append_locked
append_lines [] lb = lb
append_lines (line ∷ ls) lb =
    append_lines ls (if length line == 0 then lb else append_locked line lb)

-- Write, which always takes all of its input.
unfoldable pub write_log : Bytes → LogBuffer → LogBuffer
unfolding append_lines trim_right split_lines
write_log p = append_lines (split_lines (trim_right p))

-- strings.Contains(s, sub).
unfoldable pub contains : Bytes → Bytes → Bool
contains sub [] = has_prefix sub []
contains sub (c ∷ s) = has_prefix sub (c ∷ s) || contains sub s

-- `name == "" || strings.Contains(line, name)`
abbrev pub mentions : Bytes → Bytes → Bool
mentions name line = length name == 0 || contains name line

-- The loop of Lines over the lines from the last one to the first.
collect : Bytes → ℕ → List Bytes → List Bytes → List Bytes
collect name limit [] out = out
collect name limit (l ∷ ls) out =
    if ltb (length out) limit
    then collect name limit ls (if mentions name l then out ++ (l ∷ []) else out)
    else out

abbrev pub limit_or_default : ℤ → ℕ
limit_or_default limit = if exceeds limit 0 then to_nat limit else 100

unfoldable pub lines : Bytes → ℤ → LogBuffer → List Bytes
unfolding collect contains
lines name limit lb = reverse (collect name (limit_or_default limit) (reverse lb.lines) [])
