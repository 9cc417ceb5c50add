-- ===== src/Manager/Logging/Recent.antt =====
-- The buffer of manager/logging.go against what was written and what is asked for.
use tunnelmanager.Prelude.{
  ◌++◌, ◌+◌, ◌-◌, ◌<◌, ◌==◌, ◌∙◌, ◌∷◌, ◌≡◌, ◌≤◌, Bool-cases, Bytes, List, [], ap, append-nil,
  append_assoc, arith, drop, drop-append_le, drop-drop, if◌then◌else◌, inl, inr, length,
  length-append, length-drop, length-reverse, ltb, refl, reverse, reverse-cons, reverse-reverse,
  split_lines, suc, take, zero, ℕ, ℤ,
}
use tunnelmanager.Manager.Logging.{
  lines, LogBuffer, trim_right, append_locked, append_lines, write_log, mentions, collect,
  limit_or_default,
}

-- The last `n` of a list, and the lines that mention a name.
abbrev pub newest : ℕ → List Bytes → List Bytes
newest n xs = drop (length xs - n) xs

abbrev pub matching : Bytes → List Bytes → List Bytes
matching name [] = []
matching name (l ∷ ls) = if mentions name l then l ∷ matching name ls else matching name ls

abbrev pub nonempty : List Bytes → List Bytes
nonempty [] = []
nonempty (l ∷ ls) = if length l == 0 then nonempty ls else l ∷ nonempty ls

take_step : (n : ℕ) (x : Bytes) (xs : List Bytes) → 0 < n → take n (x ∷ xs) ≡ x ∷ take (n - 1) xs
take_step zero x xs h = absurd (omega arith)
take_step (suc n) x xs h = ap (λ k. x ∷ take k xs) (omega arith)

take_none : (n : ℕ) (xs : List Bytes) → n ≡ 0 → take n xs ≡ []
take_none zero xs e = refl
take_none (suc n) xs e = absurd (omega arith)

take-nil : (n : ℕ) → take {A = Bytes} n [] ≡ []
take-nil zero = refl
take-nil (suc n) = refl

-- The loop adds to `out` what it has room for.
collect_lem :
    (name : Bytes) (limit : ℕ) (ls out : List Bytes)
    → collect name limit ls out ≡ out ++ take (limit - length out) (matching name ls)
unfolding collect
collect_lem name limit [] out = rw (take-nil, append-nil) refl
collect_lem name limit (l ∷ ls) out = ground (
  arith,
  collect_lem name limit ls (out ++ (l ∷ [])),
  collect_lem name limit ls out,
  length-append out (l ∷ []),
  append_assoc out (l ∷ []) (take (limit - length out - 1) (matching name ls)),
  take_step (limit - length out) l (matching name ls),
  take_none (limit - length out) (matching name (l ∷ ls)),
  append-nil out,
)

matching-append :
    (name : Bytes) (xs ys : List Bytes)
    → matching name (xs ++ ys) ≡ matching name xs ++ matching name ys
matching-append name [] ys = refl
matching-append name (x ∷ xs) ys = ground (arith, matching-append name xs ys)

matching-reverse :
    (name : Bytes) (ls : List Bytes) → matching name (reverse ls) ≡ reverse (matching name ls)
matching-reverse name [] = refl
matching-reverse name (l ∷ ls) = ground (
  arith,
  reverse-cons l ls,
  reverse-cons l (matching name ls),
  matching-append name (reverse ls) (l ∷ []),
  matching-reverse name ls,
  append-nil (reverse (matching name ls)),
)

take-append_le : (n : ℕ) (xs ys : List Bytes) → n ≤ length xs → take n (xs ++ ys) ≡ take n xs
take-append_le zero xs ys h = refl
take-append_le (suc n) [] ys h = absurd (omega arith)
take-append_le (suc n) (x ∷ xs) ys h = ap (◌∷◌ x) (take-append_le n xs ys (omega arith))

take_all : (n : ℕ) (xs : List Bytes) → length xs ≤ n → take n xs ≡ xs
take_all zero [] h = refl
take_all zero (x ∷ xs) h = absurd (omega arith)
take_all (suc n) [] h = refl
take_all (suc n) (x ∷ xs) h = ap (◌∷◌ x) (take_all n xs (omega arith))

drop_step : (n : ℕ) (x : Bytes) (xs : List Bytes) → 0 < n → drop n (x ∷ xs) ≡ drop (n - 1) xs
drop_step zero x xs h = absurd (omega arith)
drop_step (suc n) x xs h = ap (λ k. drop k xs) (omega arith)

-- The front of the reversed list, turned around, is the end of the list.
reverse-take : (n : ℕ) (xs : List Bytes) → reverse (take n (reverse xs)) ≡ newest n xs
reverse-take n [] = ground (arith, take-nil n)
reverse-take n (x ∷ xs) = elim (Bool-cases (ltb (length xs) n)) [
  | inl all ↦
      ground
        (arith, take_all n (reverse (x ∷ xs)), length-reverse (x ∷ xs), reverse-reverse (x ∷ xs))
  | inr more ↦ ground (
    arith,
    reverse-cons x xs,
    take-append_le n (reverse xs) (x ∷ []),
    length-reverse xs,
    reverse-take n xs,
    drop_step (length xs + 1 - n) x xs,
  )
]

newest-append : (n : ℕ) (xs ys : List Bytes) → newest n (newest n xs ++ ys) ≡ newest n (xs ++ ys)
newest-append n xs ys = ground (
  arith,
  length-append xs ys,
  length-append (newest n xs) ys,
  length-drop (length xs - n) xs,
  drop-append_le (length xs - n) xs ys (omega arith),
  drop-drop (length xs - n) (length ys) (xs ++ ys),
)

append_locked_lem :
    (l : Bytes) (lb : LogBuffer)
    → 0 < lb.capacity
    → length lb.lines ≤ lb.capacity
    → (append_locked l lb).lines ≡ newest lb.capacity (lb.lines ++ (l ∷ []))
unfolding append_locked
append_locked_lem l lb p h =
    ground (arith, length-append lb.lines (l ∷ []), drop-append_le 1 lb.lines (l ∷ []))

append_lines_lem :
    (ls : List Bytes) (lb : LogBuffer)
    → 0 < lb.capacity
    → length lb.lines ≤ lb.capacity
    → (append_lines ls lb).lines ≡ newest lb.capacity (lb.lines ++ nonempty ls)
unfolding append_lines append_locked
append_lines_lem [] lb p h = ground (arith, append-nil lb.lines)
append_lines_lem (l ∷ ls) lb p h = ground (
  arith,
  append_lines_lem ls lb p h,
  append_lines_lem ls (append_locked l lb) p,
  append_locked_lem l lb p h,
  length-drop (length (lb.lines ++ (l ∷ [])) - lb.capacity) (lb.lines ++ (l ∷ [])),
  newest-append lb.capacity (lb.lines ++ (l ∷ [])) (nonempty ls),
  append_assoc lb.lines (l ∷ []) (nonempty ls),
)

-- A log buffer within a capacity that is not 0 holds after Write the last lines, as many as its
-- capacity, of what it held followed by the non-empty lines written.
pub write_log_lem :
    (p : Bytes) (lb : LogBuffer)
    → 0 < lb.capacity
    → length lb.lines ≤ lb.capacity
    → ((write_log p lb).lines
        ≡ newest lb.capacity (lb.lines ++ nonempty (split_lines (trim_right p))))
      × (length (write_log p lb).lines ≤ lb.capacity)
unfolding write_log
write_log_lem p lb c h =
    let ls = split_lines (trim_right p) in
    let e = append_lines_lem ls lb c h in
    let all = lb.lines ++ nonempty ls in
    (e, omega (arith, ap length e, length-drop (length all - lb.capacity) all))

-- Lines returns, oldest first, the last lines of the buffer that contain the name, as many as the
-- limit says and 100 for a limit that is not positive.
pub lines_lem :
    (name : Bytes) (limit : ℤ) (lb : LogBuffer)
    → lines name limit lb ≡ newest (limit_or_default limit) (matching name lb.lines)
unfolding lines
lines_lem name limit lb =
    let k = limit_or_default limit in
    let none_taken : k - 0 ≡ k = omega arith in
    ap reverse (collect_lem name k (reverse lb.lines) [])
    ∙ rw (matching-reverse name lb.lines, none_taken) (reverse-take k (matching name lb.lines))
