-- ===== src/Relay/Reconnect/Bounds.antt =====
-- relay/reconnect.go: between which durations the delay lies.
use tunnelmanager.Prelude.{
  ◌*◌, ◌+◌, ◌<◌, ◌^◌, ◌∙◌, ◌≡◌, ◌≤◌, Bool-cases, ap, arith, false, if◌then◌else◌, inl, inr, leb,
  min, subst, suc, zero, ℕ,
}
use tunnelmanager.Relay.Reconnect.{Floats, BackoffConfig, doubled, capped, backoff_delay}
use native.Mathlib.Nat.{mul_assoc, pow-succ'}

-- What the code relies on of float64, which rounds correctly: `within k x` says that x is a number,
-- not NaN, of absolute value at most 2 ^ k. The order is only used for such numbers, and to_int only
-- for those that are not negative and fit an int64.
pub record IsRounding {ℓ} (F : Type ℓ) ⦃fl : Floats F⦄ (within : ℕ → F → Type 0) : Type ℓ where
  pub within-of_int : (k a : ℕ) → k ≤ 1000 → a ≤ 2 ^ k → within k (fl.of_int a)
  pub within_mono : (k l : ℕ) (x : F) → k ≤ l → within k x → within l x
  pub within-mul :
      (k l : ℕ) (x y : F) → k + l ≤ 1000 → within k x → within l y → within (k + l) (fl.mul x y)
  pub within-add :
      (k : ℕ) (x y : F) → k < 1000 → within k x → within k y → within (suc k) (fl.add x y)
  pub within-sub :
      (k : ℕ) (x y : F) → k < 1000 → within k x → within k y → within (suc k) (fl.sub x y)
  pub double : (a : ℕ) → fl.mul (fl.of_int a) (fl.of_int 2) ≡ fl.of_int (a * 2)
  pub mul_one : (a : ℕ) → fl.mul (fl.of_int a) (fl.of_int 1) ≡ fl.of_int a
  pub of_int_mono : (a b : ℕ) → a ≤ b → fl.gt (fl.of_int a) (fl.of_int b) ≡ false
  pub of_int_antisym :
      (a b : ℕ) → a ≤ b → fl.gt (fl.of_int b) (fl.of_int a) ≡ false → fl.of_int a ≡ fl.of_int b
  pub mul_comm : (k : ℕ) (x y : F) → k ≤ 500 → within k x → within k y → fl.mul x y ≡ fl.mul y x
  pub mul_mono :
      (k : ℕ) (x y z : F)
      → k ≤ 500
      → within k x
      → within k y
      → within k z
      → fl.gt (fl.of_int 0) z ≡ false
      → fl.gt x y ≡ false
      → fl.gt (fl.mul x z) (fl.mul y z) ≡ false
  pub mul_nonneg :
      (k : ℕ) (x y : F)
      → k ≤ 500
      → within k x
      → within k y
      → fl.gt (fl.of_int 0) x ≡ false
      → fl.gt (fl.of_int 0) y ≡ false
      → fl.gt (fl.of_int 0) (fl.mul x y) ≡ false
  pub add_mono :
      (k : ℕ) (x y z : F)
      → k < 1000
      → within k x
      → within k y
      → within k z
      → fl.gt y z ≡ false
      → fl.gt (fl.add x y) (fl.add x z) ≡ false
  pub add_zero : (k : ℕ) (x : F) → k < 1000 → within k x → fl.gt x (fl.add x (fl.of_int 0)) ≡ false
  pub sub_nonneg :
      (k : ℕ) (x y : F)
      → k < 1000
      → within k x
      → within k y
      → fl.gt y x ≡ false
      → fl.gt (fl.of_int 0) (fl.sub x y) ≡ false
  pub le_trans :
      (k : ℕ) (x y z : F)
      → within k x
      → within k y
      → within k z
      → fl.gt x y ≡ false
      → fl.gt y z ≡ false
      → fl.gt x z ≡ false
  pub to_int_mono :
      (x y : F)
      → within 62 x
      → within 62 y
      → fl.gt (fl.of_int 0) x ≡ false
      → fl.gt x y ≡ false
      → fl.to_int x ≤ fl.to_int y

module _ {ℓ} {F : Type ℓ} ⦃fl : Floats F⦄ {within : ℕ → F → Type 0}
    (laws : IsRounding F within) where
  doubled-of_int : (n a : ℕ) → doubled n (fl.of_int a) ≡ fl.of_int (a * 2 ^ n)
  unfolding doubled
  doubled-of_int zero a = ap fl.of_int (ground arith)
  doubled-of_int (suc n) a =
      rw (laws.double a, doubled-of_int n (a * 2), pow-succ' 2 n, mul_assoc a 2 (2 ^ n))

  -- How long the delay is without jitter.
  abbrev pub aim : BackoffConfig F → ℕ → ℕ
  aim cfg attempt = min (cfg.base_delay * 2 ^ min attempt 30) cfg.max_delay

  clamp :
      (a b : ℕ)
      → (if fl.gt (fl.of_int a) (fl.of_int b) then fl.of_int b else fl.of_int a)
        ≡ fl.of_int (min a b)
  clamp a b = elim (Bool-cases (leb a b)) [
    | inl e ↦
        let le : a ≤ b = ground arith in
        let m : min a b ≡ a = ground arith in rw (laws.of_int_mono a b le, m)
    | inr e ↦
        let le : b ≤ a = ground arith in
        let m : min a b ≡ b = ground arith in
        elim (Bool-cases (fl.gt (fl.of_int a) (fl.of_int b))) [
          | inl g ↦ rw (g, m)
          | inr g ↦ rw (g, m, laws.of_int_antisym b a le g)
        ]
  ]

  capped_lem :
      (cfg : BackoffConfig F) (attempt : ℕ) → capped cfg attempt ≡ fl.of_int (aim cfg attempt)
  unfolding capped
  capped_lem cfg attempt =
      rw (doubled-of_int (min attempt 30) cfg.base_delay)
        (clamp (cfg.base_delay * 2 ^ min attempt 30) cfg.max_delay)

  abbrev pub jitter_of : BackoffConfig F → ℕ → F
  jitter_of cfg attempt = fl.mul (fl.of_int (aim cfg attempt)) cfg.jitter_ratio

  abbrev pub shortest : BackoffConfig F → ℕ → F
  shortest cfg attempt = fl.sub (fl.of_int (aim cfg attempt)) (jitter_of cfg attempt)

  abbrev pub longest : BackoffConfig F → ℕ → F
  longest cfg attempt = fl.add (shortest cfg attempt) (fl.mul (fl.of_int 2) (jitter_of cfg attempt))

  -- A random number, or a jitter ratio: a number from 0 to 1.
  pub record IsFraction (x : F) : Type 0 where
    pub number : within 0 x
    pub nonneg : fl.gt (fl.of_int 0) x ≡ false
    pub at_most_one : fl.gt x (fl.of_int 1) ≡ false

  aim_small :
      (cfg : BackoffConfig F) (attempt : ℕ) → cfg.max_delay ≤ 2 ^ 60 → aim cfg attempt ≤ 2 ^ 60
  aim_small cfg attempt small = ground arith

  module _ (cfg : BackoffConfig F) (attempt : ℕ) (random : F) (small : cfg.max_delay ≤ 2 ^ 60)
      (ratio : IsFraction cfg.jitter_ratio) (r : IsFraction random) where
    abbrev d : F
    d = fl.of_int (aim cfg attempt)

    abbrev jitter : F
    jitter = jitter_of cfg attempt

    abbrev least : F
    least = shortest cfg attempt

    -- What the random number adds.
    abbrev part : F
    part = fl.mul (fl.mul random (fl.of_int 2)) jitter

    two_within : within 1 (fl.of_int 2)
    two_within = laws.within-of_int 1 2 (omega arith) (omega arith)

    d_within : within 60 d
    d_within = laws.within-of_int 60 (aim cfg attempt) (omega arith) (aim_small cfg attempt small)

    d_nonneg : fl.gt (fl.of_int 0) d ≡ false
    d_nonneg = laws.of_int_mono 0 (aim cfg attempt) (omega arith)

    jitter_within : within 60 jitter
    jitter_within = laws.within-mul 60 0 d cfg.jitter_ratio (omega arith) d_within ratio.number

    ratio_within : within 60 cfg.jitter_ratio
    ratio_within = laws.within_mono 0 60 cfg.jitter_ratio (omega arith) ratio.number

    jitter_nonneg : fl.gt (fl.of_int 0) jitter ≡ false
    jitter_nonneg =
        laws.mul_nonneg 60 d cfg.jitter_ratio (omega arith) d_within ratio_within d_nonneg
          ratio.nonneg

    one_within : within 60 (fl.of_int 1)
    one_within = laws.within-of_int 60 1 (omega arith) (omega arith)

    jitter_below : fl.gt jitter d ≡ false
    jitter_below =
        let m =
          laws.mul_mono 60 cfg.jitter_ratio (fl.of_int 1) d (omega arith) ratio_within one_within
            d_within d_nonneg ratio.at_most_one in
        let c = laws.mul_comm 60 d cfg.jitter_ratio (omega arith) d_within ratio_within in
        let e = laws.mul_comm 60 (fl.of_int 1) d (omega arith) one_within d_within in
        rw (c) (
          subst (λ x. fl.gt (fl.mul cfg.jitter_ratio d) x ≡ false)
            (e ∙ laws.mul_one (aim cfg attempt)) m)

    least_within : within 61 least
    least_within = laws.within-sub 60 d jitter (omega arith) d_within jitter_within

    least_nonneg : fl.gt (fl.of_int 0) least ≡ false
    least_nonneg = laws.sub_nonneg 60 d jitter (omega arith) d_within jitter_within jitter_below

    twice_within : within 1 (fl.mul random (fl.of_int 2))
    twice_within = laws.within-mul 0 1 random (fl.of_int 2) (omega arith) r.number two_within

    part_within : within 61 part
    part_within =
        laws.within-mul 1 60 (fl.mul random (fl.of_int 2)) jitter (omega arith) twice_within
          jitter_within

    most_within : within 61 (fl.mul (fl.of_int 2) jitter)
    most_within = laws.within-mul 1 60 (fl.of_int 2) jitter (omega arith) two_within jitter_within

    part_nonneg : fl.gt (fl.of_int 0) part ≡ false
    part_nonneg =
        laws.mul_nonneg 60 (fl.mul random (fl.of_int 2)) jitter (omega arith)
          (laws.within_mono 1 60 (fl.mul random (fl.of_int 2)) (omega arith) twice_within)
          jitter_within
          (laws.mul_nonneg 1 random (fl.of_int 2) (omega arith)
            (laws.within_mono 0 1 random (omega arith) r.number) two_within r.nonneg
            (laws.of_int_mono 0 2 (omega arith)))
          jitter_nonneg

    part_below : fl.gt part (fl.mul (fl.of_int 2) jitter) ≡ false
    part_below =
        let t : fl.gt (fl.mul random (fl.of_int 2)) (fl.mul (fl.of_int 1) (fl.of_int 2)) ≡ false =
          laws.mul_mono 1 random (fl.of_int 1) (fl.of_int 2) (omega arith)
            (laws.within_mono 0 1 random (omega arith) r.number)
            (laws.within-of_int 1 1 (omega arith) (omega arith)) two_within
            (laws.of_int_mono 0 2 (omega arith)) r.at_most_one in
        laws.mul_mono 60 (fl.mul random (fl.of_int 2)) (fl.of_int 2) jitter (omega arith)
          (laws.within_mono 1 60 (fl.mul random (fl.of_int 2)) (omega arith) twice_within)
          (laws.within_mono 1 60 (fl.of_int 2) (omega arith) two_within) jitter_within jitter_nonneg
          (subst (λ x. fl.gt (fl.mul random (fl.of_int 2)) x ≡ false) (laws.double 1) t)

    sum_within : within 62 (fl.add least part)
    sum_within = laws.within-add 61 least part (omega arith) least_within part_within

    zero_within : within 61 (fl.of_int 0)
    zero_within = laws.within-of_int 61 0 (omega arith) (omega arith)

    least_below : fl.gt least (fl.add least part) ≡ false
    least_below =
        laws.le_trans 62 least (fl.add least (fl.of_int 0)) (fl.add least part)
          (laws.within_mono 61 62 least (omega arith) least_within)
          (laws.within-add 61 least (fl.of_int 0) (omega arith) least_within zero_within) sum_within
          (laws.add_zero 61 least (omega arith) least_within)
          (laws.add_mono 61 least (fl.of_int 0) part (omega arith) least_within zero_within
            part_within part_nonneg)

    sum_nonneg : fl.gt (fl.of_int 0) (fl.add least part) ≡ false
    sum_nonneg =
        laws.le_trans 62 (fl.of_int 0) least (fl.add least part)
          (laws.within_mono 61 62 (fl.of_int 0) (omega arith) zero_within)
          (laws.within_mono 61 62 least (omega arith) least_within) sum_within least_nonneg
          least_below

    -- The delay of an attempt lies between the capped exponential delay less its jitter and that
    -- value plus twice the jitter, as floats compute these, for a random number and a jitter ratio
    -- from 0 to 1 and a largest delay of at most 2 ^ 60 ns.
    pub backoff_delay-bounds :
        (fl.to_int (shortest cfg attempt) ≤ backoff_delay random cfg attempt)
        × (backoff_delay random cfg attempt ≤ fl.to_int (longest cfg attempt))
    unfolding backoff_delay
    backoff_delay-bounds =
        rw (backoff_delay, capped_lem cfg attempt)
          (
            laws.to_int_mono least (fl.add least part)
                (laws.within_mono 61 62 least (omega arith) least_within) sum_within least_nonneg
                least_below,
            laws.to_int_mono (fl.add least part) (fl.add least (fl.mul (fl.of_int 2) jitter))
                sum_within
                (laws.within-add 61 least (fl.mul (fl.of_int 2) jitter) (omega arith) least_within
                  most_within)
                sum_nonneg
                (laws.add_mono 61 least part (fl.mul (fl.of_int 2) jitter) (omega arith)
                  least_within part_within most_within part_below),
          )
