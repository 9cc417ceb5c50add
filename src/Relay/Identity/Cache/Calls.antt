-- ===== src/Relay/Identity/Cache/Calls.antt =====
-- relay/identity.go: over any calls of LoadOrGenerateIdentity, a directory keeps its fingerprint.
use tunnelmanager.Prelude.{
  ◌∙◌, ◌∷◌, ◌≡◌, Action, Bool-cases, Bytes, List, Option, Result, [], ap, arith, eq_of_text_eq,
  false, if_both, if_split, inl, inr, none, ok, refl, some, subst, sym, text_eq, text_eq_refl, true,
  ℕ,
}
use tunnelmanager.Relay.Identity.Cache.Stable.{
  locked-Held, Inv, RoundTrips, Held, locked_keeps, locked-readable,
}
use tunnelmanager.Relay.Identity.{Certificate, Crypto, IdentityError, Home}
use tunnelmanager.Relay.Identity.Cache.{
  Identities, set_home, refresh, load_or_generate_identity, cached, load_or_generate_locked,
  still_good, by_cache,
}

text_eq_sym : (s t : Bytes) → text_eq s t ≡ false → text_eq t s ≡ false
text_eq_sym s t h = elim (Bool-cases (text_eq t s)) [
  | inl e ↦
      let r : text_eq s t ≡ true =
        subst (λ x. text_eq x t ≡ true) (eq_of_text_eq t s e) (text_eq_refl t) in
      cc
  | inr e ↦ e
]

-- A call with its time and its random numbers.
abbrev pub Call : Type 0
Call = ℕ × ℕ × ℕ × Bytes

module _ {K P : Type 0} (lib : Crypto K P) where
  unfoldable pub call : Call → Action (Identities K) IdentityError (Certificate K × Bytes)
  call (now, key_random, random, dir) = load_or_generate_identity lib now key_random random dir

  unfoldable pub calls : List Call → Identities K → Identities K
  unfolding call
  calls [] ids = ids
  calls (c ∷ cs) ids = calls cs (call c ids).1

  -- A process that has made these calls since it started.
  abbrev pub after : List Call → (Bytes → Home) → Identities K
  after cs homes = calls cs (record { cache = []; homes = homes })

module _ {K P : Type 0} (lib : Crypto K P) (laws : RoundTrips lib) where
  at_home : (dir : Bytes) (home : Home) (homes : Bytes → Home) → set_home dir home homes dir ≡ home
  at_home dir home homes = rw (text_eq_refl dir)

  refresh-Held :
      (now key_random random : ℕ) (dir : Bytes) (ids : Identities K) (cert : Certificate K)
      (fp : Bytes)
      → (ids.homes dir).can_read_key ≡ true
      → (refresh lib now key_random random dir ids).0 ≡ ok (cert, fp)
      → Held lib ((refresh lib now key_random random dir ids).1.homes dir) fp
  unfolding refresh
  refresh-Held now key_random random dir ids cert fp readable h =
      subst (λ home. Held lib home fp)
        (sym (
          at_home dir (load_or_generate_locked lib now key_random random (ids.homes dir)).1
            ids.homes))
        (locked-Held lib laws now key_random random (ids.homes dir) cert fp readable h)

  refresh_keeps :
      (now key_random random : ℕ) (dir : Bytes) (ids : Identities K) (d fp : Bytes)
      → Held lib (ids.homes d) fp
      → Held lib ((refresh lib now key_random random dir ids).1.homes d) fp
  unfolding refresh
  refresh_keeps now key_random random dir ids d fp held = elim (Bool-cases (text_eq d dir)) [
    | inl e ↦ rw e (
        locked_keeps lib now key_random random (ids.homes dir) fp
          (subst (λ x. Held lib (ids.homes x) fp) (eq_of_text_eq d dir e) held))
    | inr e ↦ rw e held
  ]

  refresh-readable :
      (now key_random random : ℕ) (dir : Bytes) (ids : Identities K) (d : Bytes)
      → Inv lib ids
      → ((refresh lib now key_random random dir ids).1.homes d).can_read_key ≡ true
  unfolding refresh
  refresh-readable now key_random random dir ids d v = elim (Bool-cases (text_eq d dir)) [
    | inl e ↦ rw e (locked-readable lib now key_random random (ids.homes dir) ∙ v.readable dir)
    | inr e ↦ rw e (v.readable d)
  ]

  refresh-Inv :
      (now key_random random : ℕ) (dir : Bytes) (ids : Identities K)
      → Inv lib ids
      → Inv lib (refresh lib now key_random random dir ids).1
  unfolding refresh
  refresh-Inv now key_random random dir ids v = record {
    readable = λ d. refresh-readable now key_random random dir ids d v;
    cached_held = λ d cert fp h. by_dir d cert fp h;
  }
    where
      by_dir :
          (d : Bytes) (cert : Certificate K) (fp : Bytes)
          → cached d (refresh lib now key_random random dir ids).1.cache ≡ some (ok (cert, fp))
          → Held lib ((refresh lib now key_random random dir ids).1.homes d) fp
      by_dir d cert fp h = elim (Bool-cases (text_eq dir d)) [
        | inl e ↦
            subst (λ x. Held lib ((refresh lib now key_random random dir ids).1.homes x) fp)
              (eq_of_text_eq dir d e)
              (refresh-Held now key_random random dir ids cert fp (v.readable dir)
                (let k = rw e at h in cc))
        | inr e ↦ rw (text_eq_sym dir d e) (v.cached_held d cert fp (rw e at h))
      ]

  call-Inv : (c : Call) (ids : Identities K) → Inv lib ids → Inv lib (call lib c ids).1
  unfolding call load_or_generate_identity by_cache
  call-Inv (now, key_random, random, dir) ids v =
      if_both (λ (r : Result IdentityError (Certificate K × Bytes) × Identities K). Inv lib r.1)
        (text_eq dir []) v (by_entry (cached dir ids.cache))
    where
      by_entry :
          (o : Option (Result IdentityError (Certificate K × Bytes)))
          → Inv lib (by_cache lib now key_random random dir ids o).1
      by_entry none = refresh-Inv now key_random random dir ids v
      by_entry (some entry) =
          if_both (λ (r : Result IdentityError (Certificate K × Bytes) × Identities K). Inv lib r.1)
            (still_good lib now entry) v (refresh-Inv now key_random random dir ids v)

  call_ok :
      (now key_random random : ℕ) (dir : Bytes) (ids : Identities K) (cert : Certificate K)
      (fp : Bytes)
      → text_eq dir [] ≡ false
      → Inv lib ids
      → (call lib (now, key_random, random, dir) ids).0 ≡ ok (cert, fp)
      → Held lib ((call lib (now, key_random, random, dir) ids).1.homes dir) fp
  unfolding call load_or_generate_identity by_cache
  call_ok now key_random random dir ids cert fp given v =
      if_split
        (λ (r : Result IdentityError (Certificate K × Bytes) × Identities K).
          r.0 ≡ ok (cert, fp) → Held lib (r.1.homes dir) fp)
        (text_eq dir []) (λ e. cc) (λ _. by_entry (cached dir ids.cache) refl)
    where
      by_entry :
          (o : Option (Result IdentityError (Certificate K × Bytes)))
          → cached dir ids.cache ≡ o
          → (by_cache lib now key_random random dir ids o).0 ≡ ok (cert, fp)
          → Held lib ((by_cache lib now key_random random dir ids o).1.homes dir) fp
      by_entry none e = refresh-Held now key_random random dir ids cert fp (v.readable dir)
      by_entry (some entry) e =
          if_both
            (λ (r : Result IdentityError (Certificate K × Bytes) × Identities K).
              r.0 ≡ ok (cert, fp) → Held lib (r.1.homes dir) fp)
            (still_good lib now entry) (λ h. v.cached_held dir cert fp (e ∙ ap some h))
            (refresh-Held now key_random random dir ids cert fp (v.readable dir))

  call_keeps :
      (c : Call) (ids : Identities K) (d fp : Bytes)
      → Held lib (ids.homes d) fp
      → Held lib ((call lib c ids).1.homes d) fp
  unfolding call load_or_generate_identity by_cache
  call_keeps (now, key_random, random, dir) ids d fp held =
      if_both
        (λ (r : Result IdentityError (Certificate K × Bytes) × Identities K).
          Held lib (r.1.homes d) fp)
        (text_eq dir []) held (by_entry (cached dir ids.cache))
    where
      by_entry :
          (o : Option (Result IdentityError (Certificate K × Bytes)))
          → Held lib ((by_cache lib now key_random random dir ids o).1.homes d) fp
      by_entry none = refresh_keeps now key_random random dir ids d fp held
      by_entry (some entry) =
          if_both
            (λ (r : Result IdentityError (Certificate K × Bytes) × Identities K).
              Held lib (r.1.homes d) fp)
            (still_good lib now entry) held (refresh_keeps now key_random random dir ids d fp held)

  calls_keep :
      (cs : List Call) (ids : Identities K) (d fp : Bytes)
      → Held lib (ids.homes d) fp
      → Inv lib ids
      → Held lib ((calls lib cs ids).homes d) fp × Inv lib (calls lib cs ids)
  unfolding calls
  calls_keep [] ids d fp held v = (held, v)
  calls_keep (c ∷ cs) ids d fp held v =
      calls_keep cs (call lib c ids).1 d fp (call_keeps c ids d fp held) (call-Inv c ids v)

  Held-same : (home : Home) (fp fp' : Bytes) → Held lib home fp → Held lib home fp' → fp ≡ fp'
  unfolding Held
  Held-same home fp fp' (k, l, e) (k', l', e') = ground arith

  calls-Inv : (cs : List Call) (ids : Identities K) → Inv lib ids → Inv lib (calls lib cs ids)
  unfolding calls
  calls-Inv [] ids v = v
  calls-Inv (c ∷ cs) ids v = calls-Inv cs (call lib c ids).1 (call-Inv c ids v)

  after-Inv :
      (cs : List Call) (homes : Bytes → Home)
      → ((d : Bytes) → (homes d).can_read_key ≡ true)
      → Inv lib (after lib cs homes)
  after-Inv cs homes readable =
      calls-Inv cs (record { cache = []; homes = homes })
        (record { readable = readable; cached_held = λ dir cert fp h. cc })

  -- Two calls of LoadOrGenerateIdentity in one process for the same named directory that both
  -- succeed return the same fingerprint, whatever calls for whatever directories came before and
  -- between them and however late the second one comes, also when the certificate is renewed; PEM
  -- and the coding of private keys give back what they encoded, the key files can be read where
  -- they are, and nobody else changes the files.
  pub fingerprint_stable :
      (homes : Bytes → Home) (before between : List Call) (now key_random random : ℕ)
      (now' key_random' random' : ℕ) (dir fp fp' : Bytes) (cert cert' : Certificate K)
      → ((d : Bytes) → (homes d).can_read_key ≡ true)
      → text_eq dir [] ≡ false
      → (call lib (now, key_random, random, dir) (after lib before homes)).0 ≡ ok (cert, fp)
      → (call lib
          (now', key_random', random', dir)
          (calls lib between
            (call lib (now, key_random, random, dir) (after lib before homes)).1)).0
        ≡ ok (cert', fp')
      → fp' ≡ fp
  fingerprint_stable homes before between now key_random random now' key_random' random' dir fp fp'
        cert cert' readable given h h' =
      let ids = after lib before homes in
      let v = after-Inv before homes readable in
      let c : Call = (now, key_random, random, dir) in
      let c' : Call = (now', key_random', random', dir) in
      let held = call_ok now key_random random dir ids cert fp given v h in
      let (held', v') = calls_keep between (call lib c ids).1 dir fp held (call-Inv c ids v) in
      let ids' = calls lib between (call lib c ids).1 in
      Held-same ((call lib c' ids').1.homes dir) fp' fp
        (call_ok now' key_random' random' dir ids' cert' fp' given v' h')
        (call_keeps c' ids' dir fp held')
