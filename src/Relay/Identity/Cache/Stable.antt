-- ===== src/Relay/Identity/Cache/Stable.antt =====
-- relay/identity.go: the fingerprint belongs to the key file.
use tunnelmanager.Prelude.{
  ◌∙◌, ◌≡◌, Bytes, Option-cases, Result, Result-cases, arith, codes, err, if_split, inl, inr, not,
  ok, refl, some, subst, text_eq_refl, true, ℕ,
}
use tunnelmanager.Relay.Identity.{
  Certificate, Crypto, Home, public_key_fingerprint, load_identity_key, save_identity_cert,
  parse_block, save_identity_key, generate_cert_with_key, IdentityError,
}
use tunnelmanager.Relay.Identity.Cache.{
  with_fingerprint, renew_cert, certify, new_key, load_or_generate_locked, Identities, cached,
  certify_new,
}

-- The same key file, which can be read or not as before.
abbrev SameKey : Home → Home → Type 0
SameKey home' home = (home'.key_file ≡ home.key_file) × (home'.can_read_key ≡ home.can_read_key)

module _ {K P : Type 0} (lib : Crypto K P) where
  -- The documented round trips of encoding/pem and crypto/x509.
  pub record RoundTrips : Type 0 where
    pub decode :
        (type data' : Bytes) → lib.pem_decode (lib.pem_encode type data') ≡ some (type, data')
    pub reparse :
        (key : K) (der : Bytes) → lib.marshal_ec key ≡ some der → lib.parse_ec der ≡ some key

  -- The directory holds a key with this fingerprint.
  unfoldable pub Held : Home → Bytes → Type 0
  Held home fp =
      (key : K) × (load_identity_key lib home ≡ ok key)
      × (public_key_fingerprint lib (lib.public key) ≡ ok fp)

  with_fingerprint_ok :
      (key : K) (cert cert' : Certificate K) (fp : Bytes) (home home' : Home)
      → with_fingerprint lib key cert home ≡ (ok (cert', fp), home')
      → (public_key_fingerprint lib (lib.public key) ≡ ok fp) × (home' ≡ home)
  unfolding with_fingerprint
  with_fingerprint_ok key cert cert' fp home home' h = ground arith

  with_fingerprint-home :
      (key : K) (cert : Certificate K) (home : Home) → (with_fingerprint lib key cert home).1 ≡ home
  unfolding with_fingerprint
  with_fingerprint-home key cert home = ground arith

  save_cert-key :
      (cert : Certificate K) (home : Home) → SameKey (save_identity_cert lib cert home).1 home
  unfolding save_identity_cert
  save_cert-key cert home = ground arith

  renew_cert-key :
      (now random : ℕ) (key : K) (home : Home) → SameKey (renew_cert lib now random key home).1 home
  unfolding renew_cert
  renew_cert-key now random key home =
      elim (Result-cases (generate_cert_with_key lib now random key)) [
        | inl (cert, e) ↦ ground (
          arith,
          save_cert-key cert home,
          with_fingerprint-home key cert (save_identity_cert lib cert home).1,
        )
        | inr (e, h) ↦ ground arith
      ]

  load_same :
      (home home' : Home)
      → SameKey home' home
      → load_identity_key lib home' ≡ load_identity_key lib home
  unfolding load_identity_key
  load_same home home' e = ground arith

  certify-key :
      (now random : ℕ) (key : K) (home : Home) → SameKey (certify lib now random key home).1 home
  unfolding certify
  certify-key now random key home = ground (arith, renew_cert-key now random key home)

  renew_cert_ok :
      (now random : ℕ) (key : K) (home : Home) (cert : Certificate K) (fp : Bytes)
      → (renew_cert lib now random key home).0 ≡ ok (cert, fp)
      → public_key_fingerprint lib (lib.public key) ≡ ok fp
  unfolding renew_cert with_fingerprint
  renew_cert_ok now random key home cert fp h = ground arith

  certify_ok :
      (now random : ℕ) (key : K) (home : Home) (cert : Certificate K) (fp : Bytes)
      → (certify lib now random key home).0 ≡ ok (cert, fp)
      → public_key_fingerprint lib (lib.public key) ≡ ok fp
  unfolding certify with_fingerprint
  certify_ok now random key home cert fp h =
      ground (arith, renew_cert_ok now random key home cert fp)

  certify-Held :
      (now random : ℕ) (key : K) (home : Home) (cert : Certificate K) (fp : Bytes)
      → load_identity_key lib home ≡ ok key
      → (certify lib now random key home).0 ≡ ok (cert, fp)
      → Held (certify lib now random key home).1 fp
  unfolding Held
  certify-Held now random key home cert fp loaded h = (
    key,
    load_same home (certify lib now random key home).1 (certify-key now random key home) ∙ loaded,
    certify_ok now random key home cert fp h,
  )

  keep-Held :
      (now random : ℕ) (key : K) (home : Home) (fp : Bytes)
      → load_identity_key lib home ≡ ok key
      → public_key_fingerprint lib (lib.public key) ≡ ok fp
      → Held (certify lib now random key home).1 fp
  unfolding Held
  keep-Held now random key home fp loaded h = (
    key,
    load_same home (certify lib now random key home).1 (certify-key now random key home) ∙ loaded,
    h,
  )

  module _ (laws : RoundTrips) where
    new_key_ok :
        (random : ℕ) (home : Home) (key : K)
        → home.can_read_key ≡ true
        → (new_key lib random home).0 ≡ ok key
        → load_identity_key lib (new_key lib random home).1 ≡ ok key
    unfolding new_key load_identity_key save_identity_key parse_block
    new_key_ok random home key readable h = elim (Option-cases (lib.generate_key random)) [
      | inl e ↦ ground arith
      | inr (k, e) ↦ elim (Option-cases (lib.marshal_ec k)) [
        | inl m ↦ ground arith
        | inr (der, m) ↦ ground (
          arith,
          laws.decode (codes "EC PRIVATE KEY") der,
          laws.reparse k der m,
          text_eq_refl (codes "EC PRIVATE KEY"),
        )
      ]
    ]

    pub locked-Held :
        (now key_random random : ℕ) (home : Home) (cert : Certificate K) (fp : Bytes)
        → home.can_read_key ≡ true
        → (load_or_generate_locked lib now key_random random home).0 ≡ ok (cert, fp)
        → Held (load_or_generate_locked lib now key_random random home).1 fp
    unfolding load_or_generate_locked certify_new
    locked-Held now key_random random home cert fp readable =
        if_split
          (λ (r : Result IdentityError (Certificate K × Bytes) × Home).
            r.0 ≡ ok (cert, fp) → Held r.1 fp)
          (not home.can_mkdir) (λ _ h. cc)
          (λ _. elim (Result-cases (load_identity_key lib home)) [
            | inl (key, l) ↦ rw l (certify-Held now random key home cert fp l)
            | inr (e, l) ↦ rw l (by_new_key (new_key lib key_random home) refl)
          ])
      where
        by_new_key :
            (r : Result IdentityError K × Home)
            → new_key lib key_random home ≡ r
            → (certify_new lib now random r).0 ≡ ok (cert, fp)
            → Held (certify_new lib now random r).1 fp
        by_new_key (ok key, home') e = certify-Held now random key home' cert fp (
            subst
              (λ (r : Result IdentityError K × Home).
                r.0 ≡ ok key → load_identity_key lib r.1 ≡ ok key)
              e (new_key_ok key_random home key readable) refl)
        by_new_key (err x, home') e = λ h. cc

  -- What is held stays held, and is what a call returns.
  pub locked_keeps :
      (now key_random random : ℕ) (home : Home) (fp : Bytes)
      → Held home fp
      → Held (load_or_generate_locked lib now key_random random home).1 fp
  unfolding load_or_generate_locked Held
  locked_keeps now key_random random home fp (key, loaded, e) =
      if_split (λ (r : Result IdentityError (Certificate K × Bytes) × Home). Held r.1 fp)
        (not home.can_mkdir) (λ _. (key, loaded, e))
        (λ _. rw loaded (keep-Held now random key home fp loaded e))

  new_key-readable :
      (random : ℕ) (home : Home) → (new_key lib random home).1.can_read_key ≡ home.can_read_key
  unfolding new_key save_identity_key
  new_key-readable random home = ground arith

  certify_new-readable :
      (now random : ℕ) (r : Result IdentityError K × Home)
      → (certify_new lib now random r).1.can_read_key ≡ r.1.can_read_key
  unfolding certify_new
  certify_new-readable now random (ok key, home) = (certify-key now random key home).1
  certify_new-readable now random (err e, home) = refl

  pub locked-readable :
      (now key_random random : ℕ) (home : Home)
      → (load_or_generate_locked lib now key_random random home).1.can_read_key ≡ home.can_read_key
  unfolding load_or_generate_locked
  locked-readable now key_random random home =
      if_split
        (λ (r : Result IdentityError (Certificate K × Bytes) × Home).
          r.1.can_read_key ≡ home.can_read_key)
        (not home.can_mkdir) (λ _. refl)
        (λ _. elim (Result-cases (load_identity_key lib home)) [
          | inl (key, l) ↦ rw l (certify-key now random key home).1
          | inr (e, l) ↦ rw l (
              certify_new-readable now random (new_key lib key_random home)
              ∙ new_key-readable key_random home)
        ])

  -- Every identity in the cache is that of its directory's key, and the key files can be read.
  pub record Inv (ids : Identities K) : Type 0 where
    pub readable : (dir : Bytes) → (ids.homes dir).can_read_key ≡ true
    pub cached_held :
        (dir : Bytes) (cert : Certificate K) (fp : Bytes)
        → cached dir ids.cache ≡ some (ok (cert, fp))
        → Held (ids.homes dir) fp
