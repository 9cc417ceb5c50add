-- ===== src/Relay/Identity/Cache.antt =====
-- relay/identity.go: LoadOrGenerateIdentity with its cache; relay/tls.go: SetupTLS, SetupTLSCert.
pub mod Stable
pub mod Calls
pub mod Failure
mod Runs
use tunnelmanager.Prelude.{
  ◌&&◌, ◌∷◌, Action, Bool, Bytes, List, Option, Result, [], err, if◌then◌else◌, none, not, ok, some,
  text_eq, true, ℕ,
}
use tunnelmanager.Relay.Identity.{
  Certificate, Crypto, IdentityError, mkdir_failed, generate_failed, no_pair, Home,
  public_key_fingerprint, tls_cert_fingerprint, cert_needs_rotation, load_identity_key,
  save_identity_key, try_load_cert, save_identity_cert, generate_cert_with_key, generate_cert,
}
use tunnelmanager.Relay.KnownHosts.{verify}

-- The process: its cache, and the directories on disk.
pub record Identities (K : Type 0) : Type 0 where
  pub cache : List (Bytes × Result IdentityError (Certificate K × Bytes))
  pub homes : Bytes → Home

module _ {K : Type 0} where
  abbrev pub cached :
      Bytes
      → List (Bytes × Result IdentityError (Certificate K × Bytes))
      → Option (Result IdentityError (Certificate K × Bytes))
  cached dir [] = none
  cached dir ((d, entry) ∷ rest) = if text_eq d dir then some entry else cached dir rest

abbrev pub set_home : Bytes → Home → (Bytes → Home) → Bytes → Home
set_home dir home homes d = if text_eq d dir then home else homes d

-- What relay.TLSConfig says of the identity and of the check of the peer.
pub record TlsIdentity (K : Type 0) : Type 0 where
  pub cert : Certificate K
  pub insecure : Bool
  pub fingerprint : Bytes

module _ {K P : Type 0} (lib : Crypto K P) where
  pub with_fingerprint :
      K → Certificate K → Home → Result IdentityError (Certificate K × Bytes) × Home
  with_fingerprint key cert home = elim (public_key_fingerprint lib (lib.public key)) [
    | err e ↦ (err e, home)
    | ok fp ↦ (ok (cert, fp), home)
  ]

  pub renew_cert : ℕ → ℕ → K → Action Home IdentityError (Certificate K × Bytes)
  unfolding with_fingerprint
  renew_cert now random key home = elim (generate_cert_with_key lib now random key) [
    | err e ↦ (err e, home)
    | ok cert ↦
        let (r, home') = save_identity_cert lib cert home in
        elim r [ err e ↦ (err e, home') | ok _ ↦ with_fingerprint key cert home' ]
  ]

  pub certify : ℕ → ℕ → K → Action Home IdentityError (Certificate K × Bytes)
  unfolding renew_cert
  certify now random key home = elim (try_load_cert lib now key home) [
    | ok cert ↦ with_fingerprint key cert home
    | err _ ↦ renew_cert now random key home
  ]

  pub new_key : ℕ → Action Home IdentityError K
  new_key key_random home = elim (lib.generate_key key_random) [
    | none ↦ (err generate_failed, home)
    | some key ↦
        let (r, home') = save_identity_key lib key home in
        elim r [ err e ↦ (err e, home') | ok _ ↦ (ok key, home') ]
  ]

  pub certify_new :
      ℕ → ℕ → Result IdentityError K × Home → Result IdentityError (Certificate K × Bytes) × Home
  unfolding certify
  certify_new now random (ok key, home) = certify now random key home
  certify_new now random (err e, home) = (err e, home)

  pub load_or_generate_locked : ℕ → ℕ → ℕ → Action Home IdentityError (Certificate K × Bytes)
  unfolding certify new_key certify_new
  load_or_generate_locked now key_random random home =
      if not home.can_mkdir then (err mkdir_failed, home) else elim (load_identity_key lib home) [
        | ok key ↦ certify now random key home
        | err _ ↦ certify_new now random (new_key key_random home)
      ]

  -- Whether an entry of the cache is returned as it is.
  pub still_good : ℕ → Result IdentityError (Certificate K × Bytes) → Bool
  still_good now (err e) = true
  still_good now (ok (cert, fp)) = elim cert.chain [
    | [] ↦ true
    | _ ∷ _ ↦ not (cert_needs_rotation lib now cert)
  ]

  pub refresh : ℕ → ℕ → ℕ → Bytes → Action (Identities K) IdentityError (Certificate K × Bytes)
  unfolding load_or_generate_locked
  refresh now key_random random dir ids =
      let (r, home) = load_or_generate_locked now key_random random (ids.homes dir) in
      (r, record { cache = (dir, r) ∷ ids.cache; homes = set_home dir home ids.homes })

  pub ephemeral : ℕ → ℕ → ℕ → Result IdentityError (Certificate K × Bytes)
  ephemeral now key_random random = elim (generate_cert lib now key_random random) [
    | err e ↦ err e
    | ok cert ↦ elim (tls_cert_fingerprint lib cert) [ err e ↦ err e | ok fp ↦ ok (cert, fp) ]
  ]

  pub by_cache :
      ℕ
      → ℕ
      → ℕ
      → Bytes
      → Identities K
      → Option (Result IdentityError (Certificate K × Bytes))
      → Result IdentityError (Certificate K × Bytes) × Identities K
  unfolding refresh still_good
  by_cache now key_random random dir ids none = refresh now key_random random dir ids
  by_cache now key_random random dir ids (some entry) =
      if still_good now entry then (entry, ids) else refresh now key_random random dir ids

  unfoldable pub load_or_generate_identity :
      ℕ → ℕ → ℕ → Bytes → Action (Identities K) IdentityError (Certificate K × Bytes)
  unfolding by_cache ephemeral
  load_or_generate_identity now key_random random dir ids =
      if text_eq dir []
      then (ephemeral now key_random random, ids)
      else by_cache now key_random random dir ids (cached dir ids.cache)

  -- SetupTLS; `pair` is what LoadX509KeyPair makes of the two files that were named.
  unfoldable pub setup_tls :
      ℕ
      → ℕ
      → ℕ
      → Bytes
      → Option (Certificate K)
      → Bytes
      → Bytes
      → Bool
      → Action (Identities K) IdentityError (TlsIdentity K)
  unfolding load_or_generate_identity
  setup_tls now key_random random default_dir pair cert_file key_file verify ids =
      if not (text_eq cert_file []) && not (text_eq key_file [])
      then (
        elim pair [
          | none ↦ err no_pair
          | some cert ↦ elim (tls_cert_fingerprint lib cert) [
            | err e ↦ err e
            | ok fp ↦ ok (record { cert = cert; insecure = not verify; fingerprint = fp })
          ]
        ],
        ids,
      )
      else let (r, ids') = load_or_generate_identity now key_random random default_dir ids in
        (
          elim r [
            | err e ↦ err e
            | ok (cert, fp) ↦ ok (record { cert = cert; insecure = not verify; fingerprint = fp })
          ],
          ids',
        )
