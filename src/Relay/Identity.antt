-- ===== src/Relay/Identity.antt =====
-- relay/identity.go, and SetupTLS of relay/tls.go. The crypto packages are a parameter, and so are
-- the time and the random numbers of a call.
pub mod Cache
pub mod Samples
use tunnelmanager.Prelude.{
  ◌*◌, ◌++◌, ◌+◌, ◌-◌, ◌∷◌, Action, Bool, Bytes, List, Option, Result, [], codes, err,
  if◌then◌else◌, ltb, none, not, ok, some, text_eq, true, ℕ,
}
use tunnelmanager.Manager.Config.{content}

pub record Leaf (P : Type 0) : Type 0 where
  pub not_after : ℕ
  pub public_key : P

-- tls.Certificate: the chain in DER, and the private key.
pub record Certificate (K : Type 0) : Type 0 where
  pub chain : List Bytes
  pub private_key : Option K

-- The calls of crypto/ecdsa, crypto/x509, crypto/tls, crypto/sha256 and encoding/pem. The number is
-- what the random source gives; `none` is an error, or no PEM block.
pub record Crypto (K P : Type 0) : Type 0 where
  pub pem_decode : Bytes → Option (Bytes × Bytes)
  pub pem_encode : Bytes → Bytes → Bytes
  pub parse_ec : Bytes → Option K
  pub parse_pkcs8 : Bytes → Option (Option K)  -- `some none` is a key that is not ECDSA
  pub marshal_ec : K → Option Bytes
  pub generate_key : ℕ → Option K
  pub public : K → P
  pub deep_equal : P → P → Bool
  pub create_certificate : ℕ → ℕ → ℕ → K → Option Bytes  -- random, NotBefore, NotAfter
  pub parse_certificate : Bytes → Option (Leaf P)
  pub key_pair : Bytes → Bytes → Option (Certificate K)  -- the contents of both files
  pub marshal_pkix : P → Option Bytes
  pub sha256_base64 : Bytes → Bytes

pub data IdentityError : Type 0 where
  mkdir_failed no_key_file unreadable_key no_pem bad_key not_ecdsa unsupported_key : IdentityError
  generate_failed marshal_failed write_failed : IdentityError
  no_pair no_certificates bad_certificate expired near_expiry other_key : IdentityError
  create_failed pkix_failed : IdentityError

-- A directory: cert-key.pem, cert.pem, whether the key file can be read, and which writes
-- succeed. A failed write changes nothing here.
pub record Home : Type 0 where
  pub key_file : Option Bytes
  pub cert_file : Option Bytes
  pub can_mkdir : Bool
  pub can_read_key : Bool
  pub can_write_key : Bool
  pub can_write_cert : Bool

hour : ℕ
hour = 3_600_000_000_000

-- rotationWindow.
pub rotation_window : ℕ
unfolding hour
rotation_window = 30 * 24 * hour

abbrev or_fail : {E A : Type 0} → E → Option A → Result E A
or_fail e none = err e
or_fail e (some a) = ok a

module _ {K P : Type 0} (lib : Crypto K P) where
  unfoldable pub public_key_fingerprint : P → Result IdentityError Bytes
  public_key_fingerprint pub_key = elim (lib.marshal_pkix pub_key) [
    | none ↦ err pkix_failed
    | some der ↦ ok (codes "SHA256:" ++ lib.sha256_base64 der)
  ]

  pub peer_fingerprint : Leaf P → Bytes
  unfolding public_key_fingerprint
  peer_fingerprint leaf = elim (public_key_fingerprint leaf.public_key) [ ok fp ↦ fp | err _ ↦ [] ]

  unfoldable pub tls_cert_fingerprint : Certificate K → Result IdentityError Bytes
  unfolding public_key_fingerprint
  tls_cert_fingerprint cert = elim cert.chain [
    | [] ↦ err no_certificates
    | der ∷ _ ↦ elim (lib.parse_certificate der) [
      | none ↦ err bad_certificate
      | some leaf ↦ public_key_fingerprint leaf.public_key
    ]
  ]

  pub cert_needs_rotation : ℕ → Certificate K → Bool
  unfolding rotation_window
  cert_needs_rotation now cert = elim cert.chain [
    | [] ↦ true
    | der ∷ _ ↦ elim (lib.parse_certificate der) [
      | none ↦ true
      | some leaf ↦ ltb leaf.not_after (now + rotation_window)
    ]
  ]

  pub parse_block : Bytes × Bytes → Result IdentityError K
  parse_block (type, data') =
      if text_eq type (codes "EC PRIVATE KEY")
      then or_fail bad_key (lib.parse_ec data')
      else if text_eq type (codes "PRIVATE KEY")
      then (elim (lib.parse_pkcs8 data') [ none ↦ err bad_key | some key ↦ or_fail not_ecdsa key ])
      else err unsupported_key

  pub load_identity_key : Home → Result IdentityError K
  unfolding parse_block
  load_identity_key home = elim home.key_file [
    | none ↦ err no_key_file
    | some pem ↦
        if not home.can_read_key
        then err unreadable_key
        else elim (lib.pem_decode pem) [ none ↦ err no_pem | some block ↦ parse_block block ]
  ]

  pub save_identity_key : K → Action Home IdentityError (Unit {0})
  save_identity_key key home = elim (lib.marshal_ec key) [
    | none ↦ (err marshal_failed, home)
    | some data' ↦
        if home.can_write_key
        then (
          ok tt,
          record home { key_file = some (lib.pem_encode (codes "EC PRIVATE KEY") data') },
        )
        else (err write_failed, home)
  ]

  pub check_leaf : ℕ → K → Certificate K → Leaf P → Result IdentityError (Certificate K)
  unfolding cert_needs_rotation
  check_leaf now key cert leaf =
      if ltb leaf.not_after now
      then err expired
      else if cert_needs_rotation now cert
      then err near_expiry
      else if not (lib.deep_equal leaf.public_key (lib.public key))
      then err other_key
      else ok cert

  -- LoadX509KeyPair reads both files.
  pub try_load_cert : ℕ → K → Home → Result IdentityError (Certificate K)
  unfolding check_leaf
  try_load_cert now key home = elim home.cert_file [
    | none ↦ err no_pair
    | some cert_pem ↦ elim home.key_file [
      | none ↦ err no_pair
      | some key_pem ↦
          if not home.can_read_key then err no_pair else elim (lib.key_pair cert_pem key_pem) [
            | none ↦ err no_pair
            | some cert ↦ elim cert.chain [
              | [] ↦ err no_certificates
              | der ∷ _ ↦ elim (lib.parse_certificate der) [
                | none ↦ err bad_certificate
                | some leaf ↦ check_leaf now key cert leaf
              ]
            ]
          ]
    ]
  ]

  pub save_identity_cert : Certificate K → Action Home IdentityError (Unit {0})
  save_identity_cert cert home = elim cert.chain [
    | [] ↦ (err no_certificates, home)
    | der ∷ _ ↦
        if home.can_write_cert
        then (ok tt, record home { cert_file = some (lib.pem_encode (codes "CERTIFICATE") der) })
        else (err write_failed, home)
  ]

  pub generate_cert_with_key : ℕ → ℕ → K → Result IdentityError (Certificate K)
  unfolding hour
  generate_cert_with_key now random key =
      elim (lib.create_certificate random (now - hour) (now + 365 * 24 * hour) key) [
        | none ↦ err create_failed
        | some der ↦ ok (record { chain = der ∷ []; private_key = some key })
      ]

  pub generate_cert : ℕ → ℕ → ℕ → Result IdentityError (Certificate K)
  unfolding generate_cert_with_key
  generate_cert now key_random random = elim (lib.generate_key key_random) [
    | none ↦ err generate_failed
    | some key ↦ generate_cert_with_key now random key
  ]
