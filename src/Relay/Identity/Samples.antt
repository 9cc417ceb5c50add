-- ===== src/Relay/Identity/Samples.antt =====
-- Packages for relay/identity.go in which keys are numbers and codings keep every byte.
use tunnelmanager.Prelude.{
  ◌++◌, ◌==◌, ◌∷◌, Bytes, Option, [], drop, length, none, some, take, true, ℕ,
}
use tunnelmanager.Relay.Identity.{Leaf, Certificate, Crypto, Home}

abbrev pub split_pem : Bytes → Option (Bytes × Bytes)
split_pem [] = none
split_pem (n ∷ b) = some (take n b, drop n b)

abbrev pub parse_leaf : Bytes → Option (Leaf ℕ)
parse_leaf (until ∷ k ∷ _) = some (record { not_after = until; public_key = k })
parse_leaf _ = none

abbrev pub pair_up : Option (Bytes × Bytes) → Option (Certificate ℕ)
pair_up none = none
pair_up (some (_, der)) = some (record { chain = der ∷ []; private_key = none })

abbrev pub plain : Crypto ℕ ℕ
plain = record {
  pem_decode = λ b. split_pem b;
  pem_encode = λ type data'. length type ∷ (type ++ data');
  parse_ec = λ b. elim b [ [] ↦ none | k ∷ _ ↦ some k ];
  parse_pkcs8 = λ b. none;
  marshal_ec = λ k. some (k ∷ []);
  generate_key = λ r. some r;
  public = λ k. k;
  deep_equal = λ p q. p == q;
  create_certificate = λ r from until k. some (until ∷ k ∷ []);
  parse_certificate = λ b. parse_leaf b;
  key_pair = λ c k. pair_up (split_pem c);
  marshal_pkix = λ p. some (p ∷ []);
  sha256_base64 = λ b. b;
}

abbrev pub no_files : Bytes → Home
no_files dir = record {
  key_file = none;
  cert_file = none;
  can_mkdir = true;
  can_read_key = true;
  can_write_key = true;
  can_write_cert = true;
}
