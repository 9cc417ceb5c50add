-- ===== src/Relay/Identity/Cache/Runs.antt =====
-- relay/identity.go in the process of a server that runs for a year.
use tunnelmanager.Prelude.{
  ◌*◌, ◌++◌, ◌+◌, ◌∷◌, ◌≡◌, Bytes, [], codes, drop-append_left, err, false, ok, refl, some,
  take-append_left, text_eq, ℕ,
}
use tunnelmanager.Relay.Identity.{
  Certificate, Home, hour, rotation_window, public_key_fingerprint, cert_needs_rotation,
  parse_block, load_identity_key, save_identity_key, check_leaf, try_load_cert, save_identity_cert,
  generate_cert_with_key, write_failed,
}
use tunnelmanager.Relay.Identity.Cache.Stable.{RoundTrips}
use tunnelmanager.Relay.Identity.Cache.{
  load_or_generate_identity, Identities, with_fingerprint, renew_cert, certify, new_key,
  certify_new, load_or_generate_locked, still_good, refresh, ephemeral, by_cache,
}
use tunnelmanager.Relay.Identity.Cache.Calls.{call, calls, after, fingerprint_stable}
use tunnelmanager.Relay.Identity.Cache.Failure.{failure_stays}
use tunnelmanager.Relay.Identity.Samples.{plain, no_files}

RoundTrips_plain : RoundTrips plain
RoundTrips_plain = record {
  decode = λ type data'. rw (take-append_left type data', drop-append_left type data');
  reparse = λ key der h. cc;
}

abbrev day : ℕ
day = 86_400_000_000_000

-- A certificate for the key 7, made at a time.
abbrev made_at : ℕ → Certificate ℕ
made_at now = record { chain = ((now + 365 * day) ∷ 7 ∷ []) ∷ []; private_key = some 7 }

abbrev seven : Bytes
seven = codes "SHA256:" ++ (7 ∷ [])

abbrev directory : Bytes
directory = 100 ∷ []

-- The first call makes a key and a certificate; the second one comes a year later and renews it.
first_call :
    (call plain (day, 7, 0, directory) (after plain [] no_files)).0 ≡ ok (made_at day, seven)
unfolding call calls load_or_generate_identity ephemeral by_cache refresh still_good
    load_or_generate_locked certify_new certify renew_cert new_key with_fingerprint
    load_identity_key parse_block save_identity_key try_load_cert check_leaf save_identity_cert
    generate_cert_with_key cert_needs_rotation public_key_fingerprint rotation_window hour text_eq
first_call = refl

abbrev started : Identities ℕ
started = (call plain (day, 7, 0, directory) (after plain [] no_files)).1

second_call :
    (call plain (360 * day, 8, 1, directory) (calls plain [] started)).0
    ≡ ok (made_at (360 * day), seven)
unfolding call calls load_or_generate_identity ephemeral by_cache refresh still_good
    load_or_generate_locked certify_new certify renew_cert new_key with_fingerprint
    load_identity_key parse_block save_identity_key try_load_cert check_leaf save_identity_cert
    generate_cert_with_key cert_needs_rotation public_key_fingerprint rotation_window hour text_eq
second_call = refl

fingerprint_stable_example : seven ≡ seven
unfolding text_eq
fingerprint_stable_example =
    fingerprint_stable plain RoundTrips_plain no_files [] [] day 7 0 (360 * day) 8 1 directory seven
      seven (made_at day) (made_at (360 * day)) (λ d. refl) refl first_call second_call

-- A directory in which nothing can be written.
abbrev full_disk : Bytes → Home
full_disk dir = record (no_files dir) { can_write_key = false }

failed_call : (call plain (day, 7, 0, directory) (after plain [] full_disk)).0 ≡ err write_failed
unfolding call calls load_or_generate_identity by_cache refresh load_or_generate_locked certify_new
    new_key load_identity_key save_identity_key text_eq
failed_call = refl

failure_stays_example :
    (call plain
      (2 * day, 8, 1, directory)
      (record {
        cache = (call plain (day, 7, 0, directory) (after plain [] full_disk)).1.cache;
        homes = no_files;
      })).0
    ≡ err write_failed
unfolding text_eq
failure_stays_example =
    failure_stays plain day 7 0 (2 * day) 8 1 directory (after plain [] full_disk) no_files
      write_failed refl failed_call
