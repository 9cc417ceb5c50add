-- ===== src/Relay/KnownHosts/Runs.antt =====
-- A concrete store of relay/knownhosts.go.
use tunnelmanager.Prelude.{
  ◌∷◌, ◌≡◌, ◌⊎◌, Bool, Bytes, List, [], arith, codes, err, false, has_prefix, is_space, ok, refl,
  some, text_eq, true,
}
use tunnelmanager.Relay.KnownHosts.{
  no_file, KnownHosts, fingerprint_mismatch, no_path, create_failed, recorded, load_known_hosts,
  save_locked, verify, accept, first_use_failed, host_refused, trust_first,
  verify_server_fingerprint,
}
use tunnelmanager.Relay.KnownHosts.RoundTrip.{Fine, load_known_hosts-save_locked}
use tunnelmanager.Relay.KnownHosts.Trust.{
  first_use_pins, refused_then_trusted, accepts, checks, calls,
}

abbrev fp_a : Bytes
fp_a = codes "SHA256:a"

abbrev fp_b : Bytes
fp_b = codes "SHA256:b"

abbrev store : Bool → List (Bytes × Bytes) → KnownHosts
store creatable entries = record {
  path = codes "k";
  entries = entries;
  file = no_file;
  creatable = creatable;
}

first_use_pins_example :
    let after =
      calls
        (accepts (codes "g:1") fp_b ∷ checks true (codes "h:1") [] (some fp_b) ∷ [])
        (verify_server_fingerprint true (codes "h:1") [] (some fp_a) (store true [])).1 in
    verify_server_fingerprint true (codes "h:1") [] (some fp_b) after
    ≡ (err (host_refused (fingerprint_mismatch fp_a)), after)
unfolding verify_server_fingerprint trust_first verify accept save_locked recorded text_eq
first_use_pins_example =
    first_use_pins (codes "h:1") fp_a fp_b (store true [])
      (accepts (codes "g:1") fp_b ∷ checks true (codes "h:1") [] (some fp_b) ∷ []) refl
      (λ e. ground arith)

refused_then_trusted_example :
    let r = verify_server_fingerprint true (codes "h:1") [] (some fp_a) (store false []) in
    ((r.0 ≡ err (first_use_failed create_failed)) ⊎ (r.0 ≡ err (first_use_failed no_path)))
    × ((verify_server_fingerprint true (codes "h:1") [] (some fp_a) r.1).0 ≡ ok tt)
unfolding recorded
refused_then_trusted_example = refused_then_trusted (codes "h:1") fp_a (store false []) refl refl

entry-Fine : Fine (codes "h:1", fp_a)
unfolding has_prefix is_space
entry-Fine = record {
  host_word = record { some_byte = omega arith; no_space = (refl, (refl, (refl, tt))) };
  no_comment = refl;
  fp_word = record {
    some_byte = omega arith;
    no_space = (refl, (refl, (refl, (refl, (refl, (refl, (refl, (refl, tt))))))));
  };
  fp_kind = refl;
  short = omega arith;
}

load_known_hosts-save_locked_example :
    (loaded : KnownHosts) × ((save_locked (store true ((codes "h:1", fp_a) ∷ []))).0 ≡ ok tt)
    × (load_known_hosts
          (codes "k")
          (save_locked (store true ((codes "h:1", fp_a) ∷ []))).1.file
          true
        ≡ ok loaded)
    × (recorded (codes "h:1") loaded.entries ≡ some fp_a)
unfolding recorded text_eq
load_known_hosts-save_locked_example =
    load_known_hosts-save_locked (store true ((codes "h:1", fp_a) ∷ [])) (codes "h:1")
      (entry-Fine, tt) (refl, tt) (omega arith) refl
