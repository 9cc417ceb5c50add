-- ===== src/Relay/KnownHosts.antt =====
-- relay/knownhosts.go, and verifyServerFingerprint of relay/tls.go. A fingerprint is the text that
-- PeerFingerprint makes of a certificate.
pub mod Trust
pub mod RoundTrip
mod Runs
use tunnelmanager.Prelude.{
  ◌*◌, ◌++◌, ◌==◌, ◌||◌, ◌∷◌, Action, Bool, Bytes, List, Option, Result, [], codes, err, false,
  fields, has_prefix, if◌then◌else◌, leb, length, none, not, ok, some, split_lines, text_eq, wrap,
  ℕ,
}
use tunnelmanager.Manager.Samples.{configured}

-- What os.Open finds at the path of the store.
pub data HostsFile : Type 0 where
  no_file unreadable_file : HostsFile
  holds : Bytes → HostsFile

-- `file` is what stands at `path`, and `creatable` says whether it can be written.
pub record KnownHosts : Type 0 where
  pub path : Bytes
  pub entries : List (Bytes × Bytes)
  pub file : HostsFile
  pub creatable : Bool

pub data HostError : Type 0 where
  open_failed line_too_long : HostError
  unknown_host : HostError
  fingerprint_mismatch : Bytes → HostError
  no_path create_failed : HostError

-- The map from hosts to fingerprints.
unfoldable pub recorded : Bytes → List (Bytes × Bytes) → Option Bytes
recorded host [] = none
recorded host ((h, fp) ∷ es) = if text_eq h host then some fp else recorded host es

unfoldable pub forget : Bytes → List (Bytes × Bytes) → List (Bytes × Bytes)
forget host [] = []
forget host ((h, fp) ∷ es) =
    let rest = forget host es in if text_eq h host then rest else (h, fp) ∷ rest

unfoldable pub record_host : Bytes → Bytes → List (Bytes × Bytes) → List (Bytes × Bytes)
unfolding forget
record_host host fp es = (host, fp) ∷ forget host es

-- A line that TrimSpace leaves empty has no fields, and one that then starts with # has it in front
-- of its first field.
unfoldable pub read_entry : List Bytes → List (Bytes × Bytes) → List (Bytes × Bytes)
read_entry [] es = es
read_entry (host ∷ []) es = es
read_entry (host ∷ fp ∷ more) es =
    if has_prefix (codes "#") host || not (has_prefix (codes "SHA256:") fp)
    then es
    else record_host host fp es

unfoldable pub read_lines : List Bytes → List (Bytes × Bytes) → List (Bytes × Bytes)
unfolding read_entry
read_lines [] es = es
read_lines (l ∷ ls) es = read_lines ls (read_entry (fields l) es)

-- bufio.Scanner gives up at a line of 64 KB.
abbrev pub max_line : ℕ
max_line = 64 * 1024

pub any_too_long : List Bytes → Bool
any_too_long [] = false
any_too_long (l ∷ ls) = leb max_line (length l) || any_too_long ls

unfoldable pub load_known_hosts : Bytes → HostsFile → Bool → Result HostError KnownHosts
unfolding any_too_long
load_known_hosts path file creatable = elim file [
  | no_file ↦ ok (record { path = path; entries = []; file = no_file; creatable = creatable })
  | unreadable_file ↦ err open_failed
  | holds b ↦
      if any_too_long (split_lines b)
      then err line_too_long
      else ok (record {
        path = path;
        entries = read_lines (split_lines b) [];
        file = holds b;
        creatable = creatable;
      })
]

-- The order of Go's map is any; here it is that of the list.
unfoldable pub print_entries : List (Bytes × Bytes) → Bytes
print_entries [] = []
print_entries ((h, fp) ∷ es) = h ++ (32 ∷ (fp ++ (10 ∷ print_entries es)))

unfoldable pub save_locked : Action KnownHosts HostError (Unit {0})
save_locked kh =
    if length kh.path == 0
    then (err no_path, kh)
    else if kh.creatable
    then (ok tt, record kh { file = holds (print_entries kh.entries) })
    else (err create_failed, kh)

-- Verify; a store is only read.
unfoldable pub verify : Bytes → Bytes → KnownHosts → Result HostError (Unit {0})
verify host fp kh = elim (recorded host kh.entries) [
  | none ↦ err unknown_host
  | some known ↦ if text_eq known fp then ok tt else err (fingerprint_mismatch known)
]

-- Accept records the host before it saves.
unfoldable pub accept : Bytes → Bytes → Action KnownHosts HostError (Unit {0})
unfolding save_locked
accept host fp kh = elim (recorded host kh.entries) [
  | none ↦ save_locked (record kh { entries = record_host host fp kh.entries })
  | some known ↦
      if text_eq known fp
      then save_locked (record kh { entries = record_host host fp kh.entries })
      else (err (fingerprint_mismatch known), kh)
]

pub data TlsError : Type 0 where
  no_certificate pin_mismatch no_store : TlsError
  first_use_failed host_refused : HostError → TlsError

-- The branches on the error of Verify.
trust_first : Bytes → Bytes → Result HostError (Unit {0}) → Action KnownHosts TlsError (Unit {0})
trust_first host fp (ok _) kh = (ok tt, kh)
trust_first host fp (err unknown_host) kh = wrap first_use_failed (accept host fp) kh
trust_first host fp (err e) kh = (err (host_refused e), kh)

-- verifyServerFingerprint: `pinned` is the configured fingerprint, `peer` that of the server's
-- certificate, if it presented one, and `configured` says whether there is a store.
unfoldable pub verify_server_fingerprint :
    Bool → Bytes → Bytes → Option Bytes → Action KnownHosts TlsError (Unit {0})
unfolding trust_first
verify_server_fingerprint configured addr pinned peer kh = elim peer [
  | none ↦ (err no_certificate, kh)
  | some fp ↦
      if not (length pinned == 0)
      then (if text_eq fp pinned then (ok tt, kh) else (err pin_mismatch, kh))
      else if not configured
      then (err no_store, kh)
      else trust_first addr fp (verify addr fp kh) kh
]
