-- ===== src/Relay/KnownHosts/RoundTrip.antt =====
-- The file of relay/knownhosts.go, saved and loaded.
use tunnelmanager.Prelude.{
  ◌++◌, ◌+◌, ◌<◌, ◌∙◌, ◌∷◌, ◌≡◌, All, Bytes, IsWord, List, [], ap, append_assoc, arith, codes,
  false, fields, fields_two, has_prefix, length, length-append, none, ok, refl, some, split_lines,
  split_lines_two, sym, text_eq_iff, true,
}
use tunnelmanager.Relay.KnownHosts.{
  KnownHosts, recorded, record_host, read_entry, read_lines, max_line, any_too_long,
  load_known_hosts, print_entries, save_locked, holds,
}
use tunnelmanager.Relay.KnownHosts.Trust.{recorded-record_host}

-- What the file can hold: a host and a fingerprint that are words, and a line within the limit.
pub record Fine (e : Bytes × Bytes) : Type 0 where
  pub host_word : IsWord e.0
  pub no_comment : has_prefix (codes "#") e.0 ≡ false
  pub fp_word : IsWord e.1
  pub fp_kind : has_prefix (codes "SHA256:") e.1 ≡ true
  pub short : length e.0 + length e.1 + 1 < max_line

-- The entries of a map: every host once.
abbrev pub Distinct : List (Bytes × Bytes) → Type 0
Distinct [] = Unit
Distinct ((h, fp) ∷ es) = (recorded h es ≡ none) × Distinct es

print_line :
    (h fp : Bytes) (es : List (Bytes × Bytes))
    → print_entries ((h, fp) ∷ es) ≡ (h ++ (32 ∷ fp)) ++ (10 ∷ print_entries es)
unfolding print_entries
print_line h fp es = sym (append_assoc h (32 ∷ fp) (10 ∷ print_entries es))

read_entry_two :
    (h fp : Bytes) (es : List (Bytes × Bytes))
    → Fine (h, fp)
    → read_entry (fields (h ++ (32 ∷ fp))) es ≡ record_host h fp es
unfolding read_entry
read_entry_two h fp es v =
    rw (fields_two h fp v.host_word v.fp_word, read_entry, v.no_comment, v.fp_kind) refl

lines_of :
    (h fp : Bytes) (es : List (Bytes × Bytes))
    → Fine (h, fp)
    → split_lines (print_entries ((h, fp) ∷ es)) ≡ (h ++ (32 ∷ fp)) ∷ split_lines (print_entries es)
lines_of h fp es v =
    ap split_lines (print_line h fp es)
    ∙ split_lines_two h fp (print_entries es) v.host_word v.fp_word

read_nothing : (acc : List (Bytes × Bytes)) → read_lines (split_lines (print_entries [])) acc ≡ acc
unfolding read_lines split_lines print_entries read_entry fields
read_nothing acc = refl

nothing_long : any_too_long (split_lines (print_entries [])) ≡ false
unfolding any_too_long split_lines print_entries
nothing_long = refl

read_lines-print_entries :
    (k : Bytes) (es acc : List (Bytes × Bytes))
    → All Fine es
    → Distinct es
    → recorded k (read_lines (split_lines (print_entries es)) acc)
      ≡ elim (recorded k es) [ some fp ↦ some fp | none ↦ recorded k acc ]
unfolding read_lines recorded
read_lines-print_entries k [] acc f d = rw (read_nothing acc) refl
read_lines-print_entries k ((h, fp) ∷ es) acc f d =
    rw (lines_of h fp es f.0, read_lines, read_entry_two h fp acc f.0)
      (read_lines-print_entries k es (record_host h fp acc) f.1 d.1
        ∙ ground (arith, recorded-record_host h fp k acc, text_eq_iff h k, d.0))

lines_short :
    (es : List (Bytes × Bytes))
    → All Fine es
    → any_too_long (split_lines (print_entries es)) ≡ false
unfolding any_too_long
lines_short [] f = nothing_long
lines_short ((h, fp) ∷ es) f =
    rw (lines_of h fp es f.0, any_too_long)
      (ground (arith, length-append h (32 ∷ fp), f.0.short, lines_short es f.1))

save_locked_lem :
    (kh : KnownHosts)
    → 0 < length kh.path
    → kh.creatable ≡ true
    → save_locked kh ≡ (ok tt, record kh { file = holds (print_entries kh.entries) })
unfolding save_locked
save_locked_lem kh p w = ground arith

-- A store with a path that can be written is saved without error and loaded with the same
-- fingerprint for every host, when its hosts and fingerprints are words that the file format can
-- hold and each host stands once.
pub load_known_hosts-save_locked :
    (kh : KnownHosts) (k : Bytes)
    → All Fine kh.entries
    → Distinct kh.entries
    → 0 < length kh.path
    → kh.creatable ≡ true
    → (loaded : KnownHosts) × ((save_locked kh).0 ≡ ok tt)
      × (load_known_hosts kh.path (save_locked kh).1.file true ≡ ok loaded)
      × (recorded k loaded.entries ≡ recorded k kh.entries)
unfolding load_known_hosts recorded
load_known_hosts-save_locked kh k f d p w =
    let saved = save_locked_lem kh p w in
    let entries = read_lines (split_lines (print_entries kh.entries)) [] in
    let again = read_lines-print_entries k kh.entries [] f d in
    let same : recorded k entries ≡ recorded k kh.entries = ground arith in
    (
      record {
        path = kh.path;
        entries = entries;
        file = holds (print_entries kh.entries);
        creatable = true;
      },
      rw saved refl,
      rw (saved, load_known_hosts, lines_short kh.entries f) refl,
      same,
    )
