-- ===== src/Relay/KnownHosts/Trust.antt =====
-- Trust on first use in relay/knownhosts.go and relay/tls.go.
use tunnelmanager.Prelude.{
  ◌∙◌, ◌∷◌, ◌≡◌, ◌≢◌, ◌⊎◌, Bool, Bytes, List, Option, Option-cases, [], arith, err, false,
  if◌then◌else◌, inl, inr, none, ok, refl, some, text_eq, text_eq_iff, text_eq_refl, true,
}
use tunnelmanager.Relay.KnownHosts.{
  KnownHosts, fingerprint_mismatch, no_path, create_failed, recorded, forget, record_host,
  save_locked, verify, accept, first_use_failed, host_refused, trust_first,
  verify_server_fingerprint,
}
use tunnelmanager.Manager.Samples.{configured}

recorded-forget :
    (h k : Bytes) (es : List (Bytes × Bytes))
    → recorded k (forget h es) ≡ (if text_eq h k then none else recorded k es)
unfolding recorded forget
recorded-forget h k [] = ground arith
recorded-forget h k ((j, fp) ∷ es) = ground (
  arith,
  recorded-forget h k es,
  text_eq_iff j h,
  text_eq_iff j k,
  text_eq_iff h k,
  text_eq_refl h,
)

pub recorded-record_host :
    (h fp k : Bytes) (es : List (Bytes × Bytes))
    → recorded k (record_host h fp es) ≡ (if text_eq h k then some fp else recorded k es)
unfolding recorded record_host
recorded-record_host h fp k es = ground (arith, recorded-forget h k es)

save_locked-entries : (kh : KnownHosts) → (save_locked kh).1.entries ≡ kh.entries
unfolding save_locked
save_locked-entries kh = ground arith

-- Accept, whether it succeeds or fails, leaves every recorded fingerprint as it was and adds at
-- most the given one for the given host, if that had none.
pub accept-recorded :
    (h fp k : Bytes) (kh : KnownHosts)
    → recorded k (accept h fp kh).1.entries ≡ elim (recorded k kh.entries) [
      | some known ↦ some known
      | none ↦ if text_eq h k then some fp else none
    ]
unfolding accept
accept-recorded h fp k kh =
    let next_entries = save_locked-entries (record kh { entries = record_host h fp kh.entries }) in
    elim (Option-cases (recorded h kh.entries)) [
      | inl e ↦
          ground (arith, next_entries, recorded-record_host h fp k kh.entries, text_eq_iff h k)
      | inr (known, e) ↦ ground (
        arith,
        next_entries,
        recorded-record_host h fp k kh.entries,
        text_eq_iff h k,
        text_eq_iff known fp,
      )
    ]

pub trusted_recorded :
    (addr fp : Bytes) (kh : KnownHosts)
    → (verify_server_fingerprint true addr [] (some fp) kh).0 ≡ ok tt
    → recorded addr (verify_server_fingerprint true addr [] (some fp) kh).1.entries ≡ some fp
unfolding verify_server_fingerprint trust_first verify
trusted_recorded addr fp kh h = elim (Option-cases (recorded addr kh.entries)) [
  | inl e ↦ ground (arith, accept-recorded addr fp addr kh, text_eq_refl addr)
  | inr (known, e) ↦ ground (arith, text_eq_iff known fp)
]

refuses :
    (addr fp other : Bytes) (kh : KnownHosts)
    → recorded addr kh.entries ≡ some fp
    → other ≢ fp
    → verify_server_fingerprint true addr [] (some other) kh
      ≡ (err (host_refused (fingerprint_mismatch fp)), kh)
unfolding verify_server_fingerprint trust_first verify
refuses addr fp other kh e d = ground (arith, text_eq_iff fp other)

-- The calls that use a store: Accept, and verifyServerFingerprint with its arguments.
pub data Call : Type 0 where
  accepts : Bytes → Bytes → Call
  checks : Bool → Bytes → Bytes → Option Bytes → Call

unfoldable pub call : Call → KnownHosts → KnownHosts
call (accepts h fp) kh = (accept h fp kh).1
call (checks configured addr pinned peer) kh =
    (verify_server_fingerprint configured addr pinned peer kh).1

unfoldable pub calls : List Call → KnownHosts → KnownHosts
unfolding call
calls [] kh = kh
calls (c ∷ cs) kh = calls cs (call c kh)

accept-stays :
    (h new addr fp : Bytes) (kh : KnownHosts)
    → recorded addr kh.entries ≡ some fp
    → recorded addr (accept h new kh).1.entries ≡ some fp
accept-stays h new addr fp kh e = accept-recorded h new addr kh ∙ rw e refl

call-stays :
    (c : Call) (addr fp : Bytes) (kh : KnownHosts)
    → recorded addr kh.entries ≡ some fp
    → recorded addr (call c kh).entries ≡ some fp
unfolding call verify_server_fingerprint trust_first verify
call-stays (accepts h new) addr fp kh e = accept-stays h new addr fp kh e
call-stays (checks configured host pinned none) addr fp kh e = e
call-stays (checks configured host pinned (some new)) addr fp kh e =
    ground (arith, accept-stays host new addr fp kh e)

calls-stay :
    (cs : List Call) (addr fp : Bytes) (kh : KnownHosts)
    → recorded addr kh.entries ≡ some fp
    → recorded addr (calls cs kh).entries ≡ some fp
unfolding calls
calls-stay [] addr fp kh e = e
calls-stay (c ∷ cs) addr fp kh e = calls-stay cs addr fp (call c kh) (call-stays c addr fp kh e)

-- Once a connection to an address was trusted without a pinned fingerprint, and after any further
-- calls of Accept and verifyServerFingerprint on the store, for any hosts, every connection there
-- without a pinned fingerprint that shows another one is refused and the store does not change.
pub first_use_pins :
    (addr fp other : Bytes) (kh : KnownHosts) (cs : List Call)
    → (verify_server_fingerprint true addr [] (some fp) kh).0 ≡ ok tt
    → other ≢ fp
    → let after = calls cs (verify_server_fingerprint true addr [] (some fp) kh).1 in
      verify_server_fingerprint true addr [] (some other) after
      ≡ (err (host_refused (fingerprint_mismatch fp)), after)
first_use_pins addr fp other kh cs h d =
    let trusted = (verify_server_fingerprint true addr [] (some fp) kh).1 in
    refuses addr fp other (calls cs trusted)
      (calls-stay cs addr fp trusted (trusted_recorded addr fp kh h)) d

-- When the store cannot be written, the first connection to an unknown address is refused, but its
-- fingerprint stays in memory and the next connection that shows it is trusted.
pub refused_then_trusted :
    (addr fp : Bytes) (kh : KnownHosts)
    → recorded addr kh.entries ≡ none
    → kh.creatable ≡ false
    → let r = verify_server_fingerprint true addr [] (some fp) kh in
      ((r.0 ≡ err (first_use_failed create_failed)) ⊎ (r.0 ≡ err (first_use_failed no_path)))
      × ((verify_server_fingerprint true addr [] (some fp) r.1).0 ≡ ok tt)
unfolding verify_server_fingerprint trust_first verify accept save_locked
refused_then_trusted addr fp kh new w =
    ground (arith, recorded-record_host addr fp addr kh.entries, text_eq_refl addr, text_eq_refl fp)
