-- ===== src/Relay/TlsDial/Checked.antt =====
-- relay/tls.go: no connection is used whose server was not checked, unless that was asked for.
use tunnelmanager.Prelude.{
  ◌∙◌, ◌∷◌, ◌≡◌, ◌⊎◌, Bool, Bool-cases, Bytes, Option, Result, [], ap, arith, err, false, if_split,
  inl, inr, none, ok, refl, some, subst, sym, text_eq_iff, true,
}
use tunnelmanager.Relay.KnownHosts.{KnownHosts, recorded, TlsError, verify_server_fingerprint}
use tunnelmanager.Relay.TlsDial.{
  DialConfig, manual_verify, skip_verify, TlsDialError, after_check, check_peer, after_handshake,
  tls_dial,
}
use tunnelmanager.Relay.KnownHosts.Trust.{trusted_recorded}

-- The ways in which a server that is used was checked, or not.
pub data CheckedBy (handshakes : Bool → Option (Option Bytes)) (addr : Bytes) (cfg : DialConfig)
    (peer : Option Bytes) (kh : KnownHosts) : Type 0 where
  by_chain :
      skip_verify cfg ≡ false → handshakes false ≡ some peer → CheckedBy handshakes addr cfg peer kh
  by_pin : peer ≡ some cfg.server_fingerprint → CheckedBy handshakes addr cfg peer kh
  by_store :
      (fp : Bytes)
      → peer ≡ some fp
      → recorded addr kh.entries ≡ some fp
      → CheckedBy handshakes addr cfg peer kh
  unchecked :
      cfg.insecure ≡ true → manual_verify cfg ≡ false → CheckedBy handshakes addr cfg peer kh

fingerprint_checked :
    (has_store : Bool) (addr pin fp : Bytes) (kh : KnownHosts)
    → (verify_server_fingerprint has_store addr pin (some fp) kh).0 ≡ ok tt
    → (fp ≡ pin)
      ⊎ (recorded addr (verify_server_fingerprint has_store addr pin (some fp) kh).1.entries
          ≡ some fp)
unfolding verify_server_fingerprint
fingerprint_checked has_store addr (x ∷ pin) fp kh h = ground (arith, text_eq_iff fp (x ∷ pin))
fingerprint_checked false addr [] fp kh h = cc
fingerprint_checked true addr [] fp kh h = inr (trusted_recorded addr fp kh h)

after_check_ok :
    (handshakes : Bool → Option (Option Bytes)) (addr : Bytes) (cfg : DialConfig)
    (shown peer : Option Bytes) (kh kh' : KnownHosts)
    → after_check shown
        (verify_server_fingerprint cfg.has_store addr cfg.server_fingerprint shown kh)
      ≡ (ok peer, kh')
    → CheckedBy handshakes addr cfg peer kh'
unfolding after_check verify_server_fingerprint
after_check_ok handshakes addr cfg none peer kh kh' h = cc
after_check_ok handshakes addr cfg (some fp) peer kh kh' h =
    by_result (verify_server_fingerprint cfg.has_store addr cfg.server_fingerprint (some fp) kh)
      refl h
  where
    by_result :
        (r : Result TlsError (Unit {0}) × KnownHosts)
        → verify_server_fingerprint cfg.has_store addr cfg.server_fingerprint (some fp) kh ≡ r
        → after_check (some fp) r ≡ (ok peer, kh')
        → CheckedBy handshakes addr cfg peer kh'
    by_result (err e, k) v g = cc
    by_result (ok _, k) v g =
        let same : some fp ≡ peer = cc in
        let store : k ≡ kh' = cc in
        let good : (verify_server_fingerprint cfg.has_store addr cfg.server_fingerprint (some fp)
              kh).0
            ≡ ok tt =
          rw v in
        elim (fingerprint_checked cfg.has_store addr cfg.server_fingerprint fp kh good) [
          | inl e ↦ by_pin (sym same ∙ ap some e)
          | inr e ↦ by_store fp (sym same) (
              subst (λ (x : KnownHosts). recorded addr x.entries ≡ some fp)
                (ap (λ (x : Result TlsError (Unit {0}) × KnownHosts). x.1) v ∙ store) e)
        ]

not_verified :
    (handshakes : Bool → Option (Option Bytes)) (addr : Bytes) (cfg : DialConfig)
    (shown peer : Option Bytes) (kh kh' : KnownHosts)
    → handshakes (skip_verify cfg) ≡ some shown
    → manual_verify cfg ≡ false
    → ◌≡◌ {A = Result TlsDialError (Option Bytes) × KnownHosts} (ok shown, kh) (ok peer, kh')
    → CheckedBy handshakes addr cfg peer kh'
not_verified handshakes addr cfg shown peer kh kh' e off h = elim (Bool-cases cfg.insecure) [
  | inl on ↦ unchecked on off
  | inr on ↦
      let chain : skip_verify cfg ≡ false = ground arith in
      let same : shown ≡ peer = cc in by_chain chain (ap handshakes (sym chain) ∙ e ∙ ap some same)
]

pub tls_dial_checked :
    (handshakes : Bool → Option (Option Bytes)) (addr : Bytes) (cfg : DialConfig)
    (peer : Option Bytes) (kh kh' : KnownHosts)
    → tls_dial handshakes addr cfg kh ≡ (ok peer, kh')
    → CheckedBy handshakes addr cfg peer kh'
unfolding tls_dial after_handshake check_peer
tls_dial_checked handshakes addr cfg peer kh kh' = by_handshake (handshakes (skip_verify cfg)) refl
  where
    by_handshake :
        (o : Option (Option Bytes))
        → handshakes (skip_verify cfg) ≡ o
        → after_handshake addr cfg o kh ≡ (ok peer, kh')
        → CheckedBy handshakes addr cfg peer kh'
    by_handshake none e = λ h. cc
    by_handshake (some shown) e =
        if_split
          (λ (r : Result TlsDialError (Option Bytes) × KnownHosts).
            r ≡ (ok peer, kh') → CheckedBy handshakes addr cfg peer kh')
          (manual_verify cfg) (λ _. after_check_ok handshakes addr cfg shown peer kh kh')
          (λ off. not_verified handshakes addr cfg shown peer kh kh' e off)
