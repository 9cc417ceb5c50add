-- ===== src/Relay/Identity/Cache/Failure.antt =====
-- relay/identity.go: what the cache does with an error.
use tunnelmanager.Prelude.{
  ◌∙◌, ◌≡◌, Bytes, Option, Result, [], ap, err, false, if_both, if_split, none, refl, some, text_eq,
  text_eq_refl, ℕ,
}
use tunnelmanager.Relay.Identity.{Certificate, Crypto, IdentityError, Home}
use tunnelmanager.Relay.Identity.Cache.{
  Identities, cached, still_good, refresh, by_cache, load_or_generate_identity,
}
use tunnelmanager.Relay.Identity.Cache.Calls.{call}

module _ {K P : Type 0} (lib : Crypto K P) where
  failure_cached :
      (now key_random random : ℕ) (dir : Bytes) (ids : Identities K) (e : IdentityError)
      → text_eq dir [] ≡ false
      → (call lib (now, key_random, random, dir) ids).0 ≡ err e
      → cached dir (call lib (now, key_random, random, dir) ids).1.cache ≡ some (err e)
  unfolding call load_or_generate_identity by_cache refresh
  failure_cached now key_random random dir ids e given =
      if_split
        (λ (r : Result IdentityError (Certificate K × Bytes) × Identities K).
          r.0 ≡ err e → cached dir r.1.cache ≡ some (err e))
        (text_eq dir []) (λ x. cc) (λ _. by_entry (cached dir ids.cache) refl)
    where
      refreshed :
          (refresh lib now key_random random dir ids).0 ≡ err e
          → cached dir (refresh lib now key_random random dir ids).1.cache ≡ some (err e)
      refreshed h = rw (text_eq_refl dir) (ap some h)

      by_entry :
          (o : Option (Result IdentityError (Certificate K × Bytes)))
          → cached dir ids.cache ≡ o
          → (by_cache lib now key_random random dir ids o).0 ≡ err e
          → cached dir (by_cache lib now key_random random dir ids o).1.cache ≡ some (err e)
      by_entry none x = refreshed
      by_entry (some entry) x =
          if_both
            (λ (r : Result IdentityError (Certificate K × Bytes) × Identities K).
              r.0 ≡ err e → cached dir r.1.cache ≡ some (err e))
            (still_good lib now entry) (λ h. x ∙ ap some h) refreshed

  cached_failure :
      (now key_random random : ℕ) (dir : Bytes) (ids : Identities K) (e : IdentityError)
      → text_eq dir [] ≡ false
      → cached dir ids.cache ≡ some (err e)
      → (call lib (now, key_random, random, dir) ids).0 ≡ err e
  unfolding call load_or_generate_identity by_cache still_good
  cached_failure now key_random random dir ids e given h =
      rw (call, load_or_generate_identity, given, h)

  -- A call of LoadOrGenerateIdentity for a named directory that fails makes the next call for that
  -- directory fail with the same error, at any time and whatever the files are by then.
  pub failure_stays :
      (now key_random random now' key_random' random' : ℕ) (dir : Bytes) (ids : Identities K)
      (repaired : Bytes → Home) (e : IdentityError)
      → text_eq dir [] ≡ false
      → (call lib (now, key_random, random, dir) ids).0 ≡ err e
      → (call lib
          (now', key_random', random', dir)
          (record {
            cache = (call lib (now, key_random, random, dir) ids).1.cache;
            homes = repaired;
          })).0
        ≡ err e
  failure_stays now key_random random now' key_random' random' dir ids repaired e given h =
      cached_failure now' key_random' random' dir
        (record { cache = (call lib (now, key_random, random, dir) ids).1.cache; homes = repaired })
        e given (failure_cached now key_random random dir ids e given h)
