-- ===== src/Auth/Factory/Cache.antt =====
-- What the cache promises.
use secure_eye.Prelude.{
  ◌≡◌, refl, sym, ap, ◌∙◌, true, false, ◌&&◌, Option, none, some, eq_iff, if_true,
}
use secure_eye.Python.{Exc, Result, err, ok, ok-injective}
use secure_eye.Auth.Factory.{
  Config, CacheKey, cache_key, same_key, Backends, Cache, cached, build_pipeline, create_pipeline,
  remember, use_cached,
}
use secure_eye.Auth.Pipeline.{Bundle}

same_key_self : (k : CacheKey) → same_key k k ≡ true
unfolding same_key
same_key_self (a, true) = ap (λ b. b && true) ((eq_iff a a).1 refl)
same_key_self (a, false) = ap (λ b. b && true) ((eq_iff a a).1 refl)

module _ {Frame Face : Type 0} where
  remember-cached :
      (key : CacheKey) (cache : Cache Frame Face) (r : Result (Bundle Frame Face))
      (bundle : Bundle Frame Face)
      → (remember key cache r).0 ≡ ok bundle
      → cached key (remember key cache r).1 ≡ some bundle
  unfolding remember cached
  remember-cached key cache (err e) bundle h = absurd (cc)
  remember-cached key cache (ok made) bundle h =
      if_true _ (same_key_self key) ∙ ap some (ok-injective h)

  use_cached-cached :
      (backends : Backends Frame Face) (config : Config) (cache : Cache Frame Face)
      (o : Option (Bundle Frame Face)) (bundle : Bundle Frame Face)
      → cached (cache_key config) cache ≡ o
      → (use_cached backends config cache o).0 ≡ ok bundle
      → cached (cache_key config) (use_cached backends config cache o).1 ≡ some bundle
  unfolding use_cached
  use_cached-cached backends config cache (some made) bundle same h =
      same ∙ ap some (ok-injective h)
  use_cached-cached backends config cache none bundle same h =
      remember-cached (cache_key config) cache (build_pipeline backends config) bundle h

  -- Once a pipeline was made for a configuration, each later call for one with the same backend
  -- settings gives the same pipeline and leaves the cache, whatever the backends would do then.
  pub create_pipeline-create_pipeline :
      (backends later : Backends Frame Face) (config again : Config) (cache : Cache Frame Face)
      (bundle : Bundle Frame Face)
      → (create_pipeline backends config cache).0 ≡ ok bundle
      → cache_key config ≡ cache_key again
      → create_pipeline later again (create_pipeline backends config cache).1
        ≡ (ok bundle, (create_pipeline backends config cache).1)
  unfolding create_pipeline use_cached
  create_pipeline-create_pipeline backends later config again cache bundle h same =
      ap
        (use_cached later again
          (use_cached backends config cache (cached (cache_key config) cache)).1)
        (ap (λ k. cached k (use_cached backends config cache (cached (cache_key config) cache)).1)
            (sym same)
          ∙ use_cached-cached backends config cache (cached (cache_key config) cache) bundle refl h)

  remember-err :
      (key : CacheKey) (cache : Cache Frame Face) (r : Result (Bundle Frame Face)) (e : Exc)
      → (remember key cache r).0 ≡ err e
      → (remember key cache r).1 ≡ cache
  unfolding remember
  remember-err key cache (err e') e h = refl
  remember-err key cache (ok made) e h = absurd (cc)

  use_cached-err :
      (backends : Backends Frame Face) (config : Config) (cache : Cache Frame Face)
      (o : Option (Bundle Frame Face)) (e : Exc)
      → (use_cached backends config cache o).0 ≡ err e
      → (use_cached backends config cache o).1 ≡ cache
  unfolding use_cached
  use_cached-err backends config cache (some made) e h = refl
  use_cached-err backends config cache none e h = remember-err (cache_key config) cache _ e h

  -- A call that raises leaves the cache as it was.
  pub create_pipeline-err :
      (backends : Backends Frame Face) (config : Config) (cache : Cache Frame Face) (e : Exc)
      → (create_pipeline backends config cache).0 ≡ err e
      → (create_pipeline backends config cache).1 ≡ cache
  unfolding create_pipeline
  create_pipeline-err backends config cache e h =
      use_cached-err backends config cache (cached (cache_key config) cache) e h
