-- ===== src/Redis/Pools/Shared.antt =====
-- Pools that are reused: the factories whose keys agree share one.
use throttled_py.Action.{Outcome, ok, raised, ok-injective}
use throttled_py.Common.{
  ◌≡◌, refl, ap, sym, ◌∙◌, true, false, Option, none, some, List, [], ◌∷◌, arith, inl, inr,
  Bool-cases,
}
use throttled_py.Common.Float.{Float}
use throttled_py.Common.Text.{Text, str_eq_iff, str_eq_refl}
use throttled_py.Dict.{Dict, lookup, assign}
use throttled_py.Dict.Laws.{lookup-assign}
use throttled_py.Redis.Pools.{
  Factory, Params, PoolClass, makes_anew, stored, get_pool_key, get_connection_pool,
  get_or_create_connection_pool,
}

module _ ⦃F : Float⦄ where
  -- All the factories reuse the pools.
  abbrev pub AllReuse : List (Factory × Params) → Type 0
  AllReuse [] = Unit
  AllReuse ((f, params) ∷ rest) = (makes_anew f ≡ false) × AllReuse rest

module _ ⦃F : Float⦄ {P : Type 0} where
  -- The connections of some factories, one after the other.
  unfoldable pub connects : PoolClass P → List (Factory × Params) → Dict P → Dict P
  unfolding get_or_create_connection_pool
  connects cls [] pools = pools
  connects cls ((f, params) ∷ rest) pools =
      connects cls rest (get_or_create_connection_pool cls f params pools).1

  stored-found :
      (key : Text) (made : Outcome P) (pools : Dict P) (pool : P) (pools' : Dict P)
      → stored key made pools ≡ (ok pool, pools')
      → lookup key pools' ≡ some pool
  unfolding stored
  stored-found key (ok p) pools pool pools' h =
      let kept : assign key p pools ≡ pools' = ap (λ r. r.1) h in
      let same : p ≡ pool = ok-injective (ap (λ r. r.0) h) in
      rw⁻¹ (kept, same) (rw (lookup-assign key key p pools, str_eq_refl key))
  stored-found key (raised e) pools pool pools' h = ground (arith, ap (λ r. r.0) h)

  stored-kept :
      (key : Text) (made : Outcome P) (pools : Dict P) (k : Text) (pool : P)
      → lookup key pools ≡ none
      → lookup k pools ≡ some pool
      → lookup k (stored key made pools).1 ≡ some pool
  unfolding stored
  stored-kept key (ok p) pools k pool fresh h =
      ground (arith, lookup-assign key k p pools, str_eq_iff key k)
  stored-kept key (raised e) pools k pool fresh h = h

  -- What a factory does, by what its key finds.
  reused :
      (cls : PoolClass P) (f : Factory) (params : Params) (pools : Dict P) (pool : P)
      → makes_anew f ≡ false
      → lookup (get_pool_key f params) pools ≡ some pool
      → get_or_create_connection_pool cls f params pools ≡ (ok pool, pools)
  unfolding get_or_create_connection_pool
  reused cls f params pools pool reuse h = rw (reuse, h)

  created :
      (cls : PoolClass P) (f : Factory) (params : Params) (pools : Dict P)
      → lookup (get_pool_key f params) pools ≡ none
      → get_or_create_connection_pool cls f params pools
        ≡ stored (get_pool_key f params) (get_connection_pool cls f params) pools
  unfolding get_or_create_connection_pool
  created cls f params pools h = elim (Bool-cases (makes_anew f)) [
    | inl anew ↦ rw anew
    | inr reuse ↦ rw (reuse, h)
  ]

  made_anew :
      (cls : PoolClass P) (f : Factory) (params : Params) (pools : Dict P)
      → makes_anew f ≡ true
      → get_or_create_connection_pool cls f params pools
        ≡ stored (get_pool_key f params) (get_connection_pool cls f params) pools
  unfolding get_or_create_connection_pool
  made_anew cls f params pools anew = rw anew

  connect-found :
      (cls : PoolClass P) (f : Factory) (params : Params) (pools : Dict P) (pool : P)
      (pools' : Dict P) (found : Option P)
      → lookup (get_pool_key f params) pools ≡ found
      → get_or_create_connection_pool cls f params pools ≡ (ok pool, pools')
      → lookup (get_pool_key f params) pools' ≡ some pool
  connect-found cls f params pools pool pools' none e h =
      stored-found (get_pool_key f params) (get_connection_pool cls f params) pools pool pools'
        (sym (created cls f params pools e) ∙ h)
  connect-found cls f params pools pool pools' (some p) e h = elim (Bool-cases (makes_anew f)) [
    | inl anew ↦
        stored-found (get_pool_key f params) (get_connection_pool cls f params) pools pool pools'
          (sym (made_anew cls f params pools anew) ∙ h)
    | inr reuse ↦
        let both : (ok p, pools) ≡ (ok pool, pools') =
          sym (reused cls f params pools p reuse e) ∙ h in
        let kept : pools ≡ pools' = ap (λ r. r.1) both in
        let same : p ≡ pool = ok-injective (ap (λ r. r.0) both) in rw⁻¹ (kept, same) e
  ]

  connect-kept :
      (cls : PoolClass P) (f : Factory) (params : Params) (pools : Dict P) (k : Text) (pool : P)
      (found : Option P)
      → lookup (get_pool_key f params) pools ≡ found
      → makes_anew f ≡ false
      → lookup k pools ≡ some pool
      → lookup k (get_or_create_connection_pool cls f params pools).1 ≡ some pool
  connect-kept cls f params pools k pool none e reuse h =
      rw (created cls f params pools e)
        (stored-kept (get_pool_key f params) (get_connection_pool cls f params) pools k pool e h)
  connect-kept cls f params pools k pool (some p) e reuse h =
      rw (reused cls f params pools p reuse e) h

  connects-kept :
      (cls : PoolClass P) (others : List (Factory × Params)) (pools : Dict P) (k : Text) (pool : P)
      → AllReuse others
      → lookup k pools ≡ some pool
      → lookup k (connects cls others pools) ≡ some pool
  unfolding connects
  connects-kept cls [] pools k pool reuse h = h
  connects-kept cls ((f, params) ∷ rest) pools k pool reuse h =
      connects-kept cls rest (get_or_create_connection_pool cls f params pools).1 k pool reuse.1 (
        connect-kept cls f params pools k pool (lookup (get_pool_key f params) pools) refl reuse.0
          h)

  -- After a factory got its pool, and other factories that reuse pools got theirs, each factory that
  -- reuses pools and has the same key gets that same pool and makes none, whatever its password, its
  -- timeouts and its further arguments are.
  pub pool-shared :
      (cls : PoolClass P) (f f' : Factory) (params params' : Params) (pools pools' : Dict P)
      (pool : P) (others : List (Factory × Params))
      → get_or_create_connection_pool cls f params pools ≡ (ok pool, pools')
      → AllReuse others
      → makes_anew f' ≡ false
      → get_pool_key f' params' ≡ get_pool_key f params
      → get_or_create_connection_pool cls f' params' (connects cls others pools')
        ≡ (ok pool, connects cls others pools')
  pool-shared cls f f' params params' pools pools' pool others h all reuse same =
      let key = get_pool_key f params in
      let found = connect-found cls f params pools pool pools' (lookup key pools) refl h in
      reused cls f' params' (connects cls others pools') pool reuse
        (rw same (connects-kept cls others pools' key pool all found))
