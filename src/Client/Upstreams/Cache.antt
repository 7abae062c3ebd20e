-- ===== src/Client/Upstreams/Cache.antt =====
-- The cache of internal/client/upstreammanager.go: when a configuration is built and when it is
-- given again.
use mathlib.Core.Option
use mathlib.Core.Option.{some-injective}
use gdns_server.Base.{
  ℕ, ◌≡◌, refl, ap, ◌∙◌, Bool, true, false, List, [], ◌∷◌, Option, none, some, if◌then◌else◌,
  ℕ_discrete, arith, Option-cases, inl, inr, ite, if_pos, subst,
}
use gdns_server.Base.Dict.{Text, get, get-put, get-put_self, get-delete}
use gdns_server.Client.Persistent.{Persistent}
use gdns_server.SortedMap.Ranges.{is_some}
use gdns_server.Client.Upstreams.{
  request, CustomUpstreamConfig, UpstreamManager, Build, update_custom, custom_upstream_config,
  remove, updated, is_config_changed, new_custom_upstream_config, rebuilt, new_from,
  filter_comments, entry_of,
}

module _ {P C : Type 0} where
  -- Whether a UID has an entry.
  abbrev pub is_known : UpstreamManager P C → ℕ → Bool
  is_known m u = is_some (get ℕ_discrete u m.uid_to_custom_conf)

  -- The entry of a UID right after an update from a client.
  update_custom-entry :
      (c : Persistent) (m : UpstreamManager P C) (u : ℕ)
      → get ℕ_discrete u (update_custom c m).uid_to_custom_conf
        ≡ ite
            (ℕ_discrete c.uid u)
            (some (updated c (entry_of m (get ℕ_discrete c.uid m.uid_to_custom_conf))))
            (get ℕ_discrete u m.uid_to_custom_conf)
  unfolding update_custom
  update_custom-entry c m u = get-put ℕ_discrete c.uid u _ m.uid_to_custom_conf

  pub update_custom-is_known :
      (c : Persistent) (m : UpstreamManager P C) (u : ℕ)
      → is_known (update_custom c m) u ≡ ite (ℕ_discrete c.uid u) true (is_known m u)
  update_custom-is_known c m u = ap is_some (update_custom-entry c m u) ∙ ground arith

  pub remove-is_known :
      (i : ℕ) (m : UpstreamManager P C) (u : ℕ)
      → is_known (remove i m).0 u ≡ ite (ℕ_discrete i u) false (is_known m u)
  unfolding remove
  remove-is_known i m u = elim (Option-cases (get ℕ_discrete i m.uid_to_custom_conf)) [
    | inl e ↦ ground (arith, ap (λ (x : ℕ). get ℕ_discrete x m.uid_to_custom_conf))
    | inr (v, e) ↦ ground (arith, get-delete ℕ_discrete i u m.uid_to_custom_conf)
  ]

  -- With the entry of this UID, a request gives its configuration back unchanged.
  settled :
      (build : Build P C) (uid : ℕ) (m : UpstreamManager P C) (e : CustomUpstreamConfig P C)
      → get ℕ_discrete uid m.uid_to_custom_conf ≡ some e
      → is_config_changed m e ≡ false
      → custom_upstream_config build uid m ≡ some (m, e.proxy_conf)
  unfolding custom_upstream_config request
  settled build uid m e h q = ap (request build uid m) h ∙ ground arith

  settled-rebuilt :
      (build : Build P C) (uid : ℕ) (e : CustomUpstreamConfig P C) (m : UpstreamManager P C)
      (p : Option P)
      → custom_upstream_config build uid (rebuilt uid e m p) ≡ some (rebuilt uid e m p, p)
  unfolding rebuilt is_config_changed
  settled-rebuilt build uid e m p =
      settled build uid _ _ (get-put_self ℕ_discrete uid _ m.uid_to_custom_conf) (ground arith)

  -- A fact about the answer of a request, moved to the answer that is known.
  move_to :
      (build : Build P C) (uid : ℕ) (r r' : UpstreamManager P C × Option P)
      → some r ≡ some r'
      → custom_upstream_config build uid r.0 ≡ some r
      → custom_upstream_config build uid r'.0 ≡ some r'
  move_to build uid r r' q h =
      subst (λ x. custom_upstream_config build uid x.0 ≡ some x) (some-injective _ _ q) h

  cached_if :
      (build : Build P C) (uid : ℕ) (m : UpstreamManager P C) (r' : UpstreamManager P C × Option P)
      (e : CustomUpstreamConfig P C) (b : Bool) (n : Option (Option P))
      → get ℕ_discrete uid m.uid_to_custom_conf ≡ some e
      → is_config_changed m e ≡ b
      → (if b then Option.map (λ p. (rebuilt uid e m p, p)) n else some (m, e.proxy_conf)) ≡ some r'
      → custom_upstream_config build uid r'.0 ≡ some r'
  cached_if build uid m r' e false n h i q = move_to build uid _ r' q (settled build uid m e h i)
  cached_if build uid m r' e true none h i q = cc
  cached_if build uid m r' e true (some p) h i q =
      move_to build uid _ r' q (settled-rebuilt build uid e m p)

  cached :
      (build : Build P C) (uid : ℕ) (m : UpstreamManager P C) (r' : UpstreamManager P C × Option P)
      (o : Option (CustomUpstreamConfig P C))
      → get ℕ_discrete uid m.uid_to_custom_conf ≡ o
      → request build uid m o ≡ some r'
      → custom_upstream_config build uid r'.0 ≡ some r'
  unfolding request custom_upstream_config
  cached build uid m r' none h q = move_to build uid _ r' q (ap (request build uid m) h)
  cached build uid m r' (some e) h q = cached_if build uid m r' e _ _ h refl q

  -- A configuration that was asked for is given again, and nothing is built or closed, as long as
  -- neither the client nor the common configuration is updated.
  pub custom_upstream_config_cached :
      (build : Build P C) (uid : ℕ) (m m' : UpstreamManager P C) (p : Option P)
      → custom_upstream_config build uid m ≡ some (m', p)
      → custom_upstream_config build uid m' ≡ some (m', p)
  unfolding custom_upstream_config
  custom_upstream_config_cached build uid m m' p h = cached build uid m (m', p) _ refl h

  -- What the configuration of a client is to be: none without upstreams other than comments, and
  -- else the one built from the client's settings and the common ones.
  unfoldable pub expected : Build P C → Option C → Persistent → List Text → Option (Option P)
  expected build conf c [] = some none
  expected build none c (u ∷ us) = none
  expected build (some k) c (u ∷ us) =
      Option.map some (build (u ∷ us) c.upstreams_cache_size c.upstreams_cache_enabled k)

  new_from-expected :
      (build : Build P C) (e : CustomUpstreamConfig P C) (c : Persistent) (conf : Option C)
      (us : List Text)
      → new_from build (updated c e) conf us ≡ expected build conf c us
  unfolding new_from expected updated
  new_from-expected build e c conf [] = refl
  new_from-expected build e c none (u ∷ us) = refl
  new_from-expected build e c (some k) (u ∷ us) = refl

  request-updated :
      (build : Build P C) (uid : ℕ) (m : UpstreamManager P C) (c : Persistent)
      (e : CustomUpstreamConfig P C)
      → Option.map (λ r. r.1) (request build uid m (some (updated c e)))
        ≡ new_custom_upstream_config build (updated c e) m.common_conf
  unfolding request is_config_changed updated
  request-updated build uid m c e = ground arith

  -- The first request after a client is updated gives the configuration of the new client.
  pub update_custom_rebuilds :
      (build : Build P C) (c : Persistent) (m : UpstreamManager P C)
      → Option.map (λ r. r.1) (custom_upstream_config build c.uid (update_custom c m))
        ≡ expected build m.common_conf c (filter_comments c.upstreams)
  unfolding custom_upstream_config new_custom_upstream_config update_custom
  update_custom_rebuilds build c m =
      let e = entry_of m (get ℕ_discrete c.uid m.uid_to_custom_conf) in
      ap (λ o. Option.map (λ r. r.1) (request build c.uid (update_custom c m) o))
        (update_custom-entry c m c.uid)
      ∙ ap (λ o. Option.map (λ r. r.1) (request build c.uid (update_custom c m) o))
          (if_pos (ℕ_discrete c.uid c.uid) refl _ _)
      ∙ request-updated build c.uid (update_custom c m) c e
      ∙ new_from-expected build e c m.common_conf (filter_comments c.upstreams)
