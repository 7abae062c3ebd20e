-- ===== src/Client/Upstreams.antt =====
-- internal/client/upstreammanager.go: the upstream configurations of persistent clients. Building one
-- from parsed upstreams is the package `proxy`'s work, the parameter `build`; `closed` is the trace
-- of the `Close` calls, whose errors are only logged or returned.
pub mod Cache
use mathlib.Core.Option
use gdns_server.Base.{
  ℕ, ◌≡◌, Bool, true, false, not, ◌||◌, ◌&&◌, List, [], ◌∷◌, ◌++◌, Option, none, some, ◌==◌,
  if◌then◌else◌, ℕ_discrete,
}
use gdns_server.Base.Dict.{Dict, Text, get, put, delete}
use gdns_server.Client.Persistent.{Persistent}

-- `P` is `*proxy.CustomUpstreamConfig`, `C` is `*CommonUpstreamConfig`.
module _ (P C : Type 0) where
  pub record CustomUpstreamConfig : Type 0 where
    pub proxy_conf : Option P
    pub common_conf_update : ℕ
    pub upstreams : List Text
    pub upstreams_cache_size : ℕ
    pub upstreams_cache_enabled : Bool
    pub is_changed : Bool

  pub record UpstreamManager : Type 0 where
    pub uid_to_custom_conf : Dict ℕ CustomUpstreamConfig
    pub common_conf : Option C
    pub conf_update : ℕ
    pub closed : List P

close_conf : {P : Type 0} → Option P → List P → List P
close_conf none ps = ps
close_conf (some p) ps = ps ++ p ∷ []

-- `aghnet.IsCommentOrEmpty`.
is_comment_or_empty : Text → Bool
is_comment_or_empty [] = true
is_comment_or_empty (c ∷ cs) = c == 35

-- `stringutil.FilterOut`.
unfoldable pub filter_comments : List Text → List Text
unfolding is_comment_or_empty
filter_comments [] = []
filter_comments (t ∷ ts) =
    let rest = filter_comments ts in if is_comment_or_empty t then rest else t ∷ rest

-- What `proxy` makes of upstreams, of the cache's size and switch, and of the common configuration:
-- `none` is the panic at upstreams that do not parse.
abbrev pub Build : Type 0 → Type 0 → Type 0
Build P C = List Text → ℕ → Bool → C → Option P

module _ {P C : Type 0} where
  update_common : ℕ → C → UpstreamManager P C → UpstreamManager P C
  update_common now conf m = record m { common_conf = some conf; conf_update = now }

  -- The entry of a UID, a new one with the time of the last common update if there is none.
  unfoldable pub entry_of :
      UpstreamManager P C → Option (CustomUpstreamConfig P C) → CustomUpstreamConfig P C
  entry_of m (some e) = e
  entry_of m none = record {
    proxy_conf = none;
    common_conf_update = m.conf_update;
    upstreams = [];
    upstreams_cache_size = 0;
    upstreams_cache_enabled = false;
    is_changed = false;
  }

  unfoldable pub updated : Persistent → CustomUpstreamConfig P C → CustomUpstreamConfig P C
  updated c e = record e {
    upstreams = c.upstreams;
    upstreams_cache_size = c.upstreams_cache_size;
    upstreams_cache_enabled = c.upstreams_cache_enabled;
    is_changed = true;
  }

  unfoldable pub update_custom : Persistent → UpstreamManager P C → UpstreamManager P C
  unfolding entry_of updated
  update_custom c m =
      let e = entry_of m (get ℕ_discrete c.uid m.uid_to_custom_conf) in
      record m { uid_to_custom_conf = put ℕ_discrete c.uid (updated c e) m.uid_to_custom_conf }

  unfoldable pub is_config_changed : UpstreamManager P C → CustomUpstreamConfig P C → Bool
  is_config_changed m e = not (m.conf_update == e.common_conf_update) || e.is_changed

  -- No upstreams are no configuration, which is `some none`. The outer `none` is a panic: with
  -- upstreams, also when the common configuration is still nil.
  unfoldable pub new_from :
      Build P C → CustomUpstreamConfig P C → Option C → List Text → Option (Option P)
  new_from build e conf [] = some none
  new_from build e none (u ∷ us) = none
  new_from build e (some c) (u ∷ us) =
      Option.map some (build (u ∷ us) e.upstreams_cache_size e.upstreams_cache_enabled c)

  unfoldable pub new_custom_upstream_config :
      Build P C → CustomUpstreamConfig P C → Option C → Option (Option P)
  unfolding filter_comments new_from
  new_custom_upstream_config build e conf = new_from build e conf (filter_comments e.upstreams)

  unfoldable pub rebuilt :
      ℕ → CustomUpstreamConfig P C → UpstreamManager P C → Option P → UpstreamManager P C
  unfolding close_conf
  rebuilt uid e m p =
      let e' = record e {
        proxy_conf = p;
        common_conf_update = m.conf_update;
        is_changed = false;
      } in
      record m {
        uid_to_custom_conf = put ℕ_discrete uid e' m.uid_to_custom_conf;
        closed = close_conf e.proxy_conf m.closed;
      }

  unfoldable pub request :
      Build P C
      → ℕ
      → UpstreamManager P C
      → Option (CustomUpstreamConfig P C)
      → Option (UpstreamManager P C × Option P)
  unfolding is_config_changed new_custom_upstream_config rebuilt
  request build uid m none = some (m, none)
  request build uid m (some e) =
      if is_config_changed m e
      then Option.map (λ p. (rebuilt uid e m p, p))
          (new_custom_upstream_config build e m.common_conf)
      else some (m, e.proxy_conf)

  -- The configuration of a client, built again only when it or the common one has changed. `none` is
  -- a panic.
  unfoldable pub custom_upstream_config :
      Build P C → ℕ → UpstreamManager P C → Option (UpstreamManager P C × Option P)
  unfolding request
  custom_upstream_config build uid m = request build uid m (get ℕ_discrete uid m.uid_to_custom_conf)

  -- `false` is the error at a UID without a configuration.
  unfoldable pub remove : ℕ → UpstreamManager P C → UpstreamManager P C × Bool
  unfolding close_conf
  remove uid m = elim (get ℕ_discrete uid m.uid_to_custom_conf) [
    | none ↦ (m, false)
    | some e ↦ (
      record m {
        uid_to_custom_conf = delete ℕ_discrete uid m.uid_to_custom_conf;
        closed = close_conf e.proxy_conf m.closed;
      },
      true,
    )
  ]

  close_all : Dict ℕ (CustomUpstreamConfig P C) → List P → List P
  unfolding close_conf
  close_all [] ps = ps
  close_all ((u, e) ∷ d) ps = close_all d (close_conf e.proxy_conf ps)

  close : UpstreamManager P C → UpstreamManager P C
  unfolding close_all
  close m = record m { closed = close_all m.uid_to_custom_conf m.closed }
