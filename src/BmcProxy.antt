-- ===== src/BmcProxy.antt =====
-- bmc-reverse-proxy/pkg/bmc-reverse-proxy/main.go: where a request is sent, and the two caches that
-- are loaded over and over.
pub mod Laws
use neco_containers.Base.{
  ℕ, String, Option, none, some, Result, ok, err, List, [], ◌∷◌, Map, lookup,
}

-- strings.Split at "." (its first part), the submatch of `-(boot-\d+)$`, strings.ToUpper, and
-- net.JoinHostPort with strconv.Itoa.
pub record HostTexts : Type 0 where
  pub first_label : String → String
  pub boot_match : String → Option String
  pub to_upper : String → String
  pub join_host_port : String → ℕ → String

-- The parts of a request that the director reads and writes.
pub record Request : Type 0 where
  pub host : String
  pub url_host : String
  pub url_scheme : String

-- certificateCache and resolveMapCache; `none` is a cache that nothing was stored in.
pub record Caches (Cert : Type 0) : Type 0 where
  pub certificate : Option Cert
  pub resolve_map : Option (Map String)

-- What one turn of the loop meets: the key pair, the namespace, and the ConfigMap.
pub record Load (E Cert : Type 0) : Type 0 where
  pub key_pair : Result E Cert
  pub namespace : Result E String
  pub config_map : Result E (Map String)

module _ (t : HostTexts) where
  trimmed : String → Option String → String
  trimmed hostname none = hostname
  trimmed hostname (some boot) = boot

  unfoldable pub get_hostname : String → String
  unfolding trimmed
  get_hostname fqdn = trimmed (t.first_label fqdn) (t.boot_match (t.first_label fqdn))

  or_invalid : Option String → String
  or_invalid none = "0.0.0.0"
  or_invalid (some address) = address

  or_upper : String → Map String → Option String → Option String
  or_upper hostname m none = lookup (t.to_upper hostname) m
  or_upper hostname m (some address) = some address

  unfoldable pub resolve : String → Map String → String
  unfolding or_invalid or_upper
  resolve hostname m = or_invalid (or_upper hostname m (lookup hostname m))

  unfoldable pub director_to_inner : Request → ℕ → Map String → Request
  unfolding resolve get_hostname
  director_to_inner request inner m = record request {
    url_host = t.join_host_port (resolve (get_hostname request.host) m) inner;
    url_scheme = "https";
  }

  map_of : Option (Map String) → Map String
  map_of none = []
  map_of (some m) = m

  -- The director of `makeTunnel`; without a map it goes on with an empty one.
  unfoldable pub direct : {Cert : Type 0} → ℕ → Caches Cert → Request → Request
  unfolding director_to_inner map_of
  direct inner caches request = director_to_inner request inner (map_of caches.resolve_map)

module _ {E Cert : Type 0} where
  unfoldable pub update_certificate : Load E Cert → Caches Cert → Result E (Unit {0}) × Caches Cert
  update_certificate l c = elim l.key_pair [
    | err e ↦ (err e, c)
    | ok cert ↦ (ok tt, record c { certificate = some cert })
  ]

  unfoldable pub update_resolve_map : Load E Cert → Caches Cert → Result E (Unit {0}) × Caches Cert
  update_resolve_map l c = elim l.namespace [
    | err e ↦ (err e, c)
    | ok ns ↦ elim l.config_map [
      | err e ↦ (err e, c)
      | ok m ↦ (ok tt, record c { resolve_map = some m })
    ]
  ]

  update_rest : Load E Cert → Result E (Unit {0}) × Caches Cert → Result E (Unit {0}) × Caches Cert
  unfolding update_resolve_map
  update_rest l (err e, c) = (err e, c)
  update_rest l (ok u, c) = update_resolve_map l c

  -- One turn of the loop, and its turns until one fails.
  unfoldable pub update : Load E Cert → Caches Cert → Result E (Unit {0}) × Caches Cert
  unfolding update_certificate update_rest
  update l c = update_rest l (update_certificate l c)

  unfoldable pub update_loop : List (Load E Cert) → Caches Cert → Result E (Unit {0}) × Caches Cert
  update_loop [] c = (ok tt, c)
  update_loop (l ∷ ls) c =
      let (r, c') = update l c in elim r [ err e ↦ (err e, c') | ok u ↦ update_loop ls c' ]

-- getCertificate; `none` is the error that none is loaded.
unfoldable pub get_certificate : {Cert : Type 0} → Caches Cert → Option Cert
get_certificate c = c.certificate
