-- ===== src/BucketProvisioner/NewConfig.antt =====
-- bucket-provisioner-light/bucketprovisioner/config.go.
use neco_containers.Base.{
  ℕ, String, ◌==◌, ◌||◌, Option, none, some, Result, ok, err, on_result, if◌then◌else◌, ◌≡◌, refl,
  ap, ◌↔◌, Bool-cases, Option-cases, Result-cases, inl, inr, arith, ok_or_err, ok_inv, ◌∙◌, false,
}

pub record Endpoint : Type 0 where
  pub url : String
  pub host : String
  pub port : ℕ

pub record Config (D : Type 0) : Type 0 where
  pub access_key_id : String
  pub secret_access_key : String
  pub session_token : String
  pub endpoint : Endpoint
  pub request_timeout : D

pub record Url : Type 0 where
  pub scheme : String
  pub hostname : String
  pub port_text : String
  pub text : String

-- strings.TrimSpace, url.Parse, and strconv.Atoi on the port of a URL, which is made of digits.
pub record UrlTexts (E : Type 0) : Type 0 where
  pub trim_space : String → String
  pub parse : String → Result E Url
  pub atoi : String → Option ℕ

pub data ConfigError (E : Type 0) : Type 0 where
  keys_not_set : ConfigError E
  endpoint_not_set : ConfigError E
  parse_failed : E → ConfigError E
  invalid_port_or_scheme : ConfigError E

unfoldable pub choose_port : Option ℕ → String → Option ℕ
choose_port (some n) scheme = some n
choose_port none scheme =
    if scheme == "http" then some 80 else if scheme == "https" then some 443 else none

module _ {E D : Type 0} (t : UrlTexts E) (access_key_id secret_access_key session_token : String)
    (request_timeout : D) where
  with_port : Url → Option ℕ → Result (ConfigError E) (Config D)
  with_port u none = err invalid_port_or_scheme
  with_port u (some port) = ok (record {
    access_key_id = access_key_id;
    secret_access_key = secret_access_key;
    session_token = session_token;
    endpoint = record { url = u.text; host = u.hostname; port = port };
    request_timeout = request_timeout;
  })

  unfoldable pub new_config : String → Result (ConfigError E) (Config D)
  unfolding with_port choose_port
  new_config s3_endpoint =
      let e = t.trim_space s3_endpoint in
      let parsed : Result (ConfigError E) (Config D) =
        on_result (t.parse e) (λ (u : Url). with_port u (choose_port (t.atoi u.port_text) u.scheme))
          (λ f. err (parse_failed f)) in
      if access_key_id == "" || secret_access_key == ""
      then err keys_not_set
      else if e == ""
      then err endpoint_not_set
      else parsed

  -- A configuration is made exactly where both keys are set, the endpoint is more than blanks and
  -- is a URL, and a port is given or known from the scheme; its endpoint is then the host of the URL
  -- with that port, the given one before the one of the scheme.
  pub new_config_iff :
      (s3_endpoint host : String) (port : ℕ)
      → ((c : Config D) × (new_config s3_endpoint ≡ ok c)
          × (c.endpoint.host ≡ host)
          × (c.endpoint.port ≡ port))
        ↔ (((access_key_id == "") ≡ false)
            × ((secret_access_key == "") ≡ false)
            × ((t.trim_space s3_endpoint == "") ≡ false)
            × ((u : Url) × (t.parse (t.trim_space s3_endpoint) ≡ ok u)
                × (u.hostname ≡ host)
                × (choose_port (t.atoi u.port_text) u.scheme ≡ some port)))
  unfolding new_config with_port
  new_config_iff s3_endpoint host port =
      let e = t.trim_space s3_endpoint in
      (
        (λ (c, h, i, j). elim (Bool-cases (access_key_id == "" || secret_access_key == "")) [
          | inl a ↦ absurd (ok_or_err (err keys_not_set) refl (rw a at h))
          | inr a ↦ elim (Bool-cases (e == "")) [
            | inl b ↦ absurd (ok_or_err (err endpoint_not_set) refl (rw b at (rw a at h)))
            | inr b ↦ elim (Result-cases (t.parse e)) [
              | inr (f, d) ↦
                  absurd (ok_or_err (err (parse_failed f)) refl (rw d at (rw b at (rw a at h))))
              | inl (u, d) ↦ elim (Option-cases (choose_port (t.atoi u.port_text) u.scheme)) [
                | inl g ↦ absurd (
                    ok_or_err (err invalid_port_or_scheme) refl
                      (rw g at (rw d at (rw b at (rw a at h)))))
                | inr (n, g) ↦
                    let k =
                      ok_inv (with_port u (some n)) refl
                        (rw g at (rw d at (rw b at (rw a at h)))) in
                    (
                      ground (arith, a),
                      ground (arith, a),
                      b,
                      (
                        u,
                        d,
                        ap (λ (x : Config D). x.endpoint.host) k ∙ i,
                        g ∙ ap (λ (x : Config D). some x.endpoint.port) k ∙ ap (λ x. some x) j,
                      ),
                    )
              ]
            ]
          ]
        ]),
        (λ (a, b, c, (u, d, i, j)). (
          record {
            access_key_id = access_key_id;
            secret_access_key = secret_access_key;
            session_token = session_token;
            endpoint = record { url = u.text; host = u.hostname; port = port };
            request_timeout = request_timeout;
          },
          rw (a, b, c, d, j) refl,
          i,
          refl,
        )),
      )
