-- ===== src/Admission/HttpProxy.antt =====
-- The webhooks on HTTPProxy: admission/hooks/mutate_httpproxy.go, validate_httpproxy.go and the
-- policies of config.go.
pub mod Validator
pub mod Policies
pub mod Mutator
pub mod Laws
pub mod Create
