-- ===== src/Admission/Response.antt =====
-- What a webhook answers, after admission.Allowed, Denied, Errored and PatchResponseFromRaw. `R` is
-- the type of a hook's reasons, in place of their texts; an error keeps its HTTP status alone. A
-- patch is given by the object that it makes.
use neco_containers.Base.{ℕ, Bool, true, false, List, String}

pub data Response (R O : Type 0) : Type 0 where
  allowed : Response R O
  allowed_because : R → Response R O
  allowed_with_warnings : List String → Response R O
  denied : R → Response R O
  errored : ℕ → Response R O
  patched : O → Response R O

abbrev pub bad_request : ℕ
bad_request = 400

abbrev pub internal_server_error : ℕ
internal_server_error = 500

-- Response.Allowed
abbrev pub is_allowed : {R O : Type 0} → Response R O → Bool
is_allowed allowed = true
is_allowed (allowed_because r) = true
is_allowed (allowed_with_warnings ws) = true
is_allowed (denied r) = false
is_allowed (errored code) = false
is_allowed (patched o) = true
