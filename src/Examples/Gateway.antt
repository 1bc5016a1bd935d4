-- ===== src/Examples/Gateway.antt =====
-- The access control of s3gw, at two networks.
use text.Mathlib.TextLemmas.{append-nil}
use neco_containers.Base.{
  some_inv, get_text, ℕ, ◌≡◌, refl, sym, ap, ◌∙◌, String, Option, Result, err, ok_inv, pure_inv,
  lookup, ◌↔◌, ◌⊎◌, true, false, [], ◌∷◌, some, none, ◌==◌, ok, any, if◌then◌else◌,
}
use neco_containers.S3Gateway.AllowDeny.{
  Network, AllowDeny, parse_parts, parse_cidrs, parse_allow_deny, is_allowed_host_port,
}
use neco_containers.S3Gateway.Handlers.{
  Request, Response, Output, Client, object_handler, object_put, object_get, object_key,
  get_header_or_nil,
}
use neco_containers.S3Gateway.Handlers.Laws.{Stores, Gives, put-get}
use neco_containers.S3Gateway.AllowDeny.Laws.{covers, is_allowed_host_port_iff}

abbrev network : Network ℕ String String
network = record {
  split_trimmed = λ s. s ∷ "" ∷ [];
  parse_cidr = λ s. ok s;
  split_host = λ s. if s == "10.0.0.1:80" then some "10.0.0.1" else none;
  parse_ip = λ s. some s;
  includes = λ net ip. net == "10.0.0.0/8";
}

abbrev lists : AllowDeny String
lists = record { allowed = "10.0.0.0/8" ∷ []; denied = "0.0.0.0/0" ∷ [] }

is_allowed_host_port_iff_example : (is_allowed_host_port network lists "10.0.0.1:80" ≡ true) ↔ (
    (any (covers network "10.0.0.1") ("10.0.0.0/8" ∷ "" ∷ []) ≡ true)
    ⊎ (any (covers network "10.0.0.1") ("0.0.0.0/0" ∷ "" ∷ []) ≡ false))
unfolding parse_allow_deny parse_cidrs parse_parts
is_allowed_host_port_iff_example =
    is_allowed_host_port_iff network "10.0.0.0/8" "0.0.0.0/0" "10.0.0.1:80" lists "10.0.0.1" refl
      ("10.0.0.1", refl, refl)

-- A store of one object.
abbrev Store : Type 0
Store = Option (String × (String × Option String))

abbrev output : String × (String × Option String) → Output String ℕ ℕ
output (k, (body, type)) = record {
  content_type = type;
  etag = none;
  content_length = 5;
  last_modified = none;
  body = body;
}

abbrev get_from : Store → Result String (Output String ℕ ℕ)
get_from none = err "NoSuchKey"
get_from (some o) = ok (output o)

abbrev gateway : Client Store String String ℕ ℕ ℕ
gateway = record {
  list_objects = λ w. (ok [], w);
  get_object = λ k w. (get_from w, w);
  copy = λ b w. ((b, none), w);
  write = λ text w. ((text, none), w);
  close = λ b w. (none, w);
  upload_object = λ k body type w. (ok tt, some (k, (body, type)));
  delete_object = λ k w. (ok tt, none);
  error_text = λ e. e;
  length_text = λ n. "5";
  time_text = λ t. "";
  to_utc = λ t. t;
  marshal = λ os. ok "[]";
  size_text = λ s. "2";
}

abbrev stored : Store → String → Option (String × Option String)
stored none k = none
stored (some (j, o)) k = some o

abbrev content : String → String
content b = b

gateway-Stores : Stores gateway content stored
gateway-Stores = record {
  uploading = λ k body type u w w' h.
      ap (λ x. stored x k) (sym (pure_inv tt u (some (k, (body, type))) w' h).1);
  getting = λ k body type o w w' h e. got k body type o w e (ap (λ x. x.0) h);
  copying_part = λ b w. ("", sym (append-nil b));
  copying = λ b w h. refl;
}
  where
    got :
        (k body : String) (type : Option String) (o : Output String ℕ ℕ) (w : Store)
        → stored w k ≡ some (body, type)
        → get_from w ≡ ok o
        → (o.body ≡ body) × ((v : String) → type ≡ some v → o.content_type ≡ some v)
    got k body type o none e h = (cc, λ v f. cc)
    got k body type o (some (j, p)) e h =
        let q = ok_inv (get_from (some (j, p))) refl h in
        let r = some_inv e in
        (
          ap (λ (x : Output String ℕ ℕ). x.body) (sym q) ∙ ap (λ x. x.0) r,
          λ v f. ap (λ (x : Output String ℕ ℕ). x.content_type) (sym q) ∙ ap (λ x. x.1) r ∙ f,
        )

abbrev put_request : Request
put_request = record {
  verb = "PUT";
  path = "/bucket/a";
  header = ("Content-Type", "text/plain") ∷ [];
  body = "hello";
}

abbrev get_request : Request
get_request = record { verb = "GET"; path = "/bucket/a"; header = []; body = "" }

abbrev fresh : Response
fresh = record { status = 200; header = []; body = ""; logged = [] }

put-get_example :
    Gives gateway "hello"
      (some "text/plain")
      (object_handler gateway get_request fresh (object_handler gateway put_request fresh none).1).0
unfolding object_handler object_put object_get object_key get_header_or_nil get_text lookup
put-get_example =
    put-get gateway content stored gateway-Stores put_request get_request fresh fresh none refl refl
      refl refl refl
