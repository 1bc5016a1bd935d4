-- ===== src/Endpoints/Ports.antt =====
-- machines-endpoints/pkg/machines-endpoints/monitoring_endpoints.go: `validateMaxEndpointsPerSlice`
-- and `parseNamedPorts`. seenNames and seenPorts are the names and the ports of the ports so far.
pub mod Laws
use Prim.Native.String.{compare}
use text.Mathlib.Text.{is_le}
use neco_containers.Base.{
  ℕ, String, ◌==◌, Option, none, some, Result, ok, err, List, [], ◌∷◌, ◌++◌, any, Bool, true, false,
  not, ◌||◌, ltb_ℤ, ℤ, pos, nat_eq, on_result, if◌then◌else◌, and_then,
}

pub record NamedPort : Type 0 where
  pub name : String
  pub port : ℕ

pub data PortError : Type 0 where
  invalid_format : String → PortError
  invalid_number : String → PortError
  port_zero : String → PortError
  invalid_name : String → PortError
  duplicate_name : String → PortError
  duplicate_port : String → PortError

-- strings.Cut at ":", strconv.ParseUint(_, 10, 16), and validation.IsDNS1123Label.
pub record PortTexts : Type 0 where
  pub cut : String → Option (String × String)
  pub parse_uint16 : String → Option ℕ
  pub is_dns1123_label : String → Bool

unfoldable pub validate_max_endpoints_per_slice : ℤ → Bool
validate_max_endpoints_per_slice n = not (not (ltb_ℤ (pos 0) n) || ltb_ℤ (pos 1000) n)

unfoldable pub has_name : String → List NamedPort → Bool
has_name n ps = any (λ (p : NamedPort). p.name == n) ps

unfoldable pub has_port : ℕ → List NamedPort → Bool
has_port n ps = any (λ (p : NamedPort). nat_eq p.port n) ps

-- slices.SortFunc by the names, which are all different here.
unfoldable pub insert_port : NamedPort → List NamedPort → List NamedPort
insert_port p [] = p ∷ []
insert_port p (q ∷ qs) =
    let rest = insert_port p qs in if is_le (compare p.name q.name) then p ∷ (q ∷ qs) else q ∷ rest

unfoldable pub sort_ports : List NamedPort → List NamedPort
unfolding insert_port
sort_ports [] = []
sort_ports (p ∷ ps) = insert_port p (sort_ports ps)

module _ (t : PortTexts) where
  check_seen : String → String → ℕ → List NamedPort → Result PortError (List NamedPort)
  unfolding has_name has_port
  check_seen spec name port ports =
      if nat_eq port 0
      then err (port_zero spec)
      else if not (t.is_dns1123_label name)
      then err (invalid_name name)
      else if has_name name ports
      then err (duplicate_name name)
      else if has_port port ports
      then err (duplicate_port spec)
      else ok (ports ++ record { name = name; port = port } ∷ [])

  check_port : String → String → Option ℕ → List NamedPort → Result PortError (List NamedPort)
  unfolding check_seen
  check_port spec name none ports = err (invalid_number spec)
  check_port spec name (some port) ports = check_seen spec name port ports

  check_spec :
      String → Option (String × String) → List NamedPort → Result PortError (List NamedPort)
  unfolding check_port
  check_spec spec none ports = err (invalid_format spec)
  check_spec spec (some (port_str, name)) ports =
      check_port spec name (t.parse_uint16 port_str) ports

  -- The loop: one more port, or the error that ends it.
  unfoldable pub parse_specs : List String → List NamedPort → Result PortError (List NamedPort)
  unfolding check_spec
  parse_specs [] ports = ok ports
  parse_specs (spec ∷ specs) ports =
      and_then (check_spec spec (t.cut spec) ports) (λ ports'. parse_specs specs ports')

  unfoldable pub parse_named_ports : List String → Result PortError (List NamedPort)
  unfolding parse_specs sort_ports
  parse_named_ports specs =
      on_result (parse_specs specs []) (λ ports. ok (sort_ports ports)) (λ e. err e)
