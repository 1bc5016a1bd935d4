-- ===== src/Endpoints/Machines.antt =====
-- machines-endpoints/pkg/machines-endpoints: sabakan.go (the machine and its tests),
-- bmc_configmap.go, and the address lists of monitoring_endpoints.go.
pub mod Laws
use neco_containers.Base.{
  String, ◌==◌, Option, none, some, Result, ok, err, List, [], ◌∷◌, Map, insert, ℤ, not, ◌||◌, Bool,
  true, false, on_result, if◌then◌else◌,
}

pub record Machine : Type 0 where
  pub ipv4 : List String
  pub serial : String
  pub rack : ℤ
  pub index_in_rack : ℤ
  pub role : String
  pub bmc_ipv4 : String
  pub state : String

pub record MachineSerialAndIp : Type 0 where
  pub serial : String
  pub bmc_ip : String
  pub node_ip : String

-- sabakan's name of the retired state, the two formats of fmt.Sprintf, strings.ReplaceAll of "." by
-- "-", net.ParseIP, and the JSON encoding.
pub record Texts (E Ip : Type 0) : Type 0 where
  pub retired : String
  pub boot_name : ℤ → String
  pub rack_name : ℤ → String → ℤ → String
  pub dashed : String → String
  pub parse_ip : String → Option Ip
  pub marshal : List MachineSerialAndIp → Result E String

unfoldable pub is_boot_server : Machine → Bool
is_boot_server m = m.role == "boot"

unfoldable pub has_ipv4 : Machine → Bool
has_ipv4 m = elim m.ipv4 [ [] ↦ false | ◌∷◌ ip ips ↦ true ]

-- m.Spec.IPv4[0], which is read only of a machine with an address.
unfoldable pub first_ipv4 : List String → String
first_ipv4 [] = ""
first_ipv4 (ip ∷ ips) = ip

module _ {E Ip : Type 0} (t : Texts E Ip) where
  unfoldable pub is_retired : Machine → Bool
  is_retired m = m.state == t.retired

  unfoldable pub hostname : Machine → String
  unfolding is_boot_server
  hostname m =
      if is_boot_server m then t.boot_name m.rack else t.rack_name m.rack m.role m.index_in_rack

  -- The three names of a machine.
  unfoldable pub add_addresses : Machine → Map String → Map String
  unfolding hostname first_ipv4
  add_addresses m addresses =
      insert m.serial m.bmc_ipv4 (
        insert (t.dashed (first_ipv4 m.ipv4)) m.bmc_ipv4 (insert (hostname m) m.bmc_ipv4 addresses))

  unfoldable pub add_all : List Machine → Map String → Map String
  unfolding has_ipv4
  add_all [] addresses = addresses
  add_all (m ∷ ms) addresses =
      if m.bmc_ipv4 == "" || not (has_ipv4 m)
      then add_all ms addresses
      else add_all ms (add_addresses m addresses)

  unfoldable pub bmc_reverse_proxy_config_map_data : List Machine → Map String
  bmc_reverse_proxy_config_map_data ms = add_all ms []

  unfoldable pub machine_list : List Machine → List MachineSerialAndIp
  unfolding has_ipv4 first_ipv4
  machine_list [] = []
  machine_list (m ∷ ms) =
      let rest = machine_list ms in
      if m.bmc_ipv4 == "" || not (has_ipv4 m)
      then rest
      else record { serial = m.serial; bmc_ip = m.bmc_ipv4; node_ip = first_ipv4 m.ipv4 } ∷ rest

  unfoldable pub bmc_log_collector_config_map_data : List Machine → Result E (Map String)
  unfolding machine_list
  bmc_log_collector_config_map_data ms =
      on_result (t.marshal (machine_list ms)) (λ s. ok (("machineslist.json", s) ∷ [])) (λ e. err e)

  unfoldable pub parse_machine_ipv4 : Machine → Option Ip
  unfolding first_ipv4
  parse_machine_ipv4 m = t.parse_ip (first_ipv4 m.ipv4)

  -- An address that is not parsed is left out.
  unfoldable pub cons_ip : Option Ip → List Ip → List Ip
  cons_ip none ips = ips
  cons_ip (some ip) ips = ip ∷ ips

  unfoldable pub all_server_ips : List Machine → List Ip
  unfolding is_retired has_ipv4 parse_machine_ipv4 cons_ip
  all_server_ips [] = []
  all_server_ips (m ∷ ms) =
      let rest = all_server_ips ms in
      if is_retired m || not (has_ipv4 m) then rest else cons_ip (parse_machine_ipv4 m) rest

  unfoldable pub boot_server_ips : List Machine → List Ip
  unfolding is_retired has_ipv4 is_boot_server parse_machine_ipv4 cons_ip
  boot_server_ips [] = []
  boot_server_ips (m ∷ ms) =
      let rest = boot_server_ips ms in
      if is_retired m || (not (has_ipv4 m) || not (is_boot_server m))
      then rest
      else cons_ip (parse_machine_ipv4 m) rest
