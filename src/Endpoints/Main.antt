-- ===== src/Endpoints/Main.antt =====
-- machines-endpoints/pkg/machines-endpoints: `subMain` of main.go, with `getMachines` of sabakan.go.
pub mod Laws
use Prim.Native.String.{compare}
use text.Mathlib.Text.{is_le}
use neco_containers.Base.{
  ℕ, ◌-◌, nat_eq, String, ◌==◌, Bool, true, false, not, ◌||◌, Result, ok, err, Exec, pure, raise,
  proceed, on_result, ◌>>=◌, ◌>>◌, List, [], ◌∷◌, Option, none, some, Map, ℤ, pos_part,
  if◌then◌else◌,
}
use neco_containers.Endpoints.Ports.{
  NamedPort, PortError, PortTexts, parse_named_ports, validate_max_endpoints_per_slice,
}
use neco_containers.Endpoints.Machines.{
  Machine, Texts, all_server_ips, boot_server_ips, bmc_reverse_proxy_config_map_data,
  bmc_log_collector_config_map_data,
}
use neco_containers.Endpoints.Slices.{KubeApi, update_target_endpoints, apply_config_map}

pub record Flags : Type 0 where
  pub sabakan_address : String
  pub all_servers_ports : List String
  pub boot_servers_ports : List String
  pub max_endpoints_per_slice : ℤ
  pub bmc_reverse_proxy_config_map : Bool
  pub bmc_log_collector_config_map : Bool
  pub dry_run : Bool

-- An answer of sabakan: the status, and the decoded body with the messages of its errors.
pub record Answer (E : Type 0) : Type 0 where
  pub status : ℕ
  pub body : Result E (List Machine × List String)

pub data MainError (E : Type 0) : Type 0 where
  all_servers_port : PortError → MainError E
  boot_servers_port : PortError → MainError E
  invalid_max_endpoints : ℤ → MainError E
  invalid_sabakan_address : String → MainError E
  http_status : ℕ → MainError E
  sabakan_error : List String → MainError E
  failed : E → MainError E

-- net.SplitHostPort, the request to sabakan (encoding, creation and sending), and the client of the
-- cluster.
pub record System (W E : Type 0) : Type 0 where
  pub split_host_port : String → Option (String × String)
  pub query_sabakan : String → Exec W E (Answer E)
  pub new_client : Exec W E (Unit {0})

unfoldable pub insert_machine : Machine → List Machine → List Machine
insert_machine m [] = m ∷ []
insert_machine m (n ∷ ns) =
    let rest = insert_machine m ns in
    if is_le (compare m.serial n.serial) then m ∷ n ∷ ns else n ∷ rest

-- slices.SortFunc by the serials
unfoldable pub sort_machines : List Machine → List Machine
unfolding insert_machine
sort_machines [] = []
sort_machines (m ∷ ms) = insert_machine m (sort_machines ms)

module _ {E : Type 0} where
  check_errors : List Machine × List String → Result (MainError E) (List Machine)
  unfolding sort_machines
  check_errors (machines, []) = ok (sort_machines machines)
  check_errors (machines, m ∷ ms) = err (sabakan_error (m ∷ ms))

  read_answer : Answer E → Result (MainError E) (List Machine)
  unfolding check_errors
  read_answer a =
      if not (nat_eq a.status 200)
      then err (http_status a.status)
      else on_result a.body (λ b. check_errors b) (λ e. err (failed e))

module _ {W E : Type 0} where
  -- An action whose error is one of `subMain`.
  unfoldable pub lift : {A : Type 0} → Exec W E A → Exec W (MainError E) A
  lift act w = let (r, w') = act w in (on_result r (λ a. ok a) (λ e. err (failed e)), w')

  unfoldable pub from_result : {A : Type 0} → Result (MainError E) A → Exec W (MainError E) A
  from_result r w = (r, w)

  unfoldable pub get_machines : System W E → String → Exec W (MainError E) (List Machine)
  unfolding lift from_result read_answer
  get_machines sys address = lift (sys.query_sabakan address) >>= λ a. from_result (read_answer a)

module _ {W E Ip : Type 0} (api : KubeApi W E Ip) (sys : System W E) (t : Texts E Ip)
    (pt : PortTexts) (flags : Flags) where
  update_target : String → List Ip → List NamedPort → Exec W (MainError E) (Unit {0})
  unfolding lift
  update_target name ips [] = pure tt
  update_target name ips (p ∷ ps) = lift (
      update_target_endpoints api flags.dry_run name ips
        (pos_part flags.max_endpoints_per_slice - 1) (p ∷ ps))

  unfoldable pub update_proxy_map : List Machine → Exec W (MainError E) (Unit {0})
  unfolding lift
  update_proxy_map machines =
      if flags.bmc_reverse_proxy_config_map
      then lift (
          apply_config_map api flags.dry_run "bmc-reverse-proxy"
            (bmc_reverse_proxy_config_map_data t machines))
      else pure tt

  apply_log_map : Result E (Map String) → Exec W (MainError E) (Unit {0})
  unfolding lift
  apply_log_map (err e) = raise (failed e)
  apply_log_map (ok content) = lift (apply_config_map api flags.dry_run "bmc-log-collector" content)

  update_log_map : List Machine → Exec W (MainError E) (Unit {0})
  unfolding apply_log_map
  update_log_map machines =
      if flags.bmc_log_collector_config_map
      then apply_log_map (bmc_log_collector_config_map_data t machines)
      else pure tt

  -- From the machines on.
  unfoldable pub update_all :
      List NamedPort → List NamedPort → List Machine → Exec W (MainError E) (Unit {0})
  unfolding update_target update_proxy_map update_log_map lift
  update_all all_ports boot_ports machines =
      lift sys.new_client
      >> update_target "all-servers-targets" (all_server_ips t machines) all_ports
      >> update_target "boot-servers-targets" (boot_server_ips t machines) boot_ports
      >> update_proxy_map machines
      >> update_log_map machines

  unfoldable pub is_address : Option (String × String) → Bool
  is_address none = false
  is_address (some (host, port)) = not (host == "" || port == "")

  check_flags : Result (MainError E) (Unit {0})
  unfolding is_address
  check_flags =
      if not (validate_max_endpoints_per_slice flags.max_endpoints_per_slice)
      then err (invalid_max_endpoints flags.max_endpoints_per_slice)
      else if not (is_address (sys.split_host_port flags.sabakan_address))
      then err (invalid_sabakan_address flags.sabakan_address)
      else ok tt

  unfoldable pub sub_main : Exec W (MainError E) (Unit {0})
  unfolding check_flags get_machines update_all from_result
  sub_main =
      on_result (parse_named_ports pt flags.all_servers_ports)
        (λ all_ports.
          on_result (parse_named_ports pt flags.boot_servers_ports)
            (λ boot_ports.
              from_result check_flags >> get_machines sys flags.sabakan_address >>= λ machines.
              update_all all_ports boot_ports machines)
            (λ e. raise (boot_servers_port e)))
        (λ e. raise (all_servers_port e))
