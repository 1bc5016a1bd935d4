-- ===== src/Endpoints/Main/Laws.antt =====
-- A dry run.
use neco_containers.Base.{
  String, ◌≡◌, refl, true, inl, inr, Result, ok, err, Exec, ◌>>◌, List, [], ◌∷◌, Map, pos_part, ◌-◌,
  Bool-cases, Result-cases,
}
use neco_containers.Endpoints.Ports.{NamedPort, PortTexts, parse_named_ports}
use neco_containers.Endpoints.Machines.{
  Machine, Texts, all_server_ips, boot_server_ips, bmc_reverse_proxy_config_map_data,
  bmc_log_collector_config_map_data,
}
use neco_containers.Endpoints.Slices.{KubeApi, update_target_endpoints, apply_config_map}
use neco_containers.Endpoints.Slices.Dry.{
  Leaves, bind-Leaves, IsDry, update_target_endpoints-Leaves, apply_config_map-Leaves,
}
use neco_containers.Endpoints.Main.{
  Flags, System, MainError, lift, from_result, get_machines, update_target, update_proxy_map,
  apply_log_map, update_log_map, update_all, check_flags, sub_main, read_answer,
}

module _ {W C : Type 0} (cluster : W → C) where
  lift-Leaves : {E A : Type 0} (act : Exec W E A) → Leaves cluster act → Leaves cluster (lift act)
  unfolding lift
  lift-Leaves act g w = g w

  result-Leaves :
      {E A : Type 0} (r : Result (MainError E) A) → Leaves cluster (from_result {W = W} r)
  unfolding from_result
  result-Leaves r w = refl

  -- What a dry run calls besides the API server leaves the cluster as it is.
  pub record IsReading {E : Type 0} (sys : System W E) : Type 0 where
    pub querying : (address : String) → Leaves cluster (sys.query_sabakan address)
    pub connecting : Leaves cluster sys.new_client

  module _ {E Ip : Type 0} (api : KubeApi W E Ip) (law : IsDry cluster api) where
    module _ (sys : System W E) (reads : IsReading sys) (t : Texts E Ip) (pt : PortTexts)
        (flags : Flags) (dry : flags.dry_run ≡ true) where
      update_target-Leaves :
          (name : String) (ips : List Ip) (ports : List NamedPort)
          → Leaves cluster (update_target api sys t pt flags name ips ports)
      unfolding update_target
      update_target-Leaves name ips [] = λ w. refl
      update_target-Leaves name ips (p ∷ ps) =
          rw (dry, update_target)
            (lift-Leaves
              (update_target_endpoints api true name ips
                (pos_part flags.max_endpoints_per_slice - 1) (p ∷ ps))
              (update_target_endpoints-Leaves cluster api law name ips
                (pos_part flags.max_endpoints_per_slice - 1) (p ∷ ps)))

      update_proxy_map-Leaves :
          (machines : List Machine) → Leaves cluster (update_proxy_map api sys t pt flags machines)
      unfolding update_proxy_map
      update_proxy_map-Leaves machines = elim (Bool-cases flags.bmc_reverse_proxy_config_map) [
        | inr b ↦ rw (b, update_proxy_map) (λ w. refl)
        | inl b ↦
            rw (dry, update_proxy_map, b)
              (lift-Leaves
                (apply_config_map api true "bmc-reverse-proxy"
                  (bmc_reverse_proxy_config_map_data t machines))
                (apply_config_map-Leaves cluster api law "bmc-reverse-proxy"
                  (bmc_reverse_proxy_config_map_data t machines)))
      ]

      apply_log_map-Leaves :
          (r : Result E (Map String)) → Leaves cluster (apply_log_map api sys t pt flags r)
      unfolding apply_log_map
      apply_log_map-Leaves (err e) = λ w. refl
      apply_log_map-Leaves (ok content) =
          rw (dry, apply_log_map)
            (lift-Leaves (apply_config_map api true "bmc-log-collector" content)
              (apply_config_map-Leaves cluster api law "bmc-log-collector" content))

      update_log_map-Leaves :
          (machines : List Machine) → Leaves cluster (update_log_map api sys t pt flags machines)
      unfolding update_log_map
      update_log_map-Leaves machines = elim (Bool-cases flags.bmc_log_collector_config_map) [
        | inr b ↦ rw (b, update_log_map) (λ w. refl)
        | inl b ↦
            rw (b, update_log_map)
              (apply_log_map-Leaves (bmc_log_collector_config_map_data t machines))
      ]

      update_all-Leaves :
          (all_ports boot_ports : List NamedPort) (machines : List Machine)
          → Leaves cluster (update_all api sys t pt flags all_ports boot_ports machines)
      unfolding update_all
      update_all-Leaves all_ports boot_ports machines =
          let connect : Exec W (MainError E) (Unit {0}) = lift sys.new_client in
          let all =
            update_target api sys t pt flags "all-servers-targets" (all_server_ips t machines)
              all_ports in
          let boot =
            update_target api sys t pt flags "boot-servers-targets" (boot_server_ips t machines)
              boot_ports in
          let proxy = update_proxy_map api sys t pt flags machines in
          let logs = update_log_map api sys t pt flags machines in
          bind-Leaves cluster (connect >> all >> boot >> proxy) (λ _. logs)
            (bind-Leaves cluster (connect >> all >> boot) (λ _. proxy)
              (bind-Leaves cluster (connect >> all) (λ _. boot)
                (bind-Leaves cluster connect (λ _. all)
                  (lift-Leaves sys.new_client reads.connecting)
                  (λ _.
                    update_target-Leaves "all-servers-targets" (all_server_ips t machines)
                      all_ports))
                (λ _.
                  update_target-Leaves "boot-servers-targets" (boot_server_ips t machines)
                    boot_ports))
              (λ _. update_proxy_map-Leaves machines))
            (λ _. update_log_map-Leaves machines)

      get_machines-Leaves : (address : String) → Leaves cluster (get_machines sys address)
      unfolding get_machines
      get_machines-Leaves address =
          bind-Leaves cluster (lift (sys.query_sabakan address)) (λ a. from_result (read_answer a))
            (lift-Leaves (sys.query_sabakan address) (reads.querying address))
            (λ a. result-Leaves (read_answer a))

      -- A run with the flag for a dry run leaves the cluster as it is, whether it succeeds or
      -- fails, where reading, printing, the request to sabakan and the client leave it.
      pub sub_main-Leaves : Leaves cluster (sub_main api sys t pt flags)
      unfolding sub_main
      sub_main-Leaves = elim (Result-cases (parse_named_ports pt flags.all_servers_ports)) [
        | inr (e, i) ↦ rw (i, sub_main) (λ w. refl)
        | inl (all, i) ↦ elim (Result-cases (parse_named_ports pt flags.boot_servers_ports)) [
          | inr (e, j) ↦ rw (i, sub_main, j) (λ w. refl)
          | inl (boot, j) ↦
              rw (i, sub_main, j)
                (bind-Leaves cluster
                  (from_result (check_flags api sys t pt flags)
                    >> get_machines sys flags.sabakan_address)
                  (λ machines. update_all api sys t pt flags all boot machines)
                  (bind-Leaves cluster (from_result (check_flags api sys t pt flags))
                    (λ _. get_machines sys flags.sabakan_address)
                    (result-Leaves (check_flags api sys t pt flags))
                    (λ _. get_machines-Leaves flags.sabakan_address))
                  (update_all-Leaves all boot))
        ]
      ]
