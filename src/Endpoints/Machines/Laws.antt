-- ===== src/Endpoints/Machines/Laws.antt =====
-- The addresses and the proxy's map.
use neco_containers.Base.{
  ◌≡◌, refl, String, ◌==◌, Option, none, some, List, [], ◌∷◌, Map, lookup, insert, lookup-insert,
  not, ◌&&◌, ◌||◌, Bool, arith, if◌then◌else◌,
}
use neco_containers.Endpoints.Machines.{
  Machine, Texts, is_boot_server, has_ipv4, first_ipv4, hostname, add_addresses, add_all,
  bmc_reverse_proxy_config_map_data, all_server_ips, boot_server_ips,
}

module _ {E Ip : Type 0} (t : Texts E Ip) where
  -- The machines that are boot servers, in their order.
  abbrev boot_servers : List Machine → List Machine
  boot_servers [] = []
  boot_servers (m ∷ ms) = if m.role == "boot" then m ∷ boot_servers ms else boot_servers ms

  -- The addresses of the boot servers are those that the list of all servers has for them.
  boot_server_ips-all_server_ips :
      (ms : List Machine) → boot_server_ips t ms ≡ all_server_ips t (boot_servers ms)
  unfolding boot_server_ips all_server_ips is_boot_server
  boot_server_ips-all_server_ips [] = refl
  boot_server_ips-all_server_ips (m ∷ ms) = ground (arith, boot_server_ips-all_server_ips ms)

  -- One of the three names of the machine.
  abbrev names_it : String → Machine → Bool
  names_it k m = m.serial == k || (t.dashed (first_ipv4 m.ipv4) == k || hostname t m == k)

  abbrev is_proxied : Machine → Bool
  is_proxied m = not (m.bmc_ipv4 == "") && has_ipv4 m

  -- The address of the last machine that has the name, or `otherwise`.
  abbrev pub address_of : String → List Machine → Option String → Option String
  address_of k [] otherwise = otherwise
  address_of k (m ∷ ms) otherwise =
      address_of k ms (if is_proxied m && names_it k m then some m.bmc_ipv4 else otherwise)

  lookup-add_addresses :
      (k : String) (m : Machine) (addresses : Map String)
      → lookup k (add_addresses t m addresses)
        ≡ (if names_it k m then some m.bmc_ipv4 else lookup k addresses)
  unfolding add_addresses
  lookup-add_addresses k m addresses =
      let a = insert (hostname t m) m.bmc_ipv4 addresses in
      let b = insert (t.dashed (first_ipv4 m.ipv4)) m.bmc_ipv4 a in
      ground (
        arith,
        lookup-insert m.serial k m.bmc_ipv4 b,
        lookup-insert (t.dashed (first_ipv4 m.ipv4)) k m.bmc_ipv4 a,
        lookup-insert (hostname t m) k m.bmc_ipv4 addresses,
      )

  lookup-add_all :
      (k : String) (ms : List Machine) (addresses : Map String)
      → lookup k (add_all t ms addresses) ≡ address_of k ms (lookup k addresses)
  unfolding add_all
  lookup-add_all k [] addresses = refl
  lookup-add_all k (m ∷ ms) addresses = ground (
    arith,
    lookup-add_all k ms addresses,
    lookup-add_all k ms (add_addresses t m addresses),
    lookup-add_addresses k m addresses,
  )

  -- A name of the proxy's map has the BMC address of the last machine with that name, of those that
  -- have both addresses; it is its serial, its first address with dashes, or its host name.
  pub lookup-bmc_reverse_proxy_config_map_data :
      (k : String) (ms : List Machine)
      → lookup k (bmc_reverse_proxy_config_map_data t ms) ≡ address_of k ms none
  unfolding bmc_reverse_proxy_config_map_data lookup
  lookup-bmc_reverse_proxy_config_map_data k ms = lookup-add_all k ms []
