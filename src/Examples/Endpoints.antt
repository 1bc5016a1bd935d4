-- ===== src/Examples/Endpoints.antt =====
-- machines-endpoints, at concrete machines and ports.
use neco_containers.Base.{
  ℕ, ◌≡◌, ◌<◌, ◌^◌, true, List, [], ◌∷◌, Option, none, some, String, ◌==◌, ok, pos, arith,
  if◌then◌else◌,
}
use neco_containers.Endpoints.Machines.{Machine, Texts, bmc_reverse_proxy_config_map_data}
use neco_containers.Endpoints.Machines.Laws.{address_of}
use neco_containers.BmcProxy.{HostTexts, get_hostname, direct}
use neco_containers.BmcProxy.Laws.{first_address, url_host-direct}
use neco_containers.Endpoints.Ports.{PortTexts, parse_named_ports}
use neco_containers.Endpoints.Ports.Laws.{Reports, parse_named_ports-Reports}

abbrev texts : Texts ℕ String
texts = record {
  retired = "RETIRED";
  boot_name = λ r. "boot-0";
  rack_name = λ r role i. "rack0-cs1";
  dashed = λ ip. if ip == "10.0.0.1" then "10-0-0-1" else "10-0-0-2";
  parse_ip = λ ip. some ip;
  marshal = λ l. ok "[]";
}

abbrev boot : Machine
boot = record {
  ipv4 = "10.0.0.1" ∷ [];
  serial = "b1";
  rack = pos 0;
  index_in_rack = pos 0;
  role = "boot";
  bmc_ipv4 = "10.1.0.1";
  state = "HEALTHY";
}

abbrev worker : Machine
worker = record {
  ipv4 = "10.0.0.2" ∷ [];
  serial = "w1";
  rack = pos 0;
  index_in_rack = pos 1;
  role = "cs";
  bmc_ipv4 = "10.1.0.2";
  state = "HEALTHY";
}

abbrev machines : List Machine
machines = boot ∷ worker ∷ []

abbrev parse_number : String → Option ℕ
parse_number s = if s == "9100" then some 9100 else none

abbrev port_texts : PortTexts
port_texts = record {
  cut = λ s. if s == "9100:node" then some ("9100", "node") else none;
  parse_uint16 = parse_number;
  is_dns1123_label = λ s. true;
}

parse_number-fits : (s : String) (n : ℕ) → parse_number s ≡ some n → n < 2 ^ 16
parse_number-fits s n e = ground arith

parse_named_ports-Reports_example :
    Reports port_texts parse_number-fits 1 (parse_named_ports port_texts ("9100:node" ∷ []))
parse_named_ports-Reports_example =
    parse_named_ports-Reports port_texts parse_number-fits ("9100:node" ∷ [])

abbrev ips : List String
ips = "10.0.0.1" ∷ "10.0.0.2" ∷ "10.0.0.3" ∷ []

abbrev host_texts : HostTexts
host_texts = record {
  first_label = λ s. if s == "w1.bmc.example" then "w1" else s;
  boot_match = λ s. none;
  to_upper = λ s. s;
  join_host_port = λ a n. a;
}

abbrev no_certificate : Option ℕ
no_certificate = none

url_host-direct_example :
    (direct host_texts 443
      (record {
        certificate = no_certificate;
        resolve_map = some (bmc_reverse_proxy_config_map_data texts machines);
      })
      (record { host = "w1.bmc.example"; url_host = ""; url_scheme = "" })).url_host
    ≡ host_texts.join_host_port
        (first_address (address_of texts (get_hostname host_texts "w1.bmc.example") machines none) (
          address_of texts
            (host_texts.to_upper (get_hostname host_texts "w1.bmc.example"))
            machines
            none))
        443
url_host-direct_example =
    url_host-direct host_texts texts machines 443 no_certificate
      (record { host = "w1.bmc.example"; url_host = ""; url_scheme = "" })
