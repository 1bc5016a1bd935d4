-- ===== src/Examples/Clusters.antt =====
-- The cluster of machines-endpoints as a map of slices, a dry run, and the buckets of
-- bucket-provisioner-light.
use neco_containers.Base.{
  some_inv, ℕ, zero, suc, ◌<◌, ◌≡◌, refl, sym, ap, ◌∙◌, String, true, Option, none, some, ok, pure,
  pure_inv, ok_or_err, List, [], ◌∷◌, Map, lookup, insert, delete, lookup-insert, lookup-delete,
  keys, contains, is_some, pos, arith,
}
use neco_containers.Endpoints.Ports.{NamedPort, PortTexts}
use neco_containers.Endpoints.Machines.{Texts}
use neco_containers.Endpoints.Slices.{KubeApi, chunk, update_target_endpoints}
use neco_containers.Endpoints.Slices.Refines.{Serves, numbered, update_target_endpoints-slices}
use neco_containers.Endpoints.Slices.Dry.{IsDry, Leaves}
use neco_containers.Endpoints.Main.{Flags, System, sub_main}
use neco_containers.Endpoints.Main.Laws.{IsReading, sub_main-Leaves}
use neco_containers.BucketProvisioner.{S3, Page, delete as delete_bucket_whole}
use neco_containers.BucketProvisioner.Laws.{Finite, delete-ends}

abbrev Cluster : Type 0
Cluster = Map (List String)

abbrev api : KubeApi Cluster String String
api = record {
  namespace = pure "monitoring";
  apply_service = λ n ps. pure tt;
  print_service = λ n ps. pure tt;
  apply_slice = λ n ips ps w. (ok tt, insert n ips w);
  print_slice = λ n ips ps. pure tt;
  apply_map = λ n m. pure tt;
  print_map = λ n m. pure tt;
  list_slices = λ n w. (ok (keys w), w);
  delete_slice = λ n w. (ok tt, delete n w);
  is_not_found = λ e. true;
  slice_name = λ n i. elim i [ zero ↦ "all-servers-targets-0" | suc j ↦ "all-servers-targets-1" ];
}

contains-keys : (k : String) (w : Cluster) → contains (keys w) k ≡ is_some (lookup k w)
unfolding keys lookup
contains-keys k [] = refl
contains-keys k ((n, ips) ∷ w) = ground (arith, contains-keys k w)

unchanged :
    {A : Type 0} (a b : A) (w w' : Cluster) (k : String)
    → pure {E = String} a w ≡ (ok b, w')
    → lookup k w' ≡ lookup k w
unchanged a b w w' k h = ap (λ x. lookup k x) (sym (pure_inv a b w w' h).1)

api-Serves : Serves api "all-servers-targets" (λ w k. lookup k w)
api-Serves = record {
  reading = λ w w' ns h k. unchanged "monitoring" ns w w' k h;
  serving = λ w w' ps u h k. unchanged tt u w w' k h;
  applying = λ w w' n ips ps u h k.
      ap (λ x. lookup k x) (sym (pure_inv tt u (insert n ips w) w' h).1) ∙ lookup-insert n k ips w;
  listing = λ w w' l h k.
      let (i, j) = pure_inv (keys w) l w w' h in
      (ap (λ x. lookup k x) (sym j), ap (λ x. contains x k) (sym i) ∙ contains-keys k w);
  deleting = λ w w' n u h k.
      ap (λ x. lookup k x) (sym (pure_inv tt u (delete n w) w' h).1) ∙ lookup-delete n k w;
  missing = λ w w' n e h b k. absurd (ok_or_err (ok tt) (ap (λ x. x.0) h) refl);
}

abbrev ports : List NamedPort
ports = record { name = "node"; port = 9100 } ∷ []

abbrev before : Cluster
before = ("all-servers-targets-7", "10.0.0.9" ∷ []) ∷ []

abbrev two : Cluster
two =
    ("all-servers-targets-0", "10.0.0.1" ∷ "10.0.0.2" ∷ [])
    ∷ ("all-servers-targets-1", "10.0.0.3" ∷ [])
    ∷ []

update_target_endpoints-slices_example :
    lookup "all-servers-targets-7" two
    ≡ numbered api "all-servers-targets"
        (λ w k. lookup k w)
        0
        (chunk 1 ("10.0.0.1" ∷ "10.0.0.2" ∷ "10.0.0.3" ∷ []))
        "all-servers-targets-7"
        none
unfolding update_target_endpoints keys insert delete
update_target_endpoints-slices_example =
    update_target_endpoints-slices api "all-servers-targets" (λ w k. lookup k w) api-Serves
      ("10.0.0.1" ∷ "10.0.0.2" ∷ "10.0.0.3" ∷ []) 1 ports before two tt refl "all-servers-targets-7"

abbrev system : System Cluster String
system = record {
  split_host_port = λ s. some ("sabakan", "80");
  query_sabakan = λ address. pure (record { status = 200; body = ok ([], []) });
  new_client = pure tt;
}

abbrev texts : Texts String String
texts = record {
  retired = "RETIRED";
  boot_name = λ r. "boot-0";
  rack_name = λ r role i. "rack0-cs1";
  dashed = λ ip. ip;
  parse_ip = λ ip. some ip;
  marshal = λ l. ok "[]";
}

abbrev port_texts : PortTexts
port_texts = record {
  cut = λ s. some ("9100", "node");
  parse_uint16 = λ s. some 9100;
  is_dns1123_label = λ s. true;
}

abbrev flags : Flags
flags = record {
  sabakan_address = "sabakan:80";
  all_servers_ports = "9100:node" ∷ [];
  boot_servers_ports = [];
  max_endpoints_per_slice = pos 100;
  bmc_reverse_proxy_config_map = true;
  bmc_log_collector_config_map = true;
  dry_run = true;
}

sub_main-Leaves_example :
    Leaves
      (λ (w : Cluster). lookup "all-servers-targets-0" w)
      (sub_main api system texts port_texts flags)
sub_main-Leaves_example =
    let dry : IsDry (λ (w : Cluster). lookup "all-servers-targets-0" w) api = record {
      reading = λ w. refl;
      printing_service = λ n ps w. refl;
      printing_slice = λ n ips ps w. refl;
      printing_map = λ n m w. refl;
    } in
    let reads : IsReading (λ (w : Cluster). lookup "all-servers-targets-0" w) system = record {
      querying = λ address w. refl;
      connecting = λ w. refl;
    } in
    sub_main-Leaves (λ (w : Cluster). lookup "all-servers-targets-0" w) api dry system reads texts
      port_texts flags refl

-- A service whose lists have three pages; the token of a page is the number of those after it.
abbrev next_token : ℕ → Option ℕ
next_token zero = none
next_token (suc n) = some n

abbrev pages_left : Option ℕ → ℕ
pages_left none = 3
pages_left (some n) = suc n

abbrev page_at : Option ℕ → Page ℕ
page_at none = record { contents = "a" ∷ []; next = some 1 }
page_at (some n) = record { contents = "b" ∷ []; next = next_token n }

abbrev service : S3 ℕ String ℕ
service = record {
  head_bucket = λ b. pure tt;
  create_bucket = λ b. pure tt;
  delete_bucket = λ b. pure tt;
  list_page = λ b t w. (ok (page_at t), w);
  delete_objects = λ b ks w. (ok tt, suc w);
  is_already_owned = λ e. true;
  is_no_such_bucket = λ e. true;
}

next_token-lower : (n m : ℕ) → next_token n ≡ some m → suc m < suc n
next_token-lower zero m h = cc
next_token-lower (suc n) m h = omega (arith, some_inv h)

page_at-lower :
    (t : Option ℕ) (n : ℕ) → (page_at t).next ≡ some n → pages_left (some n) < pages_left t
page_at-lower none n h = omega (arith, some_inv h)
page_at-lower (some m) n h = next_token-lower m n h

delete-ends_example : is_some (delete_bucket_whole service 4 "bucket" 0) ≡ true
delete-ends_example =
    let finite : Finite service (λ w t. pages_left t) = record {
      listing = λ b t n page w w' h e.
          page_at-lower t n (ap (λ (p : Page ℕ). p.next) (pure_inv (page_at t) page w w' h).0 ∙ e);
      deleting = λ b ks t u w w' h. omega arith;
    } in
    delete-ends service (λ w t. pages_left t) finite 4 "bucket" 0 (omega arith)
