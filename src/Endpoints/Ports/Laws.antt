-- ===== src/Endpoints/Ports/Laws.antt =====
-- The ports that are accepted.
use Prim.Native.String.{compare}
use text.Mathlib.Text.{is_le}
use neco_containers.Base.{
  ℕ, ◌≤◌, ◌<◌, suc, ◌+◌, ◌^◌, length, length-append, if-lift, subst, ◌∙◌, ◌≡◌, refl, String, ◌==◌,
  eq_iff, Option, none, some, Result, ok, err, List, [], ◌∷◌, ◌++◌, true, false, not, ◌||◌, nat_eq,
  arith, if◌then◌else◌, on_result, and_then,
}
use neco_containers.Endpoints.Ports.{
  NamedPort, PortError, PortTexts, has_name, has_port, insert_port, sort_ports, check_seen,
  check_port, check_spec, parse_specs, parse_named_ports,
}

module _ (t : PortTexts)
    (fits : (s : String) (n : ℕ) → t.parse_uint16 s ≡ some n → n < 2 ^ 16) where
  abbrev IsPort : NamedPort → Type 0
  IsPort p = (1 ≤ p.port) × (p.port < 2 ^ 16) × (t.is_dns1123_label p.name ≡ true)

  abbrev ArePorts : List NamedPort → Type 0
  ArePorts [] = Unit
  ArePorts (p ∷ ps) =
      IsPort p × (has_name p.name ps ≡ false) × (has_port p.port ps ≡ false) × ArePorts ps

  has_name-append :
      (n : String) (ps : List NamedPort) (p : NamedPort)
      → has_name n (ps ++ p ∷ []) ≡ (has_name n ps || p.name == n)
  unfolding has_name
  has_name-append n [] p = ground arith
  has_name-append n (q ∷ ps) p = ground (arith, has_name-append n ps p)

  has_port-append :
      (n : ℕ) (ps : List NamedPort) (p : NamedPort)
      → has_port n (ps ++ p ∷ []) ≡ (has_port n ps || nat_eq p.port n)
  unfolding has_port
  has_port-append n [] p = ground arith
  has_port-append n (q ∷ ps) p = ground (arith, has_port-append n ps p)

  append-ArePorts :
      (ps : List NamedPort) (p : NamedPort)
      → ArePorts ps
      → IsPort p
      → has_name p.name ps ≡ false
      → has_port p.port ps ≡ false
      → ArePorts (ps ++ p ∷ [])
  unfolding has_name has_port
  append-ArePorts [] p a i n q = (i, refl, refl, tt)
  append-ArePorts (r ∷ ps) p a i n q = (
    a.0,
    ground (arith, has_name-append r.name ps p, eq_iff r.name p.name, eq_iff p.name r.name),
    ground (arith, has_port-append r.port ps p),
    append-ArePorts ps p a.3 i (ground arith) (ground arith),
  )

  has_name-insert_port :
      (n : String) (p : NamedPort) (ps : List NamedPort)
      → has_name n (insert_port p ps) ≡ has_name n (p ∷ ps)
  unfolding has_name insert_port
  has_name-insert_port n p [] = refl
  has_name-insert_port n p (q ∷ ps) = ground (arith, has_name-insert_port n p ps)

  has_port-insert_port :
      (n : ℕ) (p : NamedPort) (ps : List NamedPort)
      → has_port n (insert_port p ps) ≡ has_port n (p ∷ ps)
  unfolding has_port insert_port
  has_port-insert_port n p [] = refl
  has_port-insert_port n p (q ∷ ps) = ground (arith, has_port-insert_port n p ps)

  insert_port-ArePorts :
      (p : NamedPort) (ps : List NamedPort)
      → ArePorts ps
      → IsPort p
      → has_name p.name ps ≡ false
      → has_port p.port ps ≡ false
      → ArePorts (insert_port p ps)
  unfolding insert_port has_name has_port
  insert_port-ArePorts p [] a i n q = (i, n, q, tt)
  insert_port-ArePorts p (r ∷ ps) a i n q =
      if-lift ArePorts (is_le (compare p.name r.name)) (p ∷ (r ∷ ps)) (r ∷ insert_port p ps)
        (λ h. (i, n, q, a))
        (λ h. (
          a.0,
          ground
              (arith, has_name-insert_port r.name p ps, eq_iff r.name p.name, eq_iff p.name r.name),
          ground (arith, has_port-insert_port r.port p ps),
          insert_port-ArePorts p ps a.3 i (ground arith) (ground arith),
        ))

  has_name-sort_ports :
      (n : String) (ps : List NamedPort) → has_name n (sort_ports ps) ≡ has_name n ps
  unfolding sort_ports has_name
  has_name-sort_ports n [] = refl
  has_name-sort_ports n (p ∷ ps) =
      ground (arith, has_name-insert_port n p (sort_ports ps), has_name-sort_ports n ps)

  has_port-sort_ports : (n : ℕ) (ps : List NamedPort) → has_port n (sort_ports ps) ≡ has_port n ps
  unfolding sort_ports has_port
  has_port-sort_ports n [] = refl
  has_port-sort_ports n (p ∷ ps) =
      ground (arith, has_port-insert_port n p (sort_ports ps), has_port-sort_ports n ps)

  sort_ports-ArePorts : (ps : List NamedPort) → ArePorts ps → ArePorts (sort_ports ps)
  unfolding sort_ports
  sort_ports-ArePorts [] a = tt
  sort_ports-ArePorts (p ∷ ps) a =
      insert_port-ArePorts p (sort_ports ps) (sort_ports-ArePorts ps a.3) a.0
        (has_name-sort_ports p.name ps ∙ a.1) (has_port-sort_ports p.port ps ∙ a.2)

  length-insert_port :
      (p : NamedPort) (ps : List NamedPort) → length (insert_port p ps) ≡ suc (length ps)
  unfolding insert_port
  length-insert_port p [] = refl
  length-insert_port p (q ∷ ps) = ground (arith, length-insert_port p ps)

  length-sort_ports : (ps : List NamedPort) → length (sort_ports ps) ≡ length ps
  unfolding sort_ports
  length-sort_ports [] = refl
  length-sort_ports (p ∷ ps) =
      omega (arith, length-insert_port p (sort_ports ps), length-sort_ports ps)

  -- A list of that many ports that are in order, or an error.
  abbrev pub Reports : ℕ → Result PortError (List NamedPort) → Type 0
  Reports n (ok ps) = ArePorts ps × (length ps ≡ n)
  Reports n (err e) = Unit

  check_seen-Reports :
      (spec name : String) (port : ℕ) (ps : List NamedPort)
      → ArePorts ps
      → port < 2 ^ 16
      → Reports (suc (length ps)) (check_seen t spec name port ps)
  unfolding check_seen
  check_seen-Reports spec name port ps a l =
      let p : NamedPort = record { name = name; port = port } in
      let good : List NamedPort = ps ++ p ∷ [] in
      let n = suc (length ps) in
      let seen_port : Result PortError (List NamedPort) =
        if has_port port ps then err (PortError.duplicate_port spec) else ok good in
      let seen_name : Result PortError (List NamedPort) =
        if has_name name ps then err (PortError.duplicate_name name) else seen_port in
      let label : Result PortError (List NamedPort) =
        if not (t.is_dns1123_label name) then err (PortError.invalid_name name) else seen_name in
      if-lift (Reports n) (nat_eq port 0) (err (PortError.port_zero spec)) label (λ h. tt)
        (λ z.
          if-lift (Reports n) (not (t.is_dns1123_label name)) (err (PortError.invalid_name name))
            seen_name (λ h. tt)
            (λ d.
              if-lift (Reports n) (has_name name ps) (err (PortError.duplicate_name name)) seen_port
                (λ h. tt)
                (λ m.
                  if-lift (Reports n) (has_port port ps) (err (PortError.duplicate_port spec))
                    (ok good) (λ h. tt)
                    (λ q. (
                      append-ArePorts ps p a (ground arith, l, ground arith) m q,
                      omega (arith, length-append ps (p ∷ [])),
                    )))))

  check_port-Reports :
      (spec name s : String) (o : Option ℕ) (ps : List NamedPort)
      → t.parse_uint16 s ≡ o
      → ArePorts ps
      → Reports (suc (length ps)) (check_port t spec name o ps)
  unfolding check_port
  check_port-Reports spec name s none ps e a = tt
  check_port-Reports spec name s (some n) ps e a = check_seen-Reports spec name n ps a (fits s n e)

  check_spec-Reports :
      (spec : String) (o : Option (String × String)) (ps : List NamedPort)
      → ArePorts ps
      → Reports (suc (length ps)) (check_spec t spec o ps)
  unfolding check_spec
  check_spec-Reports spec none ps a = tt
  check_spec-Reports spec (some (s, name)) ps a =
      check_port-Reports spec name s (t.parse_uint16 s) ps refl a

  parse_specs-Reports :
      (specs : List String) (ps : List NamedPort)
      → ArePorts ps
      → Reports (length specs + length ps) (parse_specs t specs ps)
  unfolding parse_specs
  parse_specs-Reports [] ps a = (a, omega arith)
  parse_specs-Reports (spec ∷ specs) ps a =
      go (check_spec t spec (t.cut spec) ps) (check_spec-Reports spec (t.cut spec) ps a)
        (λ qs b. parse_specs-Reports specs qs b)
    where
      go :
          (r : Result PortError (List NamedPort))
          → Reports (suc (length ps)) r
          → ((qs : List NamedPort)
              → ArePorts qs
              → Reports (length specs + length qs) (parse_specs t specs qs))
          → Reports (suc (length specs) + length ps) (and_then r (λ ps'. parse_specs t specs ps'))
      go (err e) k next = tt
      go (ok qs) k next =
          subst (λ n. Reports n (parse_specs t specs qs)) (omega (arith, k.1)) (next qs k.0)

  -- When the ports are accepted there is one for each text, each from 1 to 65535 with a label as its
  -- name, and no name and no port occurs twice; ParseUint with 16 bits is taken to stay below 2 ^ 16.
  pub parse_named_ports-Reports :
      (specs : List String) → Reports (length specs) (parse_named_ports t specs)
  unfolding parse_named_ports
  parse_named_ports-Reports specs =
      sorted (parse_specs t specs []) (parse_specs-Reports specs [] tt)
    where
      sorted :
          (r : Result PortError (List NamedPort))
          → Reports (length specs + 0) r
          → Reports (length specs) (on_result r (λ ports. ok (sort_ports ports)) (λ e. err e))
      sorted (err e) k = tt
      sorted (ok ps) k = (sort_ports-ArePorts ps k.0, omega (arith, length-sort_ports ps, k.1))
