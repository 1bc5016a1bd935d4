-- ===== src/S3Gateway/AllowDeny/Laws.antt =====
-- Which host and port are let in under a list that was parsed.
use neco_containers.Base.{
  ◌≡◌, refl, ◌↔◌, ◌⊎◌, inl, inr, Bool, true, false, List, [], ◌∷◌, some, String, ◌==◌, Result, ok,
  err, Result-cases, any, on_result, arith, if◌then◌else◌,
}
use neco_containers.S3Gateway.AllowDeny.{
  Network, AllowDeny, parse_parts, parse_cidrs, parse_allow_deny, is_allowed_ip, is_allowed_addr,
  is_allowed_host_port,
}

module _ {E Net Ip : Type 0} (n : Network E Net Ip) where
  -- The part is a CIDR that includes the address; an empty part includes nothing.
  abbrev pub covers : Ip → String → Bool
  covers ip s =
      if s == "" then false else on_result (n.parse_cidr s) (λ net. n.includes net ip) (λ e. false)

  any-parse_parts :
      (ip : Ip) (ss : List String) (nets : List Net)
      → parse_parts n ss ≡ ok nets
      → any (λ net. n.includes net ip) nets ≡ any (covers ip) ss
  unfolding parse_parts
  any-parse_parts ip [] nets h = ground arith
  any-parse_parts ip (s ∷ ss) nets h = elim (Result-cases (parse_parts n ss)) [
    | inl (rest, e) ↦ ground (arith, any-parse_parts ip ss rest e, any-parse_parts ip ss nets)
    | inr (x, e) ↦ ground (arith, any-parse_parts ip ss nets)
  ]

  -- The address of a host and port.
  abbrev IpOf : String → Ip → Type 0
  IpOf hostport ip =
      (addr : String) × (n.split_host hostport ≡ some addr) × (n.parse_ip addr ≡ some ip)

  allowed_parts :
      (allowed denied : String) (ad : AllowDeny Net) (ip : Ip) (a d : Result E (List Net))
      → parse_cidrs n allowed ≡ a
      → parse_cidrs n denied ≡ d
      → on_result {B = Result E (AllowDeny Net)} a
          (λ x. on_result d (λ y. ok (record { allowed = x; denied = y })) (λ e. err e))
          (λ e. err e)
        ≡ ok ad
      → (any (λ net. n.includes net ip) ad.allowed ≡ any (covers ip) (n.split_trimmed allowed))
        × (any (λ net. n.includes net ip) ad.denied ≡ any (covers ip) (n.split_trimmed denied))
  unfolding parse_cidrs
  allowed_parts allowed denied ad ip (ok x) (ok y) p q h = ground (
    arith,
    any-parse_parts ip (n.split_trimmed allowed) x,
    any-parse_parts ip (n.split_trimmed denied) y,
  )
  allowed_parts allowed denied ad ip (ok x) (err e) p q h = cc
  allowed_parts allowed denied ad ip (err e) d p q h = cc

  -- Under two lists of CIDRs that are parsed, a host and port whose address is read is let in exactly
  -- when one of the allowed CIDRs includes the address or none of the denied ones does; an empty part
  -- of a list counts for nothing.
  pub is_allowed_host_port_iff :
      (allowed denied hostport : String) (ad : AllowDeny Net) (ip : Ip)
      → parse_allow_deny n allowed denied ≡ ok ad
      → IpOf hostport ip
      → (is_allowed_host_port n ad hostport ≡ true) ↔ (
          (any (covers ip) (n.split_trimmed allowed) ≡ true)
          ⊎ (any (covers ip) (n.split_trimmed denied) ≡ false))
  unfolding parse_allow_deny is_allowed_host_port is_allowed_addr is_allowed_ip
  is_allowed_host_port_iff allowed denied hostport ad ip h (addr, s, p) =
      let (a, d) =
        allowed_parts allowed denied ad ip (parse_cidrs n allowed) (parse_cidrs n denied) refl refl
          h in
      ((λ t. ground (arith, s, p, a, d)), (λ t. ground (arith, s, p, a, d)))
