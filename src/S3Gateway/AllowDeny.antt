-- ===== src/S3Gateway/AllowDeny.antt =====
-- s3gw/allow_deny.go.
pub mod Laws
use neco_containers.Base.{
  Bool, true, false, List, [], ◌∷◌, Option, none, some, String, ◌==◌, Result, ok, err, any,
  on_result, if◌then◌else◌,
}

-- strings.SplitSeq at "," with strings.Trim of each part, net.ParseCIDR, net.SplitHostPort,
-- net.ParseIP, and IPNet.Contains.
pub record Network (E Net Ip : Type 0) : Type 0 where
  pub split_trimmed : String → List String
  pub parse_cidr : String → Result E Net
  pub split_host : String → Option String
  pub parse_ip : String → Option Ip
  pub includes : Net → Ip → Bool

pub record AllowDeny (Net : Type 0) : Type 0 where
  pub allowed : List Net
  pub denied : List Net

module _ {E Net Ip : Type 0} (n : Network E Net Ip) where
  -- The loop over the parts; an empty part is skipped.
  unfoldable pub parse_parts : List String → Result E (List Net)
  parse_parts [] = ok []
  parse_parts (s ∷ ss) =
      let rest = parse_parts ss in
      if s == ""
      then rest
      else on_result (n.parse_cidr s) (λ net. on_result rest (λ nets. ok (net ∷ nets)) (λ e. err e))
          (λ e. err e)

  unfoldable pub parse_cidrs : String → Result E (List Net)
  unfolding parse_parts
  parse_cidrs cidrs = parse_parts (n.split_trimmed cidrs)

  unfoldable pub parse_allow_deny : String → String → Result E (AllowDeny Net)
  unfolding parse_cidrs
  parse_allow_deny allowed denied =
      on_result (parse_cidrs allowed)
        (λ a.
          on_result (parse_cidrs denied) (λ d. ok (record { allowed = a; denied = d }))
            (λ e. err e))
        (λ e. err e)

  module _ (ad : AllowDeny Net) where
    unfoldable pub is_allowed_ip : Option Ip → Bool
    is_allowed_ip none = false
    is_allowed_ip (some ip) =
        if any (λ net. n.includes net ip) ad.allowed
        then true
        else if any (λ net. n.includes net ip) ad.denied
        then false
        else true

    unfoldable pub is_allowed_addr : String → Bool
    unfolding is_allowed_ip
    is_allowed_addr addr = is_allowed_ip (n.parse_ip addr)

    unfoldable pub is_allowed_host_port : String → Bool
    unfolding is_allowed_addr
    is_allowed_host_port hostport = elim (n.split_host hostport) [
      | none ↦ false
      | some addr ↦ is_allowed_addr addr
    ]
