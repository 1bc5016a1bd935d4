-- ===== src/Admission/HttpProxy/Policies.antt =====
-- The merge of IP policies in `setHTTPProxyPolicyField` of admission/hooks/mutate_httpproxy.go.
use mathlib.Core.List.{Memᴰ}
use neco_containers.Base.{
  ◌≡◌, ◌↔◌, ◌⊎◌, inl, inr, Bool, true, ◌&&◌, List, [], ◌∷◌, ◌++◌, Option, none, some, String, ◌==◌,
  eq_iff, any, arith, Bool-cases, if◌then◌else◌,
}

-- HTTPProxyIPFilterPolicy
pub record IpPolicy : Type 0 where
  pub source : String
  pub cidr : String

-- HTTPProxyPolicy
pub record Policy : Type 0 where
  pub name : String
  pub ip_allow_policy : List IpPolicy

unfoldable pub same_policy : IpPolicy → IpPolicy → Bool
same_policy p q = p.source == q.source && p.cidr == q.cidr

unfoldable pub get_http_proxy_policy : List Policy → String → Option Policy
get_http_proxy_policy [] key = none
get_http_proxy_policy (v ∷ vs) key =
    let rest = get_http_proxy_policy vs key in if v.name == key then some v else rest

-- ipPoliciesMap[v] = struct{}{}
unfoldable pub add_key : List IpPolicy → IpPolicy → List IpPolicy
add_key keys v = if any (same_policy v) keys then keys else keys ++ v ∷ []

unfoldable pub add_keys : List IpPolicy → List IpPolicy → List IpPolicy
add_keys keys [] = keys
add_keys keys (v ∷ vs) = add_keys (add_key keys v) vs

-- The policies of a route and those of the configuration, each once, in the order in which the map
-- is iterated.
unfoldable pub uniq_ip_policies :
    (List IpPolicy → List IpPolicy) → List IpPolicy → List IpPolicy → List IpPolicy
uniq_ip_policies iteration old new = iteration (add_keys [] (old ++ new))

same_policy_iff : (p q : IpPolicy) → (same_policy p q ≡ true) ↔ (p ≡ q)
unfolding same_policy
same_policy_iff p q = (
  (λ h. ground (arith, eq_iff p.source q.source, eq_iff p.cidr q.cidr)),
  (λ h. ground (arith, eq_iff p.source q.source, eq_iff p.cidr q.cidr)),
)

mem_of_any_same : {p : IpPolicy} (ps : List IpPolicy) → any (same_policy p) ps ≡ true → Memᴰ p ps
mem_of_any_same [] h = cc
mem_of_any_same {p} (q ∷ ps) h = elim (Bool-cases (same_policy p q)) [
  | inl e ↦ Memᴰ.head ((same_policy_iff p q).0 e)
  | inr e ↦ Memᴰ.tail (mem_of_any_same ps (rw e at h))
]

mem_append_left : {p : IpPolicy} (ps qs : List IpPolicy) → Memᴰ p ps → Memᴰ p (ps ++ qs)
mem_append_left [] qs m = elim m [ ]
mem_append_left (x ∷ ps) qs (Memᴰ.head e) = Memᴰ.head e
mem_append_left (x ∷ ps) qs (Memᴰ.tail m) = Memᴰ.tail (mem_append_left ps qs m)

mem_append_right : {p : IpPolicy} (ps qs : List IpPolicy) → Memᴰ p qs → Memᴰ p (ps ++ qs)
mem_append_right [] qs m = m
mem_append_right (x ∷ ps) qs m = Memᴰ.tail (mem_append_right ps qs m)

mem_append_cases :
    {p : IpPolicy} (ps qs : List IpPolicy) → Memᴰ p (ps ++ qs) → Memᴰ p ps ⊎ Memᴰ p qs
mem_append_cases [] qs m = inr m
mem_append_cases (x ∷ ps) qs (Memᴰ.head e) = inl (Memᴰ.head e)
mem_append_cases (x ∷ ps) qs (Memᴰ.tail m) = elim (mem_append_cases ps qs m) [
  | inl a ↦ inl (Memᴰ.tail a)
  | inr b ↦ inr b
]

module _ {p : IpPolicy} (keys : List IpPolicy) (v : IpPolicy) where
  add_key_keeps : Memᴰ p keys → Memᴰ p (add_key keys v)
  unfolding add_key
  add_key_keeps m = elim (Bool-cases (any (same_policy v) keys)) [
    | inl e ↦ rw e m
    | inr e ↦ rw e (mem_append_left keys (v ∷ []) m)
  ]

  add_key_adds : p ≡ v → Memᴰ p (add_key keys v)
  unfolding add_key
  add_key_adds q = elim (Bool-cases (any (same_policy v) keys)) [
    | inl e ↦ rw e (rw q (mem_of_any_same keys e))
    | inr e ↦ rw e (mem_append_right keys (v ∷ []) (Memᴰ.head q))
  ]

  add_key_only : Memᴰ p (add_key keys v) → Memᴰ p keys ⊎ (p ≡ v)
  unfolding add_key
  add_key_only m = elim (Bool-cases (any (same_policy v) keys)) [
    | inl e ↦ inl (rw e at m)
    | inr e ↦ elim (mem_append_cases keys (v ∷ []) (rw e at m)) [
      | inl a ↦ inl a
      | inr b ↦ inr (only b)
    ]
  ]
    where
      only : Memᴰ p (v ∷ []) → p ≡ v
      only (Memᴰ.head e) = e
      only (Memᴰ.tail t) = elim t [ ]

add_keys_keeps : {p : IpPolicy} (keys vs : List IpPolicy) → Memᴰ p keys → Memᴰ p (add_keys keys vs)
unfolding add_keys
add_keys_keeps keys [] m = m
add_keys_keeps keys (v ∷ vs) m = add_keys_keeps (add_key keys v) vs (add_key_keeps keys v m)

add_keys_adds : {p : IpPolicy} (keys vs : List IpPolicy) → Memᴰ p vs → Memᴰ p (add_keys keys vs)
unfolding add_keys
add_keys_adds keys [] m = elim m [ ]
add_keys_adds keys (v ∷ vs) (Memᴰ.head e) =
    add_keys_keeps (add_key keys v) vs (add_key_adds keys v e)
add_keys_adds keys (v ∷ vs) (Memᴰ.tail m) = add_keys_adds (add_key keys v) vs m

add_keys_only :
    {p : IpPolicy} (keys vs : List IpPolicy) → Memᴰ p (add_keys keys vs) → Memᴰ p keys ⊎ Memᴰ p vs
unfolding add_keys
add_keys_only keys [] m = inl m
add_keys_only keys (v ∷ vs) m = elim (add_keys_only (add_key keys v) vs m) [
  | inl a ↦ elim (add_key_only keys v a) [ inl b ↦ inl b | inr e ↦ inr (Memᴰ.head e) ]
  | inr b ↦ inr (Memᴰ.tail b)
]

-- However the map is iterated, as long as the iteration visits exactly its keys, the merged policies
-- of a route are exactly those that it had and those of the configuration.
pub uniq_ip_policies_mem :
    (iteration : List IpPolicy → List IpPolicy) (old new : List IpPolicy) (p : IpPolicy)
    → ((q : IpPolicy) (l : List IpPolicy) → Memᴰ q (iteration l) ↔ Memᴰ q l)
    → Memᴰ p (uniq_ip_policies iteration old new) ↔ (Memᴰ p old ⊎ Memᴰ p new)
unfolding uniq_ip_policies
uniq_ip_policies_mem iteration old new p visits = (
  (λ m. elim (add_keys_only [] (old ++ new) ((visits p (add_keys [] (old ++ new))).0 m)) [
    | inl a ↦ elim a [ ]
    | inr b ↦ mem_append_cases old new b
  ]),
  (λ m. (visits p (add_keys [] (old ++ new))).1 (
      add_keys_adds [] (old ++ new)
        (elim m [ inl a ↦ mem_append_left old new a | inr b ↦ mem_append_right old new b ]))),
)
