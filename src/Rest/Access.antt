-- ===== src/Rest/Access.antt =====
-- Who may call the REST API: ipACLMiddleware of internal/server/rest/ipacl.go and the function auth of
-- NewServer in server.go. The parsers of package net and the comparison of bcrypt are parameters;
-- an IPv4 address is parsed as one, in its mapped form too, as IPNet.Contains takes it.
use namedor.Common.{
  ℤ, ◌≡◌, ◌≢◌, Bool, true, false, not, Option, none, some, List, [], ◌∷◌, any, is_empty,
  if◌then◌else◌, arith, inl, inr, ◌⊎◌, Bool-cases, Option-cases,
}
use namedor.Text.{Text, codes, text_eq, trim_prefix}
use namedor.Text.Laws.{text_eq_iff}
use namedor.Net.{Addr, Prefix, contains}
use namedor.Gorm.{Gorm}
use namedor.Rest.Handlers.{Response, reply, message, nothing, RestConfig, World, Change, change}

-- The settings that decide.
pub record AccessConfig : Type 0 where
  pub allowed_cidrs : List Text
  pub api_token : Text
  pub api_token_hash : Text

module _ (parse_cidr : Text → Option Prefix) (parse_ip : Text → Option Addr)
    (compare_hash : Text → Text → Bool) where
  -- The networks of the list; one that does not parse is left out.
  unfoldable pub allowed_nets : List Text → List Prefix
  allowed_nets [] = []
  allowed_nets (cidr ∷ cidrs) =
      let rest = allowed_nets cidrs in
      elim (parse_cidr cidr) [ none ↦ rest | some net ↦ net ∷ rest ]

  unfoldable pub ip_allowed : List Prefix → Text → Bool
  ip_allowed nets client = elim (parse_ip client) [
    | none ↦ false
    | some ip ↦ any (λ net. contains net.base net.bits ip) nets
  ]

  -- The middleware is only there where the list is not empty.
  unfoldable pub passes_acl : AccessConfig → Text → Bool
  unfolding allowed_nets ip_allowed
  passes_acl cfg client =
      if is_empty cfg.allowed_cidrs
      then true
      else ip_allowed (allowed_nets cfg.allowed_cidrs) client

  unfoldable pub bearer : Text → Text
  bearer header = trim_prefix header (codes "Bearer ")

  unfoldable pub authenticated : AccessConfig → Text → Bool
  unfolding bearer
  authenticated cfg header =
      if not (is_empty cfg.api_token_hash)
      then compare_hash cfg.api_token_hash (bearer header)
      else if not (is_empty cfg.api_token)
      then text_eq (bearer header) cfg.api_token
      else true

  -- A request that changes something, behind both.
  module _ (gorm : Gorm) (rest_cfg : RestConfig) (now : ℤ) where
    unfoldable pub guarded :
        AccessConfig
        → (client header : Text) → Change gorm rest_cfg now
        → World gorm
        → Response × World gorm
    guarded cfg client header c w =
        if not (passes_acl cfg client)
        then (reply 403 (message (codes "access denied")), w)
        else if not (authenticated cfg header)
        then (reply 401 nothing, w)
        else change gorm rest_cfg now c w

  -- A network of the list parses and holds the address.
  abbrev pub InSome : Addr → List Text → Type 0
  InSome ip [] = ⊥
  InSome ip (cidr ∷ cidrs) =
      ((net : Prefix) × (parse_cidr cidr ≡ some net) × (contains net.base net.bits ip ≡ true))
      ⊎ InSome ip cidrs

  allowed_nets_sound :
      (ip : Addr) (cidrs : List Text)
      → any (λ net. contains net.base net.bits ip) (allowed_nets cidrs) ≡ true
      → InSome ip cidrs
  unfolding allowed_nets
  allowed_nets_sound ip [] h = cc
  allowed_nets_sound ip (cidr ∷ cidrs) h = elim (Option-cases (parse_cidr cidr)) [
    | inl e ↦ inr (allowed_nets_sound ip cidrs (rw (e, allowed_nets) at h))
    | inr (net, e) ↦ elim (Bool-cases (contains net.base net.bits ip)) [
      | inl inside ↦ inl (net, e, inside)
      | inr outside ↦ inr (allowed_nets_sound ip cidrs (rw (e, outside, allowed_nets) at h))
    ]
  ]

  -- The client's address is one that the list of networks lets in; no list lets everyone in.
  abbrev pub MayConnect : AccessConfig → Text → Type 0
  MayConnect cfg client =
      (is_empty cfg.allowed_cidrs ≡ true)
      ⊎ ((ip : Addr) × (parse_ip client ≡ some ip) × InSome ip cfg.allowed_cidrs)

  -- The token in the header is the right one: it fits the hash, where one is set, and else it is the
  -- plain token, where one is set; with neither there is nothing to show.
  abbrev pub HasToken : AccessConfig → Text → Type 0
  HasToken cfg header =
      ((is_empty cfg.api_token_hash ≡ false)
        × (compare_hash cfg.api_token_hash (bearer header) ≡ true))
      ⊎ (((is_empty cfg.api_token_hash ≡ true) × (bearer header ≡ cfg.api_token))
          ⊎ ((is_empty cfg.api_token_hash ≡ true) × (is_empty cfg.api_token ≡ true)))

  unparsed :
      (cfg : AccessConfig) (client : Text)
      → passes_acl cfg client ≡ true
      → is_empty cfg.allowed_cidrs ≡ false
      → parse_ip client ≡ none
      → ⊥
  unfolding passes_acl
  unparsed cfg client h e p = ground arith

  parsed :
      (cfg : AccessConfig) (client : Text) (ip : Addr)
      → passes_acl cfg client ≡ true
      → is_empty cfg.allowed_cidrs ≡ false
      → parse_ip client ≡ some ip
      → any (λ net. contains net.base net.bits ip) (allowed_nets cfg.allowed_cidrs) ≡ true
  unfolding passes_acl
  parsed cfg client ip h e p = rw (e, p, passes_acl, ip_allowed) at h

  pub passes_acl-MayConnect :
      (cfg : AccessConfig) (client : Text) → passes_acl cfg client ≡ true → MayConnect cfg client
  passes_acl-MayConnect cfg client h = elim (Bool-cases (is_empty cfg.allowed_cidrs)) [
    | inl e ↦ inl e
    | inr e ↦ elim (Option-cases (parse_ip client)) [
      | inl p ↦ absurd (unparsed cfg client h e p)
      | inr (ip, p) ↦
          inr (ip, p, allowed_nets_sound ip cfg.allowed_cidrs (parsed cfg client ip h e p))
    ]
  ]

  authenticated-HasToken :
      (cfg : AccessConfig) (header : Text) → authenticated cfg header ≡ true → HasToken cfg header
  unfolding authenticated
  authenticated-HasToken cfg header h = ground (arith, text_eq_iff (bearer header) cfg.api_token)

  module _ (gorm : Gorm) (rest_cfg : RestConfig) (now : ℤ) where
    blocked :
        (cfg : AccessConfig) (client header : Text) (c : Change gorm rest_cfg now) (w : World gorm)
        → passes_acl cfg client ≡ false
        → (guarded gorm rest_cfg now cfg client header c w).1 ≡ w
    unfolding guarded
    blocked cfg client header c w e = rw (e, guarded)

    unauthorized :
        (cfg : AccessConfig) (client header : Text) (c : Change gorm rest_cfg now) (w : World gorm)
        → passes_acl cfg client ≡ true
        → authenticated cfg header ≡ false
        → (guarded gorm rest_cfg now cfg client header c w).1 ≡ w
    unfolding guarded
    unauthorized cfg client header c w e f = rw (e, f, guarded)

    -- A request changes the database or the zone cache only if the client's address is let in by the
    -- list of networks, where there is one, and the header shows the token that is configured.
    pub guarded_change :
        (cfg : AccessConfig) (client header : Text) (c : Change gorm rest_cfg now) (w : World gorm)
        → (guarded gorm rest_cfg now cfg client header c w).1 ≢ w
        → MayConnect cfg client × HasToken cfg header
    guarded_change cfg client header c w moved = elim (Bool-cases (passes_acl cfg client)) [
      | inr shut ↦ absurd (moved (blocked cfg client header c w shut))
      | inl in_list ↦ elim (Bool-cases (authenticated cfg header)) [
        | inr wrong ↦ absurd (moved (unauthorized cfg client header c w in_list wrong))
        | inl right ↦
            (passes_acl-MayConnect cfg client in_list, authenticated-HasToken cfg header right)
      ]
    ]
