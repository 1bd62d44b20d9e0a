-- ===== src/Event/Url.antt =====
-- `_is_safe_ip` and `is_safe_url` of backend/core/events/delivery.py. What `urllib.parse`, `ipaddress`
-- and the name resolver answer is an argument.
use Prim.Native.Char.{code}
use community_overview.Base.{
  ℕ, String, Bool, true, false, not, ◌&&◌, ◌||◌, Option, none, some, List, [], ◌∷◌, ◌==◌, string_eq,
  nat_eq, if◌then◌else◌,
}

-- An address, by what `ipaddress` says of it.
pub record Address : Type 0 where
  pub version : ℕ
  pub in_cgnat : Bool
  pub is_private : Bool
  pub is_loopback : Bool
  pub is_link_local : Bool
  pub is_multicast : Bool
  pub is_reserved : Bool

pub record Url : Type 0 where
  pub scheme : String
  pub hostname : Option String

-- `none` is an exception.
pub record Net : Type 0 where
  pub urlparse : String → Option Url
  pub ip_address : String → Option Address
  pub getaddrinfo : String → Option (List String)

unfoldable pub is_safe_ip : Address → Bool
is_safe_ip ip =
    if ip.version == 4 && ip.in_cgnat
    then false
    else not (
        ip.is_private
        || (ip.is_loopback || (ip.is_link_local || (ip.is_multicast || ip.is_reserved))))

-- `s.split("%")[0]`
unfoldable pub before_percent : String → String
before_percent String.[] = String.[]
before_percent (String.◌∷◌ c s) =
    let rest = before_percent s in if code c == 37 then String.[] else String.◌∷◌ c rest

unfoldable pub is_safe_literal : Option Address → Bool
is_safe_literal none = false
is_safe_literal (some ip) = is_safe_ip ip

-- The loop over the resolved addresses; an exception makes it false as well.
unfoldable pub all_safe : Net → List String → Bool
all_safe net [] = true
all_safe net (s ∷ ss) =
    let rest = all_safe net ss in
    if is_safe_literal (net.ip_address (before_percent s)) then rest else false

unfoldable pub resolved_safe : Net → Option (List String) → Bool
resolved_safe net none = false
resolved_safe net (some []) = false
resolved_safe net (some (s ∷ ss)) = all_safe net (s ∷ ss)

unfoldable pub is_safe_host : Net → String → Bool
is_safe_host net hostname = elim (net.ip_address hostname) [
  | some ip ↦ is_safe_ip ip
  | none ↦ resolved_safe net (net.getaddrinfo hostname)
]

unfoldable pub is_safe_parsed : Net → Url → Bool
is_safe_parsed net u =
    if not (u.scheme == "http" || u.scheme == "https") then false else elim u.hostname [
      | none ↦ false
      | some hostname ↦ if hostname == "" then false else is_safe_host net hostname
    ]

unfoldable pub is_safe_url : Net → String → Bool
is_safe_url net url = elim (net.urlparse url) [ none ↦ false | some u ↦ is_safe_parsed net u ]
