-- ===== src/Digest/Sources.antt =====
-- Source addresses in tools/honeycow_digest.py. The parsers and the address classes of ipaddress
-- are parameters; `none` is a ValueError.
use honeycow.Prelude.{
  ℕ, ◌+◌, Bool, false, ◌||◌, Option, none, some, List, [], ◌∷◌, ◌++◌, Text, is_empty, any,
  splitlines, if◌then◌else◌, ◌==◌,
}
use honeycow.Exemptions.{ReadText, contents, os_error, decode_error, clean_line}
use honeycow.Ip.{IpAddress}
use honeycow.SourceExemptions.{Address, Network, in_network}

-- `addr in net`
unfoldable pub address_in : Address → Network → Bool
address_in (Address.v4 ip) (Network.v4 net prefix) = in_network 32 ip (net, prefix)
address_in (Address.v6 ip) (Network.v6 net prefix) = in_network 128 ip (net, prefix)
address_in _ _ = false

unfoldable pub in_any : Option Address → List Network → Bool
in_any none nets = false
in_any (some addr) nets = any nets (address_in addr)

unfoldable pub version : Option Address → Option ℕ
version none = none
version (some (Address.v4 ip)) = some 4
version (some (Address.v6 ip)) = some 6

-- The lines of a list that are not empty when cleaned.
unfoldable pub entries : List Text → List Text
entries [] = []
entries (line ∷ rest) =
    if is_empty (clean_line line) then entries rest else clean_line line ∷ entries rest

-- The entries of a file: none if it cannot be read; `none` is a decoding error, which escapes.
unfoldable pub file_entries : ReadText → Option (List Text)
file_entries (contents text) = some (entries (splitlines text))
file_entries os_error = some []
file_entries decode_error = none

-- What both loaders read of an optional path.
unfoldable pub path_entries : Option ReadText → Option (List Text)
path_entries none = some []
path_entries (some read) = file_entries read

-- The counter of a version: 4, 6, or neither.
unfoldable pub add_version : Option ℕ → ℕ → ℕ × ℕ × ℕ → ℕ × ℕ × ℕ
add_version none n (v4, v6, unknown) = (v4, v6, unknown + n)
add_version (some v) n (v4, v6, unknown) =
    if v == 4
    then (v4 + n, v6, unknown)
    else if v == 6
    then (v4, v6 + n, unknown)
    else (v4, v6, unknown + n)

module _ (ip : IpAddress) where
  unfoldable pub is_internal : Option Address → Bool
  is_internal none = false
  is_internal (some addr) = ip.is_private addr || ip.is_loopback addr || ip.is_link_local addr

  unfoldable pub is_private_or_loopback : Text → Bool
  unfolding is_internal
  is_private_or_loopback s = is_internal (ip.ip_address s)

  unfoldable pub ip_version : Text → Option ℕ
  unfolding version
  ip_version s = version (ip.ip_address s)

  unfoldable pub is_our_ip : Text → List Network → Bool
  unfolding in_any
  is_our_ip s networks = if is_empty networks then false else in_any (ip.ip_address s) networks

  unfoldable pub ip_in_nets : Text → List Network → Bool
  unfolding in_any
  ip_in_nets s nets = if is_empty nets then false else in_any (ip.ip_address s) nets

  -- The loops that skip what is no network.
  unfoldable pub parse_nets : List Text → List Network
  parse_nets [] = []
  parse_nets (entry ∷ rest) =
      let nets = parse_nets rest in
      elim (ip.ip_network entry) [ none ↦ nets | some net ↦ net ∷ nets ]

  unfoldable pub load_our_ips : Option ReadText → List Text → Option (List Network)
  load_our_ips read extra = elim (path_entries read) [
    | none ↦ none
    | some raw ↦ some (parse_nets (raw ++ extra))
  ]

  unfoldable pub load_research_cidrs : Option ReadText → Option (List Network)
  load_research_cidrs read = elim (path_entries read) [
    | none ↦ none
    | some raw ↦ some (parse_nets raw)
  ]

  bucket_loop : List (Text × ℕ) → ℕ × ℕ × ℕ → ℕ × ℕ × ℕ
  bucket_loop [] counts = counts
  bucket_loop ((s, n) ∷ rest) counts = bucket_loop rest (add_version (ip_version s) n counts)

  unfoldable pub bucket_v4_v6 : List (Text × ℕ) → ℕ × ℕ × ℕ
  unfolding bucket_loop
  bucket_v4_v6 ips = bucket_loop ips (0, 0, 0)
