-- ===== src/SourceExemptions.antt =====
-- squatter/source_exemptions.py: `SourceExemptionList`, the source ranges that are refused.
--
-- Parsing by `ipaddress.ip_network(line, strict=False)` and `ipaddress.ip_address` is a parameter
-- (`none` is a `ValueError`); membership of an address in a network is written out. Lines are
-- cleaned as in squatter/exemptions.py.
pub mod Coverage
use honeycow.Prelude.{
  ℕ, ◌+◌, ◌-◌, ◌*◌, ◌/◌, ◌^◌, Bool, true, false, ◌&&◌, Option, none, some, List, [], ◌∷◌, ◌++◌,
  String, Text, length, any, is_empty, same_string, ◌==◌, if◌then◌else◌, splitlines,
}
use honeycow.Exemptions.{
  ReadText, contents, os_error, decode_error, Loaded, counts, raised, clean_line,
}

-- `IPv4Address` and `IPv6Address`, by their numbers.
pub data Address : Type 0 where
  v4 v6 : ℕ → Address

-- `IPv4Network` and `IPv6Network`: the network address and the prefix length.
pub data Network : Type 0 where
  v4 v6 : ℕ → ℕ → Network

-- `ip & netmask == network_address`, with a netmask of `prefix` ones in `bits` digits.
unfoldable pub in_network : ℕ → ℕ → ℕ × ℕ → Bool
in_network bits ip (net, prefix) = ip / 2 ^ (bits - prefix) * 2 ^ (bits - prefix) == net

pub record SourceExemptionList : Type 0 where
  pub path : Option String
  pub v4 : List (ℕ × ℕ)
  pub v6 : List (ℕ × ℕ)

-- `__len__`
unfoldable pub entry_count : SourceExemptionList → ℕ
entry_count l = length l.v4 + length l.v6

-- The `isinstance` test of the loop: the network goes to the list of its version.
unfoldable pub append_net : Network → List (ℕ × ℕ) × List (ℕ × ℕ) → List (ℕ × ℕ) × List (ℕ × ℕ)
append_net (Network.v4 net prefix) (new_v4, new_v6) = (new_v4 ++ (net, prefix) ∷ [], new_v6)
append_net (Network.v6 net prefix) (new_v4, new_v6) = (new_v4, new_v6 ++ (net, prefix) ∷ [])

module _ (ip_network : Text → Option Network) where
  -- The loop of `load`; `none` is the early return at a line that is no network.
  unfoldable pub load_loop :
      List Text → List (ℕ × ℕ) × List (ℕ × ℕ) → Option (List (ℕ × ℕ) × List (ℕ × ℕ))
  load_loop [] nets = some nets
  load_loop (raw_line ∷ rest) nets =
      let skipped = load_loop rest nets in
      if is_empty (clean_line raw_line) then skipped else elim (ip_network (clean_line raw_line)) [
        | none ↦ none
        | some net ↦ load_loop rest (append_net net nets)
      ]

  unfoldable pub reload :
      SourceExemptionList → Option (List (ℕ × ℕ) × List (ℕ × ℕ)) → Loaded SourceExemptionList
  unfolding entry_count
  reload l none = counts l (entry_count l) (entry_count l)
  reload l (some (new_v4, new_v6)) =
      let l' = record l { v4 = new_v4; v6 = new_v6 } in counts l' (entry_count l) (entry_count l')

  unfoldable pub load_text : SourceExemptionList → ReadText → Loaded SourceExemptionList
  load_text l (contents text) = reload l (load_loop (splitlines text) ([], []))
  load_text l os_error = counts l (entry_count l) (entry_count l)
  load_text l decode_error = raised l

  -- `if self.path is None`
  unfoldable pub load_path :
      (String → ReadText) → SourceExemptionList → Option String → Loaded SourceExemptionList
  load_path read_text l none = counts l (entry_count l) (entry_count l)
  load_path read_text l (some path) = load_text l (read_text path)

  unfoldable pub load : (String → ReadText) → SourceExemptionList → Loaded SourceExemptionList
  load read_text l = load_path read_text l l.path

-- The `isinstance` test of `is_exempt`, behind the parse of the address.
unfoldable pub address_exempt : SourceExemptionList → Option Address → Bool
address_exempt l none = false
address_exempt l (some (Address.v4 ip)) = any l.v4 (in_network 32 ip)
address_exempt l (some (Address.v6 ip)) = any l.v6 (in_network 128 ip)

unfoldable pub is_exempt : (String → Option Address) → SourceExemptionList → String → Bool
is_exempt ip_address l src_ip =
    if same_string src_ip ""
    then false
    else if is_empty l.v4 && is_empty l.v6
    then false
    else address_exempt l (ip_address src_ip)
