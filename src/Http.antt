-- ===== src/Http.antt =====
-- honey_http.py, the HTTP closer: reading a request, and whose address it comes from.
--
-- `data.decode("latin-1")` maps each byte to the code point of the same number, so a request is a
-- text. The parsers and address classes of ipaddress are parameters.
pub mod Page
pub mod Closer
pub mod Clean
pub mod Spoof
use honeycow.Prelude.{
  ℕ, Bool, true, false, not, ◌&&◌, ◌||◌, Option, none, some, List, [], ◌∷◌, ◌++◌, Text, codes,
  length, take, keep_if, is_empty, leb, ◌==◌, if◌then◌else◌, strip, lower, before, same_text,
}
use honeycow.Ip.{IpAddress}
use honeycow.SourceExemptions.{Address}

-- `c == "\t" or c >= " "`
unfoldable pub is_kept : ℕ → Bool
is_kept c = c == 9 || leb 32 c

unfoldable pub sanitize_header_value : Text → ℕ → Text
unfolding is_kept
sanitize_header_value value max_len = take max_len (keep_if is_kept value)

-- `text.split("\r\n")`: the line so far, and the rest.
split_lines_from : Text → Text → List Text
split_lines_from line [] = line ∷ []
split_lines_from line (c ∷ []) = (line ++ c ∷ []) ∷ []
split_lines_from line (c ∷ e ∷ s) = elim (c == 13 && e == 10) [
  | true ↦ line ∷ split_lines_from [] s
  | false ↦ split_lines_from (line ++ c ∷ []) (e ∷ s)
]

unfoldable pub split_lines : Text → List Text
unfolding split_lines_from
split_lines = split_lines_from []

-- What stands behind the first separator; nothing if there is none: `s.partition(sep)[2]`.
unfoldable pub behind : ℕ → Text → Text
behind sep [] = []
behind sep (c ∷ s) = if c == sep then s else behind sep s

unfoldable pub has_code : ℕ → Text → Bool
has_code sep [] = false
has_code sep (c ∷ s) = c == sep || has_code sep s

pub record Request : Type 0 where
  pub method : Text
  pub path : Text
  pub host : Text
  pub ua : Text
  pub xff : Text

abbrev pub no_request : Request
no_request = record { method = []; path = []; host = []; ua = []; xff = [] }

-- `req_line = lines[0].split(" ", 2)`: the first two of at least two parts.
unfoldable pub request_line : Text → Request → Request
request_line line r =
    if has_code b' ' line
    then record r { method = before b' ' line; path = before b' ' (behind b' ' line) }
    else r

-- One header line that is not empty.
unfoldable pub header_line : Text → Request → Request
header_line line r =
    let name = lower (strip (before b':' line)) in
    let value = strip (behind b':' line) in
    if same_text name (codes "host")
    then record r { host = value }
    else if same_text name (codes "user-agent")
    then record r { ua = value }
    else if same_text name (codes "x-forwarded-for")
    then record r { xff = value }
    else r

-- The header lines up to the first empty one.
unfoldable pub header_lines : List Text → Request → Request
header_lines [] r = r
header_lines (line ∷ rest) r =
    let more = header_lines rest (header_line line r) in if is_empty line then r else more

unfoldable pub read_lines : List Text → Request
read_lines [] = no_request
read_lines (first ∷ rest) = header_lines rest (request_line first no_request)

unfoldable pub parse_request : Text → Request
parse_request text =
    let r = read_lines (split_lines text) in
    record {
      method = sanitize_header_value r.method 16;
      path = sanitize_header_value r.path 512;
      host = sanitize_header_value r.host 256;
      ua = sanitize_header_value r.ua 512;
      xff = sanitize_header_value r.xff 256;
    }

-- `s.rsplit(sep, 1)[-1]`: what stands behind the last separator, or all.
last_part_from : ℕ → Text → Text → Text
last_part_from sep part [] = part
last_part_from sep part (c ∷ s) = last_part_from sep (if c == sep then [] else part ++ c ∷ []) s

unfoldable pub last_part : ℕ → Text → Text
unfolding last_part_from
last_part sep = last_part_from sep []

module _ (ip : IpAddress) where
  unfoldable pub is_trusted : Option Address → Bool
  is_trusted none = false
  is_trusted (some addr) = ip.is_private addr || ip.is_loopback addr || ip.is_link_local addr

  unfoldable pub is_trusted_proxy : Text → Bool
  unfolding is_trusted
  is_trusted_proxy s = is_trusted (ip.ip_address s)

  -- `ip_address(last)` in its `try`.
  unfoldable pub parsed_or : Text → Text → Option Address → Text
  parsed_or peer_ip last none = peer_ip
  parsed_or peer_ip last (some addr) = last

  unfoldable pub resolve_client_ip : Text → Text → Text
  unfolding parsed_or
  resolve_client_ip peer_ip xff =
      let last = strip (last_part b',' xff) in
      if is_empty xff || not (is_trusted_proxy peer_ip)
      then peer_ip
      else parsed_or peer_ip last (ip.ip_address last)
