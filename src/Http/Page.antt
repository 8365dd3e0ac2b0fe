-- ===== src/Http/Page.antt =====
-- honey_http.py: the page for a client, and the responses that carry it.
--
-- Decoding the template by UTF-8 with replacement is a parameter.
use honeycow.Prelude.{
  ℕ, suc, zero, ◌+◌, ◌-◌, true, false, List, [], ◌∷◌, ◌++◌, Text, codes, length, max, ◌==◌,
  if◌then◌else◌, starts_with, decimal,
}
use honeycow.Base.{encode}

-- `html.escape(s, quote=True)` of one character.
unfoldable pub escape_code : ℕ → Text
escape_code c =
    if c == b'&'
    then codes "&amp;"
    else if c == b'<'
    then codes "&lt;"
    else if c == b'>'
    then codes "&gt;"
    else if c == 34
    then codes "&quot;"
    else if c == 39
    then codes "&#x27;"
    else c ∷ []

unfoldable pub escape : Text → Text
unfolding escape_code
escape [] = []
escape (c ∷ s) = escape_code c ++ escape s

-- `c * n` of a character, and `s.ljust(width)`
unfoldable pub repeat : ℕ → ℕ → Text
repeat zero c = []
repeat (suc n) c = c ∷ repeat n c

unfoldable pub ljust : ℕ → Text → Text
unfolding repeat
ljust width s = s ++ repeat (width - length s) b' '

-- `"\n".join(lines)`
unfoldable pub join_lines : List Text → Text
join_lines [] = []
join_lines (line ∷ []) = line
join_lines (line ∷ next ∷ rest) = line ++ (10 ∷ join_lines (next ∷ rest))

-- `if len(lines) < 2` pads with empty lines.
unfoldable pub two_lines : List Text → List Text
two_lines [] = [] ∷ [] ∷ []
two_lines (line ∷ []) = line ∷ [] ∷ []
two_lines (line ∷ next ∷ rest) = line ∷ next ∷ rest

unfoldable pub max_length : List Text → ℕ
max_length [] = 0
max_length (line ∷ rest) = max (length line) (max_length rest)

-- The rows behind the first one: `|` at the sides, but for the last row.
unfoldable pub rows : ℕ → List Text → List Text
rows width [] = []
rows width (last ∷ []) = (codes "\\ " ++ (ljust width last ++ codes " /")) ∷ []
rows width (mid ∷ next ∷ rest) =
    (codes "| " ++ (ljust width mid ++ codes " |")) ∷ rows width (next ∷ rest)

unfoldable pub bubble : ℕ → List Text → List Text
bubble width [] = []
bubble width (first ∷ rest) = (codes "/ " ++ (ljust width first ++ codes " \\")) ∷ rows width rest

abbrev cow : List Text
cow =
    codes "        \\   ^__^"
    ∷ codes "         \\  (oo)\\_______"
    ∷ codes "            (__)\\       )\\/\\ "
    ∷ codes "                ||----w |"
    ∷ codes "                ||     ||"
    ∷ []

-- `_cowsay`
unfoldable pub cowsay : List Text → Text
unfolding two_lines max_length bubble join_lines
cowsay lines =
    let width = max_length (two_lines lines) in
    join_lines (
      (b' ' ∷ repeat (width + 2) b'_')
      ∷ (bubble width (two_lines lines) ++ ((b' ' ∷ repeat (width + 2) b'-') ∷ cow)))

-- `s.replace(old, new)` for an `old` that is not empty: how many characters of a match are left to
-- skip, and the rest.
replace_from : Text → Text → ℕ → Text → Text
replace_from old new skip [] = []
replace_from old new (suc skip) (c ∷ s) = replace_from old new skip s
replace_from old new zero (c ∷ s) = elim (starts_with old (c ∷ s)) [
  | true ↦ new ++ replace_from old new (length old - 1) s
  | false ↦ c ∷ replace_from old new 0 s
]

unfoldable pub replace : Text → Text → Text → Text
unfolding replace_from
replace old new s = replace_from old new 0 s

abbrev pub client_ip_placeholder : Text
client_ip_placeholder = codes "{client_ip}"

abbrev pub cowsay_placeholder : Text
cowsay_placeholder = codes "{cowsay_block}"

unfoldable pub render_body : (List ℕ → Text) → List ℕ → Text → List ℕ
unfolding cowsay replace escape
render_body decode template client_ip =
    let safe_ip = escape client_ip in
    let block = cowsay (codes "Welcome to the pasture!" ∷ safe_ip ∷ []) in
    encode
      (replace client_ip_placeholder safe_ip (replace cowsay_placeholder block (decode template)))

abbrev crlf : Text
crlf = 13 ∷ 10 ∷ []

-- Lines of a header, each closed by a line break.
abbrev pub header_block : List Text → Text
header_block [] = crlf
header_block (line ∷ rest) = line ++ (crlf ++ header_block rest)

-- `_build_response`
unfoldable pub build_response : List ℕ → List ℕ
build_response body =
    header_block (
      codes "HTTP/1.1 200 OK"
      ∷ (codes "Content-Length: " ++ decimal (length body))
      ∷ codes "Content-Type: text/html; charset=utf-8"
      ∷ codes "Cache-Control: no-store"
      ∷ codes "Connection: close"
      ∷ codes "Server: honeycow"
      ∷ [])
    ++ body

abbrev pub budget_exhausted_body : List ℕ
budget_exhausted_body = codes "honeycow: rate ceiling reached." ++ 10 ∷ []

unfoldable pub budget_exhausted_response : List ℕ
budget_exhausted_response =
    header_block (
      codes "HTTP/1.1 503 Service Unavailable"
      ∷ (codes "Content-Length: " ++ decimal (length budget_exhausted_body))
      ∷ codes "Content-Type: text/plain; charset=utf-8"
      ∷ codes "Cache-Control: no-store"
      ∷ codes "Connection: close"
      ∷ codes "Server: honeycow"
      ∷ [])
    ++ budget_exhausted_body
