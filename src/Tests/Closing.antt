-- ===== src/Tests/Closing.antt =====
-- The HTTP closer at concrete requests.
use honeycow.Prelude.{
  ℕ, ◌≡◌, refl, arith, true, false, none, some, List, [], ◌∷◌, ◌++◌, Text, codes, length, strip,
  before, lower, same_text, Text_discrete, ℕ_discrete, starts_with,
}
use honeycow.Budget.{OutboundBudget}
use honeycow.Budget.Window.{start}
use honeycow.Http
use honeycow.Http.Clean.{IsClean, parse_request-IsClean}
use honeycow.Http.Closer
use honeycow.Http.Closer.Charges.{IsCharged, handle-IsCharged}
use honeycow.Http.Page
use honeycow.Http.Spoof.{resolve_client_ip_lem}
use honeycow.Ip.{IpAddress}
use honeycow.SourceExemptions.{Address}

-- Every address parses, and is private.
abbrev ip : IpAddress
ip = record {
  ip_address = λ s. some (Address.v4 0);
  ip_network = λ s. none;
  is_private = λ a. true;
  is_loopback = λ a. false;
  is_link_local = λ a. false;
}

abbrev request : Text
request =
    codes "GET /a?b HTTP/1.1"
    ++ 13 ∷ 10 ∷ codes "Host: x"
    ++ 13 ∷ 10 ∷ codes "X-Forwarded-For: 6.6.6.6, 192.0.2.7"
    ++ 13 ∷ 10 ∷ 13 ∷ 10 ∷ []

program : Unit {0}
unfolding strip before lower same_text Text_discrete ℕ_discrete Http.split_lines Http.behind
    Http.has_code Http.request_line Http.header_line Http.header_lines Http.read_lines Http.is_kept
    Http.sanitize_header_value Http.parse_request Http.last_part Http.is_trusted_proxy
    Http.resolve_client_ip starts_with Page.replace Page.escape Page.cowsay Page.repeat Page.ljust
    Page.rows
program = tt

parsed_path : (Http.parse_request request).path ≡ codes "/a?b"
unfolding program
parsed_path = refl

parsed_xff : (Http.parse_request request).xff ≡ codes "6.6.6.6, 192.0.2.7"
unfolding program
parsed_xff = refl

rightmost :
    Http.resolve_client_ip ip (codes "10.0.0.1") (codes "6.6.6.6, 192.0.2.7") ≡ codes "192.0.2.7"
unfolding program
rightmost = refl

replaced : Page.replace (codes "{x}") (codes "12") (codes "a{x}{x}b{") ≡ codes "a1212b{"
unfolding program
replaced = refl

bubble_row : Page.ljust 3 (codes "a") ≡ codes "a  "
unfolding program
bubble_row = refl

parse_request-IsClean_example :
    let r = Http.parse_request request in
    IsClean 16 r.method
    × IsClean 512 r.path
    × IsClean 256 r.host
    × IsClean 512 r.ua
    × IsClean 256 r.xff
parse_request-IsClean_example = parse_request-IsClean request

resolve_client_ip_lem_example :
    (Http.resolve_client_ip ip
        (codes "10.0.0.1")
        (Http.sanitize_header_value (codes "6.6.6.6" ++ b',' ∷ codes "192.0.2.7") 256)
      ≡ Http.resolve_client_ip ip
          (codes "10.0.0.1")
          (Http.sanitize_header_value (codes "192.0.2.7") 256))
    × (Http.is_trusted_proxy ip (codes "10.0.0.1") ≡ false
        → (header : Text) → Http.resolve_client_ip ip (codes "10.0.0.1") header ≡ codes "10.0.0.1")
unfolding program
resolve_client_ip_lem_example =
    resolve_client_ip_lem ip (codes "10.0.0.1") (codes "6.6.6.6") (codes "192.0.2.7") (omega arith)
      refl

abbrev decode : List ℕ → Text
decode bytes = bytes

handle-IsCharged_example :
    let served =
      Closer.handle ip decode 5 6
        (record { body_template = codes "<p>{client_ip}"; budget = some (start 100 60).budget })
        (codes "10.0.0.1")
        (some request) in
    (b : OutboundBudget) × (served.closer.budget ≡ some b)
    × IsCharged (start 100 60) b (length served.response)
    × (served.logged.response_bytes ≡ length served.response)
handle-IsCharged_example =
    handle-IsCharged ip decode 5 6 (codes "<p>{client_ip}") (start 100 60) (codes "10.0.0.1")
      (some request)
