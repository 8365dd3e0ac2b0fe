-- ===== src/Tests/Settings.antt =====
-- The settings of squatter/base.py at a concrete value.
use honeycow.Prelude.{
  ◌≡◌, refl, [], ◌∷◌, Text, codes, Result, ok, strip, split, lstrip, is_space, ends_with, arith,
}
use honeycow.Base.Config.{with_dot, parse_ns_hosts, parse_ns_hosts_lem}

-- Every text is a name.
abbrev from_text : Text → Result Text
from_text t = ok t

parse_ns_hosts_lem_example :
    parse_ns_hosts from_text (codes "ns1.example.com, ,ns2.example.com.")
    ≡ ok (codes "ns1.example.com." ∷ codes "ns2.example.com." ∷ [])
unfolding with_dot strip split lstrip is_space ends_with
parse_ns_hosts_lem_example =
    parse_ns_hosts_lem from_text with_dot (codes "ns1.example.com, ,ns2.example.com.") (
      (λ dotted. absurd (ground (arith, dotted)), λ bare. refl),
      ((λ dotted. refl, λ bare. absurd (ground (arith, bare))), tt),
    )
