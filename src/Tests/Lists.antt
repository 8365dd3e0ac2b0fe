-- ===== src/Tests/Lists.antt =====
-- The two exemption lists at concrete files.
use Prim.Native.String.{String}
use honeycow.Prelude.{
  ◌≡◌, refl, Option, some, [], ◌∷◌, codes, Text, strip, before, splitlines, ends_with,
  Text_discrete,
}
use honeycow.Exemptions
use honeycow.Exemptions.{ExemptionList, ReadText, contents}
use honeycow.Exemptions.Coverage
use honeycow.Exemptions.Coverage.{current, is_exempt-load}
use honeycow.SourceExemptions
use honeycow.SourceExemptions.{SourceExemptionList, Address, Network}
use honeycow.SourceExemptions.Coverage as Networks
use honeycow.Tests.Toy.{toy, toy-Laws}

program : Unit {0}
unfolding strip before splitlines ends_with Exemptions.clean_line Exemptions.absolute
    Exemptions.is_member Exemptions.add_name Exemptions.load_loop Exemptions.reload
    Exemptions.load_text Exemptions.load_path Exemptions.load Exemptions.is_exempt Text_discrete
program = tt

abbrev file : String → ReadText
file path = contents (codes "# zones\n example.com # the first\n\nexample.net.\n")

abbrev before_load : ExemptionList Text
before_load = record { path = some "exemptions.txt"; exempt = [] }

loaded :
    (current (Exemptions.load toy.from_text toy.name_discrete file before_load)).exempt
    ≡ codes "example.com." ∷ codes "example.net." ∷ []
unfolding program
loaded = refl

is_exempt-load_example :
    Exemptions.is_exempt toy.name_discrete toy.is_subdomain
      (current (Exemptions.load toy.from_text toy.name_discrete file before_load))
      (codes "www.example.com.")
    ≡ Coverage.exempt_after toy.from_text toy.name_discrete toy.is_subdomain
        toy-Laws.is_subdomain_refl
        (codes "www.example.com.")
        (Exemptions.is_exempt toy.name_discrete toy.is_subdomain before_load
          (codes "www.example.com."))
        file
        before_load.path
is_exempt-load_example =
    is_exempt-load toy.from_text toy.name_discrete toy.is_subdomain toy-Laws.is_subdomain_refl
      (codes "www.example.com.") file before_load

-- 192.0.2.0/24, whatever the text.
abbrev parse_network : Text → Option Network
parse_network line = some (Network.v4 0xc0000200 24)

abbrev parse_address : String → Option Address
parse_address src_ip = some (Address.v4 0xc0000207)

abbrev ranges : SourceExemptionList
ranges = record { path = some "source_exemptions.txt"; v4 = []; v6 = [] }

is_exempt-load_networks_example :
    SourceExemptions.is_exempt parse_address
      (current (SourceExemptions.load parse_network file ranges))
      "192.0.2.7"
    ≡ Networks.exempt_after parse_network parse_address "192.0.2.7"
        (SourceExemptions.is_exempt parse_address ranges "192.0.2.7")
        file
        ranges.path
is_exempt-load_networks_example =
    Networks.is_exempt-load_networks parse_network parse_address "192.0.2.7" file ranges
