-- ===== src/Serve/Lists.antt =====
-- Where the two lists of a server of honey_ns.py come from.
use honeycow.Prelude.{ℕ, ◌≡◌, ◌⊎◌, Option, some, List, [], String, Text, splitlines}
use honeycow.Exemptions
use honeycow.Exemptions.{ExemptionList, ReadText, contents}
use honeycow.SourceExemptions
use honeycow.SourceExemptions.{SourceExemptionList, Network}
use honeycow.Serve.{Reach, here, next, Server, Step, arrive, finish, hang_up}

abbrev Nets : Type 0
Nets = List (ℕ × ℕ) × List (ℕ × ℕ)

abbrev pub nets : SourceExemptionList → Nets
nets l = (l.v4, l.v6)

module _ {Name : Type 0} (from_text : Text → Option Name) (dec : Discrete Name)
    (ip_network : Text → Option Network) where
  -- What one run of the handler keeps: what holds before it, and after each list that is read whole.
  module _ (read_text : String → ReadText) (P : ExemptionList Name → Type 0)
      (Q : SourceExemptionList → Type 0)
      (names_loaded : (l : ExemptionList Name) (path : String) (text : Text) (names : List Name)
        → P l
        → l.path ≡ some path
        → read_text path ≡ contents text
        → Exemptions.load_loop from_text dec (splitlines text) [] ≡ some names
        → P (record l { exempt = names }))
      (nets_loaded : (l : SourceExemptionList) (path : String) (text : Text) (v : Nets)
        → Q l
        → l.path ≡ some path
        → read_text path ≡ contents text
        → SourceExemptions.load_loop ip_network (splitlines text) ([], []) ≡ some v
        → Q (record l { v4 = v.0; v6 = v.1 })) where
    abbrev Keeps : Server Name → Type 0
    Keeps s = P s.exemptions × Q s.source_exemptions

  -- The path held the text when the step read it: a signal reads files, and nothing else does.
  abbrev pub IsRead :
      {s t : Server Name} → Step from_text dec ip_network s t → String → Text → Type 0
  IsRead (arrive conn s) path text = ⊥
  IsRead (finish conn before after s) path text = ⊥
  IsRead (hang_up read_text s) path text = read_text path ≡ contents text

  module _ (start : Server Name) where
    -- The path held the text at one of the signals.
    abbrev pub WasRead :
        {s : Server Name} → Reach from_text dec ip_network start s → String → Text → Type 0
    WasRead here path text = ⊥
    WasRead (next r step) path text = IsRead step path text ⊎ WasRead r path text

    -- The names are the first ones, or those of all the lines that the file of the list had at a signal.
    abbrev pub IsNames :
        {s : Server Name} → Reach from_text dec ip_network start s → ExemptionList Name → Type 0
    IsNames r l =
        (l.path ≡ start.exemptions.path)
        × ((l.exempt ≡ start.exemptions.exempt)
            ⊎ ((path : String) × (text : Text) × (l.path ≡ some path)
                × WasRead r path text
                × (Exemptions.load_loop from_text dec (splitlines text) [] ≡ some l.exempt)))

    -- The same of the networks.
    abbrev pub IsNets :
        {s : Server Name} → Reach from_text dec ip_network start s → SourceExemptionList → Type 0
    IsNets r l =
        (l.path ≡ start.source_exemptions.path)
        × ((nets l ≡ nets start.source_exemptions)
            ⊎ ((path : String) × (text : Text) × (l.path ≡ some path)
                × WasRead r path text
                × (SourceExemptions.load_loop ip_network (splitlines text) ([], [])
                    ≡ some (nets l))))

    abbrev HasLists :
        {s : Server Name} → Reach from_text dec ip_network start s → Server Name → Type 0
    HasLists r s = IsNames r s.exemptions × IsNets r s.source_exemptions
