-- ===== src/Serve/Admission.antt =====
-- How many connections a server of honey_ns.py handles at a time.
use honeycow.Prelude.{
  ℕ, ◌+◌, ◌≤◌, ◌<◌, ◌≡◌, refl, ap, Option, none, some, List, [], ◌∷◌, ◌++◌, String, Text, length,
  length-append, arith,
}
use honeycow.Exemptions
use honeycow.Exemptions.{
  ExemptionList, ReadText, contents, os_error, decode_error, Loaded, counts, raised,
}
use honeycow.SourceExemptions
use honeycow.SourceExemptions.{SourceExemptionList, Network}
use honeycow.Serve.{
  Reach, here, next, serve, Server, locked, refuse, enter, tcp_dispatch, after_sources,
  reload_sources, after_names, reload_names, sighup, Step, arrive, finish, hang_up,
}

module _ {Name : Type 0} where
  -- The semaphore's free places and the connections make up the limit.
  abbrev pub IsBalanced : ℕ → Server Name → Type 0
  IsBalanced max_conns s = length s.handling + s.sem ≡ max_conns

  tcp_dispatch-IsBalanced :
      (max_conns conn : ℕ) (s : Server Name)
      → IsBalanced max_conns s
      → IsBalanced max_conns (tcp_dispatch conn s)
  unfolding tcp_dispatch locked refuse enter
  tcp_dispatch-IsBalanced max_conns conn s b =
      ground (arith, b, length-append s.handling (conn ∷ []))

  finish-IsBalanced :
      (max_conns conn : ℕ) (before after : List ℕ) (s : Server Name)
      → IsBalanced max_conns (record s { handling = before ++ conn ∷ after })
      → IsBalanced max_conns (record s { sem = s.sem + 1; handling = before ++ after })
  finish-IsBalanced max_conns conn before after s b =
      omega (arith, b, length-append before (conn ∷ after), length-append before after)

  -- A signal leaves the connections as they are.
  abbrev IsSameTcp : Server Name → Server Name → Type 0
  IsSameTcp s t = (t.handling ≡ s.handling) × (t.sem ≡ s.sem)

module _ {Name : Type 0} (from_text : Text → Option Name) (dec : Discrete Name)
    (ip_network : Text → Option Network) where
  module _ (read_text : String → ReadText) where
    after_sources-same :
        (r : Loaded SourceExemptionList) (s : Server Name)
        → IsSameTcp s (after_sources from_text dec ip_network read_text r s)
    unfolding after_sources
    after_sources-same (counts l old new) s = (refl, refl)
    after_sources-same (raised l) s = (refl, refl)

    reload_sources-same :
        (path : Option String) (s : Server Name)
        → IsSameTcp s (reload_sources from_text dec ip_network read_text path s)
    unfolding reload_sources
    reload_sources-same none s = (refl, refl)
    reload_sources-same (some path) s =
        after_sources-same (SourceExemptions.load ip_network read_text s.source_exemptions) s

    after_names-same :
        (r : Loaded (ExemptionList Name)) (s : Server Name)
        → IsSameTcp s (after_names from_text dec ip_network read_text r s)
    unfolding after_names
    after_names-same (counts l old new) s =
        reload_sources-same s.source_exemptions.path (record s { exemptions = l })
    after_names-same (raised l) s = (refl, refl)

    reload_names-same :
        (path : Option String) (s : Server Name)
        → IsSameTcp s (reload_names from_text dec ip_network read_text path s)
    unfolding reload_names
    reload_names-same none s = reload_sources-same s.source_exemptions.path s
    reload_names-same (some path) s =
        after_names-same (Exemptions.load from_text dec read_text s.exemptions) s

    sighup-IsBalanced :
        (max_conns : ℕ) (s : Server Name)
        → IsBalanced max_conns s
        → IsBalanced max_conns (sighup from_text dec ip_network read_text s)
    unfolding sighup
    sighup-IsBalanced max_conns s b =
        let (same, sem) = reload_names-same s.exemptions.path s in
        omega (arith, b, ap length same, sem)

  Step-IsBalanced :
      (max_conns : ℕ) {s t : Server Name}
      → Step from_text dec ip_network s t
      → IsBalanced max_conns s
      → IsBalanced max_conns t
  Step-IsBalanced max_conns (arrive conn s) b = tcp_dispatch-IsBalanced max_conns conn s b
  Step-IsBalanced max_conns (finish conn before after s) b =
      finish-IsBalanced max_conns conn before after s b
  Step-IsBalanced max_conns (hang_up read_text s) b = sighup-IsBalanced read_text max_conns s b

  Reach-IsBalanced :
      (max_conns : ℕ) (start : Server Name) {s : Server Name}
      → IsBalanced max_conns start
      → Reach from_text dec ip_network start s
      → IsBalanced max_conns s
  Reach-IsBalanced max_conns start b here = b
  Reach-IsBalanced max_conns start b (next r step) =
      Step-IsBalanced max_conns step (Reach-IsBalanced max_conns start b r)

  -- A server, whatever it does, handles at most `max_conns` connections at a time. One that arrives is
  -- refused if it handles as many, and handled if it handles fewer.
  pub tcp_dispatch-Reach :
      (max_conns : ℕ) (names : ExemptionList Name) (sources : SourceExemptionList) (s : Server Name)
      → Reach from_text dec ip_network (serve max_conns names sources) s
      → (conn : ℕ)
      → (length s.handling ≤ max_conns)
        × (length s.handling ≡ max_conns → tcp_dispatch conn s ≡ refuse conn s)
        × (length s.handling < max_conns → tcp_dispatch conn s ≡ enter conn s)
  unfolding tcp_dispatch locked serve
  tcp_dispatch-Reach max_conns names sources s r conn =
      let b : IsBalanced max_conns s =
        Reach-IsBalanced max_conns (serve max_conns names sources) (omega arith) r in
      (omega (arith, b), λ full. ground (arith, b, full), λ room. ground (arith, b, room))
