-- ===== src/Serve.antt =====
-- honey_ns.py: the admission of TCP connections by `serve`, and the SIGHUP handler of `main`.
--
-- The event loop runs one of these at a time, each up to its first wait: a connection that is let in
-- holds the semaphore until `handle_tcp` returns or raises. A connection is a number. What the
-- connections do otherwise is in Tcp; binding sockets and the shutdown are left out.
pub mod Admission
pub mod Lists
use honeycow.Prelude.{
  ℕ, ◌+◌, ◌-◌, Bool, true, false, Option, none, some, List, [], ◌∷◌, ◌++◌, String, Text, ◌==◌,
  if◌then◌else◌,
}
use honeycow.Exemptions
use honeycow.Exemptions.{ExemptionList, ReadText, Loaded, counts, raised}
use honeycow.SourceExemptions
use honeycow.SourceExemptions.{SourceExemptionList, Network}

pub record Server (Name : Type 0) : Type 0 where
  pub exemptions : ExemptionList Name
  pub source_exemptions : SourceExemptionList
  pub sem : ℕ  -- the free places of the semaphore
  pub handling : List ℕ
  pub refused : List ℕ

-- `sem.locked()`; no one waits for the semaphore, since only an unlocked one is entered.
unfoldable pub locked : ℕ → Bool
locked sem = sem == 0

module _ {Name : Type 0} where
  unfoldable pub refuse : ℕ → Server Name → Server Name
  refuse conn s = record s { refused = s.refused ++ conn ∷ [] }

  unfoldable pub enter : ℕ → Server Name → Server Name
  enter conn s = record s { sem = s.sem - 1; handling = s.handling ++ conn ∷ [] }

  -- `tcp_dispatch` up to its first wait.
  unfoldable pub tcp_dispatch : ℕ → Server Name → Server Name
  unfolding locked refuse enter
  tcp_dispatch conn s = if locked s.sem then refuse conn s else enter conn s

module _ {Name : Type 0} (from_text : Text → Option Name) (dec : Discrete Name)
    (ip_network : Text → Option Network) (read_text : String → ReadText) where
  unfoldable pub after_sources : Loaded SourceExemptionList → Server Name → Server Name
  after_sources (counts l old new) s = record s { source_exemptions = l }
  after_sources (raised l) s = record s { source_exemptions = l }

  -- The second half of `_sighup`.
  unfoldable pub reload_sources : Option String → Server Name → Server Name
  unfolding after_sources
  reload_sources none s = s
  reload_sources (some path) s =
      after_sources (SourceExemptions.load ip_network read_text s.source_exemptions) s

  -- An exception of the first load leaves the handler.
  unfoldable pub after_names : Loaded (ExemptionList Name) → Server Name → Server Name
  unfolding reload_sources
  after_names (counts l old new) s =
      reload_sources s.source_exemptions.path (record s { exemptions = l })
  after_names (raised l) s = record s { exemptions = l }

  unfoldable pub reload_names : Option String → Server Name → Server Name
  unfolding after_names
  reload_names none s = reload_sources s.source_exemptions.path s
  reload_names (some path) s = after_names (Exemptions.load from_text dec read_text s.exemptions) s

  unfoldable pub sighup : Server Name → Server Name
  unfolding reload_names
  sighup s = reload_names s.exemptions.path s

-- `asyncio.Semaphore(max_conns)`: the server before its first connection.
unfoldable pub serve : {Name : Type 0} → ℕ → ExemptionList Name → SourceExemptionList → Server Name
serve max_conns names sources = record {
  exemptions = names;
  source_exemptions = sources;
  sem = max_conns;
  handling = [];
  refused = [];
}

module _ {Name : Type 0} (from_text : Text → Option Name) (dec : Discrete Name)
    (ip_network : Text → Option Network) (is_file : String → Bool)
    (read_text : String → ReadText) where
  -- The lists that `main` starts with; `__init__` loads a list that has a path.
  unfoldable pub first_names : String → Loaded (ExemptionList Name)
  first_names path =
      if is_file path
      then Exemptions.load from_text dec read_text (record { path = some path; exempt = [] })
      else counts (record { path = none; exempt = [] }) 0 0

  unfoldable pub first_sources : String → Loaded SourceExemptionList
  first_sources path =
      if is_file path
      then SourceExemptions.load ip_network read_text
          (record { path = some path; v4 = []; v6 = [] })
      else counts (record { path = none; v4 = []; v6 = [] }) 0 0

  unfoldable pub serve_loaded :
      ℕ → Loaded (ExemptionList Name) → Loaded SourceExemptionList → Option (Server Name)
  unfolding serve
  serve_loaded max_conns (counts names old new) (counts sources old' new') =
      some (serve max_conns names sources)
  serve_loaded max_conns (counts names old new) (raised sources) = none
  serve_loaded max_conns (raised names) sources = none

  -- `main` from the settings to `serve`; none where an exception of a load leaves it.
  unfoldable pub main : ℕ → String → String → Option (Server Name)
  unfolding first_names first_sources serve_loaded
  main max_conns exemption_path source_exemption_path =
      serve_loaded max_conns (first_names exemption_path) (first_sources source_exemption_path)

-- What a server does: a connection arrives or ends, or a signal has the lists read again.
pub data Step {Name : Type 0} (from_text : Text → Option Name) (dec : Discrete Name)
    (ip_network : Text → Option Network) : Server Name → Server Name → Type 0 where
  arrive : (conn : ℕ) (s : Server Name) → Step from_text dec ip_network s (tcp_dispatch conn s)
  finish :
      (conn : ℕ) (before after : List ℕ) (s : Server Name)
      → Step from_text dec ip_network
          (record s { handling = before ++ conn ∷ after })
          (record s { sem = s.sem + 1; handling = before ++ after })
  hang_up :
      (read_text : String → ReadText) (s : Server Name)
      → Step from_text dec ip_network s (sighup from_text dec ip_network read_text s)

module _ {Name : Type 0} (from_text : Text → Option Name) (dec : Discrete Name)
    (ip_network : Text → Option Network) where
  pub data Reach (start : Server Name) : Server Name → Type 0 where
    here : Reach start start
    next : {s t : Server Name} → Reach start s → Step from_text dec ip_network s t → Reach start t
