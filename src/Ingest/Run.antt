-- ===== src/Ingest/Run.antt =====
-- `main` of tools/ingest.py: a run over the logs that are given.
--
-- `--stats`, the schema and the printed line are left out; a database that does not exist has empty
-- tables.
use honeycow.Prelude.{ℕ, Bool, not, ◌&&◌, Option, none, some, List, [], Text, if◌then◌else◌}
use honeycow.Ingest.{Python}
use honeycow.Ingest.Tables.{Tables, Counts}
use honeycow.Ingest.Events.{ingest_events}
use honeycow.Ingest.Ufw.{Packet, UfwRow, ingest_ufw}

pub record Index (Real : Type 0) : Type 0 where
  pub tables : Tables Real
  pub ufw : List (UfwRow Real)

-- `--hours` as the time from which events count, `--rebuild` and `--dry-run`.
pub record Options (Real : Type 0) : Type 0 where
  pub since : Option Real
  pub rebuild : Bool
  pub dry_run : Bool

-- The counts of the logs that are given, and the index.
pub record Totals (Real : Type 0) : Type 0 where
  pub events : Option Counts
  pub packets : Option (ℕ × ℕ)
  pub index : Index Real

unfoldable pub opened : {Real : Type 0} → Options Real → Index Real → Index Real
opened args index =
    if args.rebuild && not args.dry_run
    then record { tables = record { dns = []; http = [] }; ufw = [] }
    else index

module _ {Real : Type 0} (py : Python Real) (int : Text → Option ℕ) where
  unfoldable pub add_packets : Bool → Option (List (Packet Real)) → Totals Real → Totals Real
  add_packets dry_run none t = t
  add_packets dry_run (some parsed) t =
      let s = ingest_ufw py int dry_run t.index.ufw parsed in
      record t { packets = some (s.ufw_seen, s.ufw_new); index = record t.index { ufw = s.ufw } }

  unfoldable pub add_events :
      Option Real → Bool → Option (Option (List Text)) → Totals Real → Totals Real
  add_events since dry_run none t = t
  add_events since dry_run (some file) t =
      let r = ingest_events py since dry_run t.index.tables file in
      record t { events = some r.counts; index = record t.index { tables = r.con } }

  -- The events' log, which may not exist, and the packets' log; none if neither is given.
  unfoldable pub totals :
      Options Real
      → Option (Option (List Text))
      → Option (List (Packet Real))
      → Index Real
      → Totals Real
  unfolding add_packets add_events
  totals args events ufw index = add_packets args.dry_run ufw (
      add_events args.since args.dry_run events
        (record { events = none; packets = none; index = index }))

  unfoldable pub ingest :
      Options Real
      → Option (Option (List Text))
      → Option (List (Packet Real))
      → Index Real
      → Option (Totals Real)
  unfolding totals opened
  ingest args none none index = none
  ingest args none (some parsed) index = some (totals args none (some parsed) (opened args index))
  ingest args (some file) ufw index = some (totals args (some file) ufw (opened args index))
