-- ===== src/Ingest/Ufw.antt =====
-- `ingest_ufw` of tools/ingest.py.
--
-- A packet is what `parse_ufw` makes of a line, with its time as text and as a number; the parsing is
-- outside, as is `int` of the digits of a port.
use honeycow.Prelude.{
  ℕ, ◌-◌, Bool, not, Option, none, some, List, [], ◌∷◌, ◌++◌, map, Text, codes, length, keep_if,
  if◌then◌else◌,
}
use honeycow.Ingest.{Python}
use honeycow.Ingest.Tables.{is_in, insert_rows}

pub record Packet (Real : Type 0) : Type 0 where
  pub isoformat : Text
  pub timestamp : Real
  pub src : Text
  pub dst : Text
  pub proto : Text
  pub dpt : Option Text
  pub verdict : Text

pub record UfwRow (Real : Type 0) : Type 0 where
  pub rowhash : Text
  pub ts : Text
  pub ts_epoch : Real
  pub src : Text
  pub dst : Text
  pub proto : Text
  pub dpt : Option ℕ
  pub verdict : Text

-- `"|".join(...)`
unfoldable pub join_fields : List Text → Text
join_fields [] = []
join_fields (x ∷ []) = x
join_fields (x ∷ y ∷ fields) = x ++ (codes "|" ++ join_fields (y ∷ fields))

-- `str(x)`
unfoldable pub str : Option Text → Text
str none = codes "None"
str (some t) = t

abbrev pub ufw_hash : {Real : Type 0} → UfwRow Real → Text
ufw_hash row = row.rowhash

-- What a run returns, and the table that it leaves.
pub record Stored (Real : Type 0) : Type 0 where
  pub ufw_seen : ℕ
  pub ufw_new : ℕ
  pub ufw : List (UfwRow Real)

module _ {Real : Type 0} (py : Python Real) (int : Text → Option ℕ) where
  unfoldable pub ufw_rowhash : Packet Real → Text
  unfolding join_fields str
  ufw_rowhash u =
      py.sha1 (join_fields (u.isoformat ∷ u.src ∷ u.dst ∷ u.proto ∷ str u.dpt ∷ u.verdict ∷ []))

  unfoldable pub port : Option Text → Option ℕ
  port none = none
  port (some digits) = int digits

  unfoldable pub ufw_row : Packet Real → UfwRow Real
  unfolding ufw_rowhash port
  ufw_row u = record {
    rowhash = ufw_rowhash u;
    ts = u.isoformat;
    ts_epoch = u.timestamp;
    src = u.src;
    dst = u.dst;
    proto = u.proto;
    dpt = port u.dpt;
    verdict = u.verdict;
  }

  -- The rows whose hash is not in the table yet, each by itself.
  unfoldable pub not_yet : List (UfwRow Real) → List (UfwRow Real) → List (UfwRow Real)
  not_yet table = keep_if (λ row. not (is_in (map ufw_hash table) row.rowhash))

  unfoldable pub ingest_ufw : Bool → List (UfwRow Real) → List (Packet Real) → Stored Real
  unfolding ufw_row not_yet insert_rows
  ingest_ufw dry_run table parsed =
      let rows = map ufw_row parsed in
      if dry_run
      then record { ufw_seen = length rows; ufw_new = length (not_yet table rows); ufw = table }
      else let stored = insert_rows ufw_hash rows table in
        record { ufw_seen = length rows; ufw_new = length stored - length table; ufw = stored }
