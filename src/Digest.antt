-- ===== src/Digest.antt =====
-- tools/honeycow_digest.py: what the digest is made of.
--
-- An event is a JSON object; the record holds the keys that the tool reads, each missing or of the
-- type that the server writes. Labels, which the source spells as texts, are data types.
pub mod Classify
pub mod Sources
pub mod Slots
pub mod Window
pub mod Gains
pub mod Counters
pub mod CounterGains
pub mod Parts
pub mod Additive
pub mod Merge
pub mod Research
pub mod Organizations
pub mod Measures
pub mod Hourly
use mathlib.Core.HLevel.{×_discrete}
use honeycow.Prelude.{ℕ, Option, none, some, List, [], Text}

-- An event of the log; every event names its source.
pub record Event : Type 0 where
  pub event : Option Text
  pub ts : Option Text
  pub src_ip : Text
  pub src_port : Option ℕ
  pub client_ip : Option Text
  pub qname : Option Text
  pub qtype_name : Option Text
  pub qclass_name : Option Text
  pub opcode : Option Text
  pub flags : Option ℕ
  pub handler : Option Text
  pub response_kind : Option Text
  pub response_bytes : Option ℕ
  pub drop_reason : Option Text
  pub path : Option Text
  pub user_agent : Option Text

-- A line of the firewall's log, as `parse_ufw` reads it.
pub record Ufw : Type 0 where
  pub src : Text
  pub proto : Text
  pub dpt : Option Text

-- `event.get(key, default)`
abbrev pub or_default {ℓ} : {A : Type ℓ} → Option A → A → A
or_default none d = d
or_default (some a) d = a
