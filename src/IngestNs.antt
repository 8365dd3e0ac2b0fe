-- ===== src/IngestNs.antt =====
-- tools/ingest_ns.py: the index of the nameservers' query logs; here a line and a file of a log.
--
-- Matching is `re`'s: the record `Patterns` is what the four expressions find in a line, by the
-- groups that the source reads. A log file is its name, the `size:mtime` of `stat` and the lines that
-- are read from it, up to its end or to an `OSError`.
pub mod Store
pub mod Host
pub mod Numbers
pub mod Copies
pub mod Days
pub mod Spans
pub mod Whole
pub mod Records
pub mod Truth
pub mod Seen
pub mod Again
use mathlib.Core.List.{reverse}
use honeycow.Prelude.{
  ℕ, ◌+◌, ◌/◌, ◌%◌, Bool, true, false, ◌||◌, Option, none, some, List, [], ◌∷◌, ◌++◌, Text, codes,
  take, if◌then◌else◌, same_text, lower, has_part, lstrip_code,
}

pub record Stamp : Type 0 where
  pub y : Text
  pub mon : Text
  pub d : Text
  pub hms : Text
  pub frac : Text

pub record Body : Type 0 where
  pub src : Text
  pub asked : Text
  pub qname : Text
  pub qclass : Text
  pub qtype : Text
  pub flags : Option Text

pub record PdnsBody : Type 0 where
  pub src : Text
  pub ecs : Option Text
  pub asked : Text
  pub qtype : Text
  pub do_bit : Text
  pub buf : Text
  pub cbuf : Option Text

pub record Patterns : Type 0 where
  pub file_ts : Text → Option Stamp
  pub syslog_ts : Text → Option Stamp
  pub body : Text → Option Body
  pub pdns_body : Text → Option PdnsBody

-- What `parse_line` returns, and the row with its host in front.
pub record Query : Type 0 where
  pub ts : Text
  pub day : Text
  pub src_ip : Text
  pub asked : Text
  pub qname : Text
  pub qclass : Text
  pub qtype : Text
  pub flags : Text

pub record Row : Type 0 where
  pub host : Text
  pub query : Query

pub record LogFile : Type 0 where
  pub name : Text
  pub fingerprint : Text
  pub lines : List Text

-- `MONTHS`, as the names from a number on.
abbrev pub months : List Text
months =
    codes "Jan"
    ∷ codes "Feb"
    ∷ codes "Mar"
    ∷ codes "Apr"
    ∷ codes "May"
    ∷ codes "Jun"
    ∷ codes "Jul"
    ∷ codes "Aug"
    ∷ codes "Sep"
    ∷ codes "Oct"
    ∷ codes "Nov"
    ∷ codes "Dec"
    ∷ []

unfoldable pub month : ℕ → List Text → Text → Option ℕ
month n [] mon = none
month n (name ∷ rest) mon = if same_text name mon then some n else month (n + 1) rest mon

-- `f"{n:02d}"` for a month.
unfoldable pub two_digits : ℕ → Text
two_digits n = (b'0' + n / 10) ∷ (b'0' + n % 10) ∷ []

unfoldable pub iso_day : Text → Text → Text → Text
iso_day y mo d = y ++ b'-' ∷ mo ++ b'-' ∷ d

-- `s.rstrip(".")`
unfoldable pub rstrip_dots : Text → Text
rstrip_dots s = reverse (lstrip_code b'.' (reverse s))

-- `o or text`
unfoldable pub or_text : Option Text → Text → Text
or_text none text = text
or_text (some []) text = text
or_text (some (c ∷ s)) text = c ∷ s

unfoldable pub ecs_flag : Option Text → Text
ecs_flag none = []
ecs_flag (some []) = []
ecs_flag (some (c ∷ s)) = codes " ecs=" ++ c ∷ s

unfoldable pub pdns_query : Text → Text → PdnsBody → Query
unfolding rstrip_dots
pdns_query ts day p = record {
  ts = ts;
  day = day;
  src_ip = p.src;
  asked = p.asked;
  qname = lower (rstrip_dots p.asked);
  qclass = [];
  qtype = p.qtype;
  flags = codes "do=" ++ p.do_bit ++ codes " bufsize=" ++ or_text p.cbuf p.buf ++ ecs_flag p.ecs;
}

unfoldable pub bind_query : Text → Text → Body → Query
unfolding rstrip_dots
bind_query ts day b = record {
  ts = ts;
  day = day;
  src_ip = b.src;
  asked = b.asked;
  qname = lower (rstrip_dots b.qname);
  qclass = b.qclass;
  qtype = b.qtype;
  flags = or_text b.flags [];
}

-- A line of `read_rows`, onto the rows and the number of lines that could not be parsed.
unfoldable pub add_line : Text → Option Query → List Row × ℕ → List Row × ℕ
add_line host none (rows, bad) = (rows, bad + 1)
add_line host (some q) (rows, bad) = (record { host = host; query = q } ∷ rows, bad)

module _ (re : Patterns) where
  unfoldable pub parse_body : Text → Text → Text → Text → Option Query
  parse_body day hms frac line = elim (re.body line) [
    | some b ↦ some (bind_query (day ++ b'T' ∷ hms ++ b'.' ∷ take 3 frac) day b)
    | none ↦ elim (re.pdns_body line) [
      | none ↦ none
      | some p ↦ some (pdns_query (day ++ b'T' ∷ hms ++ b'.' ∷ take 3 frac) day p)
    ]
  ]

  unfoldable pub parse_line : Text → Option Query
  unfolding parse_body
  parse_line line = elim (re.file_ts line) [
    | some m ↦ elim (month 1 months m.mon) [
      | none ↦ none
      | some n ↦ parse_body (iso_day m.y (two_digits n) m.d) m.hms m.frac line
    ]
    | none ↦ elim (re.syslog_ts line) [
      | none ↦ none
      | some m ↦ parse_body (iso_day m.y m.mon m.d) m.hms m.frac line
    ]
  ]

  unfoldable pub is_query_line : Text → Bool
  is_query_line line = has_part (codes " query: ") line || has_part (codes " wants '") line

  unfoldable pub read_lines : Text → List Text → List Row × ℕ
  unfolding parse_line is_query_line add_line
  read_lines host [] = ([], 0)
  read_lines host (line ∷ rest) =
      let r = read_lines host rest in
      if is_query_line line then add_line host (parse_line line) r else r

  unfoldable pub read_rows : Text → LogFile → List Row × ℕ
  unfolding read_lines
  read_rows host path = read_lines host path.lines
