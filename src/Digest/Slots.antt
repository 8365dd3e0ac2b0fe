-- ===== src/Digest/Slots.antt =====
-- The slots of `by_src` in tools/honeycow_digest.py, what a digest counts for one source, and the
-- loops of `summarize_window` that fill them.
--
-- `by_src[ip]` of a source that is new is an empty slot; changing the slot in place is `put`.
use honeycow.Prelude.{
  ℕ, ◌+◌, Option, none, some, List, [], ◌∷◌, ◌++◌, Text, codes, is_empty, if◌then◌else◌,
  Text_discrete, lower, text_lt,
}
use honeycow.Dict.{get, put, bump}
use honeycow.Digest.{Event, Ufw, or_default}
use honeycow.Digest.Classify.{Family, Org, classify_query}

unfoldable pub Family-discrete : Discrete Family
Family-discrete = hlevel

unfoldable pub Org-discrete : Discrete Org
Org-discrete = hlevel

unfoldable pub Option_text_discrete : Discrete (Option Text)
unfolding Text_discrete
Option_text_discrete = hlevel Text_discrete

abbrev pub Counter : Type 0 → Type 0
Counter K = List (K × ℕ)

pub record Slot : Type 0 where
  pub dns : ℕ
  pub http : ℕ
  pub ufw : ℕ
  pub qtypes : Counter Text
  pub qclasses : Counter Text
  pub families : Counter Family
  pub handlers : Counter Text
  pub ufw_ports : Counter Text
  pub first : Option Text
  pub last : Option Text

abbrev pub new_slot : Slot
new_slot = record {
  dns = 0;
  http = 0;
  ufw = 0;
  qtypes = [];
  qclasses = [];
  families = [];
  handlers = [];
  ufw_ports = [];
  first = none;
  last = none;
}

-- `_slot`
abbrev pub slot : Text → List (Text × Slot) → Slot
slot s by_src = or_default (get Text_discrete s by_src) new_slot

unfoldable pub earlier : Text → Option Text → Option Text
earlier ts none = some ts
earlier ts (some first) = if text_lt ts first then some ts else some first

unfoldable pub later : Text → Option Text → Option Text
later ts none = some ts
later ts (some last) = if text_lt last ts then some ts else some last

-- `_stamp`
unfoldable pub stamp : Option Text → Slot → Slot
stamp none s = s
stamp (some ts) s =
    if is_empty ts then s else record s { first = earlier ts s.first; last = later ts s.last }

-- A counter of texts that skips a missing or empty one.
unfoldable pub bump_present : Option Text → Counter Text → Counter Text
bump_present none c = c
bump_present (some t) c = if is_empty t then c else bump Text_discrete t 1 c

unfoldable pub dns_slot : Event → Slot → Slot
dns_slot e s = stamp e.ts (record s {
  dns = s.dns + 1;
  qtypes = bump Text_discrete (or_default e.qtype_name (codes "?")) 1 s.qtypes;
  qclasses = bump Text_discrete (or_default e.qclass_name (codes "?")) 1 s.qclasses;
  families = bump Family-discrete (classify_query e) 1 s.families;
  handlers = bump_present e.handler s.handlers;
})

-- The loop over `ext`.
unfoldable pub ext_loop :
    List Event → List (Text × Slot) × Counter Family → List (Text × Slot) × Counter Family
ext_loop [] acc = acc
ext_loop (e ∷ rest) (by_src, families) = ext_loop rest (
  put Text_discrete e.src_ip (dns_slot e (slot e.src_ip by_src)) by_src,
  bump Family-discrete (classify_query e) 1 families,
)

-- `e.get("client_ip") or e.get("src_ip")`
unfoldable pub http_ip : Event → Text
http_ip e = if is_empty (or_default e.client_ip []) then e.src_ip else or_default e.client_ip []

unfoldable pub http_loop : List Event → List (Text × Slot) → List (Text × Slot)
http_loop [] by_src = by_src
http_loop (e ∷ rest) by_src =
    let s = slot (http_ip e) by_src in
    http_loop rest
      (put Text_discrete (http_ip e) (stamp e.ts (record s { http = s.http + 1 })) by_src)

-- The port that a firewall line names, if it names one: `tcp/23`.
unfoldable pub ufw_port : Ufw → Option Text
ufw_port u =
    if is_empty (or_default u.dpt [])
    then none
    else some (lower u.proto ++ (codes "/" ++ or_default u.dpt []))

unfoldable pub ufw_loop : List Ufw → List (Text × Slot) → List (Text × Slot)
ufw_loop [] by_src = by_src
ufw_loop (u ∷ rest) by_src =
    let s = slot u.src by_src in
    ufw_loop rest (
      put Text_discrete u.src
        (record s { ufw = s.ufw + 1; ufw_ports = bump_present (ufw_port u) s.ufw_ports }) by_src)
