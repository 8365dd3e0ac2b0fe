-- ===== src/Tcp.antt =====
-- honey_ns.py, the TCP listener: `handle_tcp`, one connection.
--
-- What the reader and the writer do in each round of the loop is an argument. An exception that
-- escapes is part of the connection's final state; closing the writer changes nothing here. The
-- ids, addresses, times and header fields of an event are left out.
pub mod Books
pub mod Rounds
use honeycow.Prelude.{
  ℕ, zero, suc, ◌+◌, ◌*◌, ◌/◌, ◌%◌, max, Bool, true, false, ◌||◌, Option, none, some, List, [], ◌∷◌,
  ◌++◌, String, length, ltb, ◌==◌, if◌then◌else◌, is_empty, Exception, overflow_error,
  connection_error, Result, ok, raise, ◌>>=◌,
}
use honeycow.Base
use honeycow.Base.{tcp_max}
use honeycow.Budget
use honeycow.Budget.{OutboundBudget}
use honeycow.Dispatch.Handlers.{Handler}
use honeycow.Dns.{Message}
use honeycow.Udp.{Decision}
use honeycow.Wire.{Site, Handled, tcp, unpack, serialize, handle_wire}

abbrev pub tcp_query_max_bytes : ℕ
tcp_query_max_bytes = 4096

-- `readexactly`: the bytes, a timeout, the end of the stream after some bytes, or a lost connection.
pub data Read : Type 0 where
  bytes : List ℕ → Read
  timeout : Read
  incomplete : List ℕ → Read
  lost : Read

-- The first read asks for two bytes and gets them, the second as many as these say.
--
-- One round: the two reads, whether writing fails, and the seconds at which the budget is asked.
pub record Round : Type 0 where
  pub prefix : Read
  pub body : Read
  pub write_fails : Bool
  pub charge_at : ℕ
  pub force_at : ℕ

-- The texts of `drop_reason`.
pub data DropReason : Type 0 where
  no_reason : DropReason
  bad_length_prefix : ℕ → DropReason
  read_timeout read_incomplete : DropReason
  kind : String → DropReason

pub record Event (Name : Type 0) : Type 0 where
  pub raw_len : ℕ
  pub query : Option (Message Name)
  pub response : Option (Message Name)
  pub response_kind : String
  pub response_bytes : ℕ
  pub truncated : Bool
  pub handler : Option Handler
  pub decision : Decision
  pub drop_reason : DropReason

pub record Connection (Name : Type 0) : Type 0 where
  pub budget : OutboundBudget
  pub responses_sent : ℕ
  pub sent : List (List ℕ)
  pub logged : List (Event Name)
  pub raised : Option Exception

-- The end of a round: the loop goes on, or the connection is closed.
pub data Next (Name : Type 0) : Type 0 where
  go_on close : Connection Name → Next Name

-- `len(wire).to_bytes(2, "big")` and the wire.
unfoldable pub frame : List ℕ → Result (List ℕ)
frame wire =
    if ltb 65535 (length wire)
    then raise overflow_error
    else ok ((length wire / 256) ∷ (length wire % 256) ∷ wire)

module _ {Name : Type 0} where
  -- A drop of something that did not become a query.
  unfoldable pub drop_unread : ℕ → DropReason → Connection Name → Next Name
  drop_unread raw_len reason c = close (record c {
    logged =
        c.logged
        ++ record {
          raw_len = raw_len;
          query = none;
          response = none;
          response_kind = "DROPPED";
          response_bytes = 0;
          truncated = false;
          handler = none;
          decision = Decision.drop;
          drop_reason = reason;
        }
          ∷ [];
  })

  unfoldable pub drop_empty : ℕ → Handled Name → Connection Name → Next Name
  drop_empty raw_len r c = close (record c {
    logged =
        c.logged
        ++ record {
          raw_len = raw_len;
          query = r.query;
          response = r.response;
          response_kind = r.kind;
          response_bytes = 0;
          truncated = false;
          handler = some r.handler;
          decision = Decision.drop;
          drop_reason = DropReason.kind r.kind;
        }
          ∷ [];
  })

  unfoldable pub crash : Exception → Connection Name → Next Name
  crash e c = close (record c { raised = some e })

  -- The two `except` clauses of the reads.
  unfoldable pub read_failed : Read → Connection Name → Next Name
  unfolding drop_unread crash
  read_failed (bytes d) c = close c
  read_failed timeout c =
      if ltb 0 c.responses_sent then close c else drop_unread 0 DropReason.read_timeout c
  read_failed (incomplete partial) c =
      if is_empty partial
      then close c
      else drop_unread (length partial) DropReason.read_incomplete c
  read_failed lost c = crash connection_error c

  unfoldable pub written : ℕ → Handled Name → Connection Name → Result (List ℕ) → Next Name
  unfolding crash
  written raw_len r c (raise e) = crash e c
  written raw_len r c (ok framed) = go_on (record c {
    responses_sent = c.responses_sent + 1;
    sent = c.sent ++ framed ∷ [];
    logged =
        c.logged
        ++ record {
          raw_len = raw_len;
          query = r.query;
          response = r.response;
          response_kind = r.kind;
          response_bytes = length r.wire;
          truncated = r.truncated;
          handler = some r.handler;
          decision = Decision.respond;
          drop_reason = DropReason.no_reason;
        }
          ∷ [];
  })

  -- The writes, which an `OSError` ends.
  unfoldable pub write : Bool → ℕ → Handled Name → Connection Name → Next Name
  unfolding written
  write true raw_len r c = close c
  write false raw_len r c = written raw_len r c (frame r.wire)

  unfoldable pub proceed : (Connection Name → Connection Name) → Next Name → Connection Name
  proceed rest (go_on c) = rest c
  proceed rest (close c) = c

module _ {Name : Type 0} (site : Site Name) where
  open site use {dns as d}

  -- REFUSED in place of the answer.
  unfoldable pub refusal : Message Name → Handled Name → Result (Handled Name)
  refusal query r = do
    (wire, _, response) ← serialize d (Base.refused d query) tcp
    ok (record r {
      wire = wire;
      kind = d.rcode_to_text (d.rcode response);
      response = some response;
      handler = Handler.budget_exhausted;
    })

  unfoldable pub write_refusal : Round → ℕ → Connection Name → Result (Handled Name) → Next Name
  write_refusal round raw_len c (raise e) = crash e c
  write_refusal round raw_len c (ok r) =
      write round.write_fails raw_len r
        (record c { budget = Budget.force_charge round.force_at (length r.wire) c.budget })

  -- Behind `try_charge`.
  unfoldable pub charged :
      Round → ℕ → Message Name → Handled Name → Connection Name → OutboundBudget × Bool → Next Name
  charged round raw_len query r c (budget, true) =
      write round.write_fails raw_len r (record c { budget = budget })
  charged round raw_len query r c (budget, false) =
      write_refusal round raw_len (record c { budget = budget }) (refusal query r)

  -- `if query is not None and not OUTBOUND_BUDGET.try_charge(len(wire))`
  unfoldable pub check_budget :
      Round → ℕ → Handled Name → Connection Name → Option (Message Name) → Next Name
  check_budget round raw_len r c none = write round.write_fails raw_len r c
  check_budget round raw_len r c (some query) =
      charged round raw_len query r c (Budget.try_charge round.charge_at (length r.wire) c.budget)

  unfoldable pub answer : Round → ℕ → Connection Name → Result (Handled Name) → Next Name
  answer round raw_len c (raise e) = crash e c
  answer round raw_len c (ok r) =
      if is_empty r.wire then drop_empty raw_len r c else check_budget round raw_len r c r.query

  -- Behind the second read.
  unfoldable pub read_body : Round → String → Connection Name → Read → Next Name
  read_body round src_ip c (bytes d) = answer round (length d) c (handle_wire site d tcp src_ip)
  read_body round src_ip c other = read_failed other c

  unfoldable pub read_prefix : Round → String → Connection Name → Read → Next Name
  read_prefix round src_ip c (bytes (high ∷ low ∷ [])) =
      let n = unpack high low in
      if n == 0 || ltb tcp_query_max_bytes n
      then drop_unread n (DropReason.bad_length_prefix n) c
      else read_body round src_ip c round.body
  read_prefix round src_ip c other = read_failed other c

  -- The loop, with the rounds that are left.
  unfoldable pub tcp_loop : ℕ → (ℕ → Round) → String → Connection Name → Connection Name
  unfolding proceed
  tcp_loop zero rounds src_ip c = c
  tcp_loop (suc n) rounds src_ip c =
      proceed (λ c'. tcp_loop n rounds src_ip c')
        (read_prefix (rounds n) src_ip c (rounds n).prefix)

  unfoldable pub handle_tcp : ℕ → (ℕ → Round) → String → OutboundBudget → Connection Name
  unfolding tcp_loop
  handle_tcp max_queries_per_conn rounds src_ip budget =
      tcp_loop (max 1 max_queries_per_conn) rounds src_ip
        (record { budget = budget; responses_sent = 0; sent = []; logged = []; raised = none })
