-- ===== src/Udp.antt =====
-- honey_ns.py, the UDP listener: `UDPProtocol.datagram_received`.
--
-- A datagram changes the limiter and the budget, may be answered by one datagram and logs one event;
-- an exception that escapes the listener is part of the outcome, beside what it had changed by then.
-- The ids, addresses, times and header fields of an event are left out.
pub mod Accounts
use mathlib.Core.HLevel.{×_discrete}
use honeycow.Prelude.{
  ℕ, Bool, true, false, Option, none, some, List, [], ◌∷◌, String, length, ltb, if◌then◌else◌,
  Exception, attribute_error, Result, ok, raise, ◌>>=◌, String_discrete,
}
use honeycow.Base
use honeycow.Base.{udp_max}
use honeycow.Budget
use honeycow.Budget.{OutboundBudget}
use honeycow.Dispatch.Handlers.{Handler}
use honeycow.Dns.{Message}
use honeycow.RateLimiter
use honeycow.RateLimiter.{Limiter}
use honeycow.Wire.{Site, Handled, udp, serialize, handle_wire}

pub data Decision : Type 0 where
  respond drop : Decision

-- The arguments of `honey_logging.event` that say what became of a datagram.
pub record Event (Name : Type 0) : Type 0 where
  pub raw_len : ℕ
  pub query : Option (Message Name)
  pub response : Option (Message Name)
  pub response_kind : String
  pub response_bytes : ℕ
  pub truncated : Bool
  pub handler : Option Handler
  pub decision : Decision
  pub drop_reason : String
  pub rate_limited : Bool

-- The limiter of the protocol and `OUTBOUND_BUDGET`.
pub record Listener : Type 0 where
  pub limiter : Limiter (String × String)
  pub budget : OutboundBudget

-- What the clocks show where `allow`, `try_charge` and `force_charge` read them.
pub record Clock : Type 0 where
  pub allow_at : ℕ
  pub charge_at : ℕ
  pub force_at : ℕ

pub record Outcome (Name : Type 0) : Type 0 where
  pub listener : Listener
  pub sent : Option (List ℕ)
  pub logged : Option (Event Name)
  pub raised : Option Exception

unfoldable pub key_discrete : Discrete (String × String)
key_discrete = ×_discrete String_discrete String_discrete

module _ {Name : Type 0} where
  unfoldable pub drop_oversized : ℕ → Listener → Outcome Name
  drop_oversized raw_len l = record {
    listener = l;
    sent = none;
    logged = some (record {
      raw_len = raw_len;
      query = none;
      response = none;
      response_kind = "DROPPED";
      response_bytes = 0;
      truncated = false;
      handler = none;
      decision = Decision.drop;
      drop_reason = "oversized_datagram";
      rate_limited = false;
    });
    raised = none;
  }

  -- `if not wire`
  unfoldable pub drop_empty : ℕ → Listener → Handled Name → Outcome Name
  drop_empty raw_len l r = record {
    listener = l;
    sent = none;
    logged = some (record {
      raw_len = raw_len;
      query = r.query;
      response = r.response;
      response_kind = r.kind;
      response_bytes = 0;
      truncated = false;
      handler = some r.handler;
      decision = Decision.drop;
      drop_reason = r.kind;
      rate_limited = false;
    });
    raised = none;
  }

  unfoldable pub drop_limited : ℕ → Listener → Handled Name → Outcome Name
  drop_limited raw_len l r = record {
    listener = l;
    sent = none;
    logged = some (record {
      raw_len = raw_len;
      query = r.query;
      response = r.response;
      response_kind = r.kind;
      response_bytes = length r.wire;
      truncated = r.truncated;
      handler = some r.handler;
      decision = Decision.drop;
      drop_reason = "rate_limited";
      rate_limited = true;
    });
    raised = none;
  }

  -- `sendto` and the event of the answer.
  unfoldable pub answer : ℕ → Listener → Handled Name → Outcome Name
  answer raw_len l r = record {
    listener = l;
    sent = some r.wire;
    logged = some (record {
      raw_len = raw_len;
      query = r.query;
      response = r.response;
      response_kind = r.kind;
      response_bytes = length r.wire;
      truncated = r.truncated;
      handler = some r.handler;
      decision = Decision.respond;
      drop_reason = "";
      rate_limited = false;
    });
    raised = none;
  }

  unfoldable pub crash : Listener → Exception → Outcome Name
  crash l e = record { listener = l; sent = none; logged = none; raised = some e }

module _ {Name : Type 0} (site : Site Name) where
  open site use {dns as d}

  -- `base.tc_truncated(query)`, where `query` is None if the datagram did not parse.
  unfoldable pub truncated_or_raise : Option (Message Name) → Result (Message Name)
  truncated_or_raise none = raise attribute_error
  truncated_or_raise (some query) = ok (Base.tc_truncated d query)

  unfoldable pub substitute : Option (Message Name) → Result (Handled Name)
  substitute query = do
    response ← truncated_or_raise query
    (wire, _, response) ← serialize d response udp
    ok (record {
      wire = wire;
      kind = d.rcode_to_text (d.rcode response);
      truncated = true;
      query = query;
      response = some response;
      handler = Handler.budget_exhausted;
    })

  unfoldable pub answer_substitute : Clock → ℕ → Listener → Result (Handled Name) → Outcome Name
  answer_substitute c raw_len l (raise e) = crash l e
  answer_substitute c raw_len l (ok r) =
      answer raw_len (record l { budget = Budget.force_charge c.force_at (length r.wire) l.budget })
        r

  -- Behind `try_charge`.
  unfoldable pub charged :
      Clock → ℕ → Limiter (String × String) → Handled Name → OutboundBudget × Bool → Outcome Name
  charged c raw_len limiter r (budget, true) =
      answer raw_len (record { limiter = limiter; budget = budget }) r
  charged c raw_len limiter r (budget, false) =
      answer_substitute c raw_len (record { limiter = limiter; budget = budget })
        (substitute r.query)

  -- Behind `allow`.
  unfoldable pub limited :
      Clock → ℕ → OutboundBudget → Handled Name → Limiter (String × String) × Bool → Outcome Name
  limited c raw_len budget r (limiter, false) =
      drop_limited raw_len (record { limiter = limiter; budget = budget }) r
  limited c raw_len budget r (limiter, true) =
      charged c raw_len limiter r (Budget.try_charge c.charge_at (length r.wire) budget)

  -- Behind `handle_wire`, by the bytes that it returned.
  unfoldable pub handled_wire : Clock → ℕ → Listener → String → Handled Name → List ℕ → Outcome Name
  handled_wire c raw_len l src_ip r [] = drop_empty raw_len l r
  handled_wire c raw_len l src_ip r (b ∷ rest) =
      limited c raw_len l.budget r
        (RateLimiter.allow key_discrete l.limiter (src_ip, r.kind) c.allow_at)

  unfoldable pub handled : Clock → ℕ → Listener → String → Result (Handled Name) → Outcome Name
  handled c raw_len l src_ip (raise e) = crash l e
  handled c raw_len l src_ip (ok r) = handled_wire c raw_len l src_ip r r.wire

  unfoldable pub datagram_received : Clock → Listener → String → List ℕ → Outcome Name
  datagram_received c l src_ip bytes =
      if ltb udp_max (length bytes)
      then drop_oversized (length bytes) l
      else handled c (length bytes) l src_ip (handle_wire site bytes udp src_ip)
