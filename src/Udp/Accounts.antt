-- ===== src/Udp/Accounts.antt =====
-- What becomes of a datagram: the event, the answer and the exception of an Outcome.
use honeycow.Prelude.{
  ℕ, ◌≤◌, ◌≡◌, refl, Bool, true, false, Option, none, some, List, [], ◌∷◌, String, length,
  Exception, attribute_error, Result, ok, raise, ltb, if◌then◌else◌,
}
use honeycow.Base
use honeycow.Base.Responses.{tc_truncated_lem}
use honeycow.Budget
use honeycow.Budget.{OutboundBudget}
use honeycow.Dispatch.Outcomes.{Returns}
use honeycow.Dns.{Message, message}
use honeycow.Dns.Laws.{Laws}
use honeycow.RateLimiter
use honeycow.RateLimiter.{Limiter}
use honeycow.Udp.{
  Decision, Event, Listener, Clock, Outcome, drop_oversized, drop_empty, drop_limited, answer,
  crash, truncated_or_raise, substitute, answer_substitute, charged, limited, handled_wire, handled,
  datagram_received, key_discrete,
}
use honeycow.Wire.{Site, Handled, udp, serialize, handle_wire}
use honeycow.Wire.Answered.{Matches, IsAnswer, handle_wire_lem}
use honeycow.Wire.Serialize.{Answering-Answers, Carries, Returns-bind, serialize_empty-Carries}

-- A datagram that is dropped logs a drop and one that is answered logs the answer, which has at
-- most 512 bytes; an exception, which is an AttributeError, escapes only in the given case.
abbrev pub Accounted :
    {Name : Type 0} → ℕ → Type 0 → Option (List ℕ) → Option (Event Name) → Option Exception → Type 0
Accounted n case none (some e) none = (e.raw_len ≡ n) × (e.decision ≡ Decision.drop)
Accounted n case (some w) (some e) none =
    (e.raw_len ≡ n)
    × (e.decision ≡ Decision.respond)
    × (e.response_bytes ≡ length w)
    × (length w ≤ 512)
    × Matches e.query e.response
Accounted n case none none (some x) = (x ≡ attribute_error) × case
Accounted n case none none none = ⊥
Accounted n case none (some e) (some x) = ⊥
Accounted n case (some w) none r = ⊥
Accounted n case (some w) (some e) (some x) = ⊥

abbrev pub IsAccounted : {Name : Type 0} → ℕ → Type 0 → Outcome Name → Type 0
IsAccounted n case o = Accounted n case o.sent o.logged o.raised

IsAccounted-if :
    {Name : Type 0} (n : ℕ) (case : Type 0) (b : Bool) (x y : Outcome Name)
    → IsAccounted n case x
    → IsAccounted n case y
    → IsAccounted n case (if b then x else y)
IsAccounted-if n case true x y p q = p
IsAccounted-if n case false x y p q = q

module _ {Name : Type 0} (site : Site Name) (laws : Laws site.dns) where
  open site use {dns as d}

  -- Without a query there is no substitute, and with one it is an answer.
  abbrev Substituted : Option (Message Name) → Result (Handled Name) → Type 0
  Substituted none (ok r) = ⊥
  Substituted none (raise e) = e ≡ attribute_error
  Substituted (some q) r = Returns r (IsAnswer udp)

  substitute_lem :
      (query response : Option (Message Name))
      → Matches query response
      → Substituted query (substitute site query)
  unfolding substitute truncated_or_raise
  substitute_lem none response m = refl
  substitute_lem (some q) none m = absurd m
  substitute_lem (some q) (some response) m =
      let l = tc_truncated_lem d laws q in
      Returns-bind (Carries d laws q udp) (IsAnswer udp) (serialize d (Base.tc_truncated d q) udp) _
        (serialize_empty-Carries d laws q _ udp m.few (Answering-Answers q _ 1 m.few l.0) l.2)
        (λ r p. p)

  answer-IsAccounted :
      (n : ℕ) (case : Type 0) (l : Listener) (r : Handled Name)
      → IsAnswer udp r
      → IsAccounted n case (answer n l r)
  unfolding answer
  answer-IsAccounted n case l r a = (refl, refl, refl, a.0, a.1)

  answer_substitute-IsAccounted :
      (c : Clock) (n : ℕ) (case : Type 0) (l : Listener) (query : Option (Message Name))
      (result : Result (Handled Name))
      → Substituted query result
      → (query ≡ none → case)
      → IsAccounted n case (answer_substitute site c n l result)
  unfolding answer_substitute crash
  answer_substitute-IsAccounted c n case l (some q) (ok r) s k = answer-IsAccounted n case _ r s
  answer_substitute-IsAccounted c n case l (some q) (raise e) s k = absurd s
  answer_substitute-IsAccounted c n case l none (ok r) s k = absurd s
  answer_substitute-IsAccounted c n case l none (raise e) s k = (s, k refl)

  charged-IsAccounted :
      (c : Clock) (n : ℕ) (case : Type 0) (limiter : Limiter (String × String)) (r : Handled Name)
      (b : OutboundBudget × Bool)
      → IsAnswer udp r
      → (r.query ≡ none → b.1 ≡ false → case)
      → IsAccounted n case (charged site c n limiter r b)
  unfolding charged
  charged-IsAccounted c n case limiter r (b, true) a k = answer-IsAccounted n case _ r a
  charged-IsAccounted c n case limiter r (b, false) a k =
      answer_substitute-IsAccounted c n case _ r.query _ (substitute_lem r.query r.response a.1)
        (λ e. k e refl)

  limited-IsAccounted :
      (c : Clock) (n : ℕ) (case : Type 0) (budget : OutboundBudget) (r : Handled Name)
      (l : Limiter (String × String) × Bool)
      → IsAnswer udp r
      → (r.query ≡ none → (Budget.try_charge c.charge_at (length r.wire) budget).1 ≡ false → case)
      → IsAccounted n case (limited site c n budget r l)
  unfolding limited drop_limited
  limited-IsAccounted c n case budget r (l, true) a k =
      charged-IsAccounted c n case l r (Budget.try_charge c.charge_at (length r.wire) budget) a k
  limited-IsAccounted c n case budget r (l, false) a k = (refl, refl)

  handled_wire-IsAccounted :
      (c : Clock) (n : ℕ) (case : Type 0) (l : Listener) (src_ip : String) (r : Handled Name)
      (w : List ℕ)
      → IsAnswer udp r
      → (r.query ≡ none → (Budget.try_charge c.charge_at (length r.wire) l.budget).1 ≡ false → case)
      → IsAccounted n case (handled_wire site c n l src_ip r w)
  unfolding handled_wire drop_empty
  handled_wire-IsAccounted c n case l src_ip r [] a k = (refl, refl)
  handled_wire-IsAccounted c n case l src_ip r (b ∷ rest) a k =
      limited-IsAccounted c n case l.budget r
        (RateLimiter.allow key_discrete l.limiter (src_ip, r.kind) c.allow_at) a k

  handled-IsAccounted :
      (c : Clock) (n : ℕ) (case : Type 0) (l : Listener) (src_ip : String)
      (result : Result (Handled Name))
      → Returns result (IsAnswer udp)
      → ((r : Handled Name)
          → result ≡ ok r
          → r.query ≡ none
          → (Budget.try_charge c.charge_at (length r.wire) l.budget).1 ≡ false
          → case)
      → IsAccounted n case (handled site c n l src_ip result)
  unfolding handled
  handled-IsAccounted c n case l src_ip (ok r) a k =
      handled_wire-IsAccounted c n case l src_ip r r.wire a (k r refl)
  handled-IsAccounted c n case l src_ip (raise e) a k = absurd a

module _ {Name : Type 0} (site : Site Name) (laws : Laws site.dns) (host : Name) (hosts : List Name)
    (some_host : site.identity.ns_hosts ≡ host ∷ hosts) where
  -- `handle_wire` found no query, and the budget refuses the bytes of its answer.
  abbrev pub IsUnaffordable : Clock → Listener → String → List ℕ → Type 0
  IsUnaffordable c l src_ip bytes =
      (r : Handled Name) × (handle_wire site bytes udp src_ip ≡ ok r)
      × (r.query ≡ none)
      × ((Budget.try_charge c.charge_at (length r.wire) l.budget).1 ≡ false)

  -- A datagram that does not parse or that asks at most one question logs one event. If the event
  -- is a drop, nothing is sent; otherwise one datagram of at most 512 bytes is sent, whose length and
  -- message the event records, and with a query the message answers it. An exception escapes only if
  -- handle_wire found no query and the budget refuses its answer, and it is an AttributeError.
  pub datagram_received_lem :
      (c : Clock) (l : Listener) (src_ip : String) (bytes : List ℕ)
      → ((q : Message Name) → site.dns.from_wire bytes ≡ message q → length q.question ≤ 1)
      → IsAccounted
          (length bytes)
          (IsUnaffordable c l src_ip bytes)
          (datagram_received site c l src_ip bytes)
  unfolding datagram_received drop_oversized
  datagram_received_lem c l src_ip bytes few =
      IsAccounted-if (length bytes) _ (ltb 512 (length bytes)) _ _ (refl, refl)
        (handled-IsAccounted site laws c (length bytes) _ l src_ip
          (handle_wire site bytes udp src_ip)
          (handle_wire_lem site laws host hosts some_host bytes udp src_ip few)
          λ r e none_found refused. (r, e, none_found, refused))
