-- ===== src/Tcp/Rounds.antt =====
-- What a TCP connection has sent and logged when it is closed.
use honeycow.Prelude.{
  ℕ, zero, suc, ◌+◌, ◌≤◌, ◌≡◌, refl, sym, subst, max, Bool, true, false, Option, none, some, List,
  [], ◌∷◌, String, length, arith, is_empty, Result, ok, raise,
}
use honeycow.Base
use honeycow.Base.Responses.{error_response_lem}
use honeycow.Budget.{OutboundBudget}
use honeycow.Dispatch.Outcomes.{Returns}
use honeycow.Dns.{Message, message}
use honeycow.Dns.Laws.{Laws}
use honeycow.Tcp.{
  Read, bytes, timeout, incomplete, lost, Round, Connection, Next, go_on, close, refusal,
  write_refusal, charged, check_budget, answer, read_body, read_prefix, proceed, tcp_loop,
  handle_tcp,
}
use honeycow.Tcp.Books.{
  IsConnection, IsNext, record_budget, closed, drop_unread-IsNext, IsNext-if, read_failed-IsNext,
  write-IsNext, drop_empty-IsNext, HasFew, Matches-HasFew,
}
use honeycow.Wire.{Site, Handled, tcp, serialize}
use honeycow.Wire.Answered.{Matches, IsAnswer, handle_wire_lem}
use honeycow.Wire.Serialize.{Answering-Answers, Carries, Returns-bind, serialize_empty-Carries}

module _ {Name : Type 0} (site : Site Name) (laws : Laws site.dns) where
  open site use {dns as d}

  refusal-IsAnswer :
      (q : Message Name) (r : Handled Name)
      → r.query ≡ some q
      → length q.question ≤ 1
      → Returns (refusal site q r) (IsAnswer tcp)
  unfolding refusal Base.refused
  refusal-IsAnswer q r asked few =
      let l = error_response_lem d laws q 5 (omega arith) in
      Returns-bind (Carries d laws q tcp) (IsAnswer tcp)
        (serialize d (Base.error_response d q 5) tcp) _
        (serialize_empty-Carries d laws q _ tcp few (Answering-Answers q _ 0 few l.1) l.2)
        (λ s p. (p.0, subst (λ o. Matches o (some s.2)) (sym asked) p.1))

  write_refusal-IsNext :
      (n : ℕ) (round : Round) (raw_len : ℕ) (c : Connection Name) (result : Result (Handled Name))
      → Returns result (IsAnswer tcp)
      → IsConnection n 0 c
      → IsNext n (write_refusal site round raw_len c result)
  unfolding write_refusal
  write_refusal-IsNext n round raw_len c (ok r) a v =
      write-IsNext n round.write_fails raw_len r _ a (record_budget n 0 _ c v)
  write_refusal-IsNext n round raw_len c (raise e) a v = absurd a

  charged-IsNext :
      (n : ℕ) (round : Round) (raw_len : ℕ) (q : Message Name) (r : Handled Name)
      (c : Connection Name) (b : OutboundBudget × Bool)
      → r.query ≡ some q
      → IsAnswer tcp r
      → IsConnection n 0 c
      → IsNext n (charged site round raw_len q r c b)
  unfolding charged
  charged-IsNext n round raw_len q r c (b, true) asked a v =
      write-IsNext n round.write_fails raw_len r _ a (record_budget n 0 b c v)
  charged-IsNext n round raw_len q r c (b, false) asked a v =
      write_refusal-IsNext n round raw_len _ (refusal site q r)
        (refusal-IsAnswer q r asked (subst HasFew asked (Matches-HasFew r.query r.response a.1)))
        (record_budget n 0 b c v)

  check_budget-IsNext :
      (n : ℕ) (round : Round) (raw_len : ℕ) (r : Handled Name) (c : Connection Name)
      (query : Option (Message Name))
      → r.query ≡ query
      → IsAnswer tcp r
      → IsConnection n 0 c
      → IsNext n (check_budget site round raw_len r c query)
  unfolding check_budget
  check_budget-IsNext n round raw_len r c none asked a v =
      write-IsNext n round.write_fails raw_len r c a v
  check_budget-IsNext n round raw_len r c (some q) asked a v =
      charged-IsNext n round raw_len q r c _ asked a v

  answer-IsNext :
      (n : ℕ) (round : Round) (raw_len : ℕ) (c : Connection Name) (result : Result (Handled Name))
      → Returns result (IsAnswer tcp)
      → IsConnection n 0 c
      → IsNext n (answer site round raw_len c result)
  unfolding answer
  answer-IsNext n round raw_len c (ok r) a v =
      IsNext-if n (is_empty r.wire) _ _ (drop_empty-IsNext n raw_len r c v)
        (check_budget-IsNext n round raw_len r c r.query refl a v)
  answer-IsNext n round raw_len c (raise e) a v = absurd a

module _ {Name : Type 0} (site : Site Name) (laws : Laws site.dns) (host : Name) (hosts : List Name)
    (some_host : site.identity.ns_hosts ≡ host ∷ hosts) where
  -- The packet of the round, if there is one, does not parse or asks at most one question.
  abbrev pub AsksFew : Read → Type 0
  AsksFew (bytes d) = (q : Message Name) → site.dns.from_wire d ≡ message q → length q.question ≤ 1
  AsksFew _ = Unit

  read_body-IsNext :
      (n : ℕ) (round : Round) (src_ip : String) (c : Connection Name) (r : Read)
      → AsksFew r
      → IsConnection n 0 c
      → IsNext n (read_body site round src_ip c r)
  unfolding read_body
  read_body-IsNext n round src_ip c (bytes d) few v =
      answer-IsNext site laws n round (length d) c _
        (handle_wire_lem site laws host hosts some_host d tcp src_ip few) v
  read_body-IsNext n round src_ip c timeout few v = read_failed-IsNext n timeout c v
  read_body-IsNext n round src_ip c (incomplete p) few v = read_failed-IsNext n (incomplete p) c v
  read_body-IsNext n round src_ip c lost few v = read_failed-IsNext n lost c v

  read_prefix-IsNext :
      (n : ℕ) (round : Round) (src_ip : String) (c : Connection Name) (r : Read)
      → AsksFew round.body
      → IsConnection n 0 c
      → IsNext n (read_prefix site round src_ip c r)
  unfolding read_prefix
  read_prefix-IsNext n round src_ip c (bytes (high ∷ low ∷ [])) few v =
      IsNext-if n _ _ _ (drop_unread-IsNext n _ _ c v)
        (read_body-IsNext n round src_ip c round.body few v)
  read_prefix-IsNext n round src_ip c (bytes []) few v = read_failed-IsNext n (bytes []) c v
  read_prefix-IsNext n round src_ip c (bytes (h ∷ [])) few v =
      read_failed-IsNext n (bytes (h ∷ [])) c v
  read_prefix-IsNext n round src_ip c (bytes (h ∷ l ∷ e ∷ rest)) few v =
      read_failed-IsNext n (bytes (h ∷ l ∷ e ∷ rest)) c v
  read_prefix-IsNext n round src_ip c timeout few v = read_failed-IsNext n timeout c v
  read_prefix-IsNext n round src_ip c (incomplete p) few v = read_failed-IsNext n (incomplete p) c v
  read_prefix-IsNext n round src_ip c lost few v = read_failed-IsNext n lost c v

  -- A connection that is over, with some answers.
  pub record IsOver (max_answers : ℕ) (c : Connection Name) : Type 0 where
    pub answers : ℕ
    pub bound : answers ≤ max_answers
    pub connection : IsConnection answers 1 c

  proceed-IsOver :
      (n left : ℕ) (rest : Connection Name → Connection Name) (next : Next Name)
      → ((c : Connection Name) → IsConnection (suc n) 0 c → IsOver (suc n + left) (rest c))
      → IsNext n next
      → IsOver (n + suc left) (proceed rest next)
  unfolding proceed
  proceed-IsOver n left rest (go_on c) k v =
      let o = k c v in
      record { answers = o.answers; bound = omega (arith, o.bound); connection = o.connection }
  proceed-IsOver n left rest (close c) k v = record {
    answers = n;
    bound = omega arith;
    connection = v;
  }

  tcp_loop-IsOver :
      (left : ℕ) (rounds : ℕ → Round) (src_ip : String) (n : ℕ) (c : Connection Name)
      → ((k : ℕ) → AsksFew (rounds k).body)
      → IsConnection n 0 c
      → IsOver (n + left) (tcp_loop site left rounds src_ip c)
  unfolding tcp_loop
  tcp_loop-IsOver zero rounds src_ip n c few v = record {
    answers = n;
    bound = omega arith;
    connection = closed n c v;
  }
  tcp_loop-IsOver (suc left) rounds src_ip n c few v =
      proceed-IsOver n left (λ c'. tcp_loop site left rounds src_ip c') _
        (λ c' w. tcp_loop-IsOver left rounds src_ip (suc n) c' few w)
        (read_prefix-IsNext n (rounds left) src_ip c (rounds left).prefix (few left) v)

  -- With an NS host configured, whatever the peer sends, if each packet that it sends on this
  -- connection asks at most one question or does not parse: a connection gets at most
  -- max_queries_per_conn answers (one, if that is zero), each a frame of two length bytes and as many
  -- bytes; the log has one event for each answer, with a message that answers its query, and at most
  -- one more; and nothing but a lost connection escapes.
  pub handle_tcp-IsOver :
      (max_queries_per_conn : ℕ) (rounds : ℕ → Round) (src_ip : String) (budget : OutboundBudget)
      → ((k : ℕ) → AsksFew (rounds k).body)
      → IsOver
          (max 1 max_queries_per_conn)
          (handle_tcp site max_queries_per_conn rounds src_ip budget)
  unfolding handle_tcp
  handle_tcp-IsOver max_queries_per_conn rounds src_ip budget few =
      let n = max 1 max_queries_per_conn in
      let o = tcp_loop-IsOver n rounds src_ip 0 _ few (record {
        counted = refl;
        answered = refl;
        told = refl;
        events = omega arith;
        frames = tt;
        matched = tt;
        escapes = tt;
      }) in
      record { answers = o.answers; bound = omega (arith, o.bound); connection = o.connection }
