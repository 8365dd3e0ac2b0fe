-- ===== src/Tests/Connections.antt =====
-- A TCP connection at concrete rounds.
use honeycow.Prelude.{
  ℕ, refl, subst, false, List, [], ◌∷◌, arith, codes, length, max, ltb, Bool-cases, inl, inr,
}
use honeycow.Budget.{OutboundBudget}
use honeycow.Tcp
use honeycow.Tcp.{Read, Round}
use honeycow.Tcp.Rounds.{AsksFew, IsOver, handle_tcp-IsOver}
use honeycow.Tests.Packets.{site, packet, FewQuestions}
use honeycow.Tests.Toy.{toy, toy-Laws}

-- The stand-in for dnspython parses one question at most.
toy-FewQuestions : (d : List ℕ) → FewQuestions (toy.from_wire d)
toy-FewQuestions [] = tt
toy-FewQuestions (a ∷ []) = tt
toy-FewQuestions (a ∷ b ∷ []) = tt
toy-FewQuestions (a ∷ b ∷ c ∷ []) = tt
toy-FewQuestions (a ∷ b ∷ c ∷ d ∷ rest) = elim (Bool-cases (ltb (length rest) 8)) [
  | inl short ↦ rw short tt
  | inr long ↦ rw long (omega arith)
]

-- The peer sends one packet in each round.
abbrev rounds : ℕ → Round
rounds n = record {
  prefix = Read.bytes (0 ∷ 12 ∷ []);
  body = Read.bytes packet;
  write_fails = false;
  charge_at = 0;
  force_at = 0;
}

few :
    (k : ℕ)
    → AsksFew site toy-Laws
        (codes "ns1.example.com.")
        (codes "ns2.example.com." ∷ [])
        refl
        (rounds k).body
few k q e = subst FewQuestions e (toy-FewQuestions packet)

abbrev budget : OutboundBudget
budget = record { max_bytes = 20; window_seconds = 60; buckets = []; total = 0 }

handle_tcp-IsOver_example :
    IsOver site toy-Laws
      (codes "ns1.example.com.")
      (codes "ns2.example.com." ∷ [])
      refl
      (max 1 2)
      (Tcp.handle_tcp site 2 rounds "192.0.2.9" budget)
handle_tcp-IsOver_example =
    handle_tcp-IsOver site toy-Laws (codes "ns1.example.com.") (codes "ns2.example.com." ∷ []) refl
      2 rounds "192.0.2.9" budget few
