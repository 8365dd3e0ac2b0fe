-- ===== src/Tcp/Books.antt =====
-- What a TCP connection has sent and logged so far, and that a round keeps to it.
use honeycow.Prelude.{
  ℕ, suc, ◌+◌, ◌/◌, ◌%◌, ◌≤◌, ◌<◌, ◌≡◌, refl, Bool, true, false, Option, none, some, List, [], ◌∷◌,
  ◌++◌, length, length-append, All, All-append, arith, ltb, if◌then◌else◌, is_empty, Exception,
  connection_error,
}
use honeycow.Budget.{OutboundBudget}
use honeycow.Dns.{Message}
use honeycow.Tcp.{
  Read, bytes, timeout, incomplete, lost, DropReason, Event, Connection, Next, go_on, close,
  drop_unread, drop_empty, crash, read_failed, frame, written, write,
}
use honeycow.Udp.{Decision}
use honeycow.Wire.{Handled, tcp, unpack}
use honeycow.Wire.Answered.{Matches, IsAnswer}

-- A length in two bytes, the high one first, and as many bytes.
abbrev pub IsFrame : List ℕ → Type 0
IsFrame [] = ⊥
IsFrame (high ∷ []) = ⊥
IsFrame (high ∷ low ∷ wire) = (high < 256) × (low < 256) × (unpack high low ≡ length wire)

abbrev pub Escapes : Option Exception → Type 0
Escapes none = Unit {0}
Escapes (some e) = e ≡ connection_error

-- Events of answers: as many as answers, each with a message that answers its query.
abbrev pub responded : {Name : Type 0} → List (Event Name) → ℕ
responded [] = 0
responded (e ∷ rest) =
    (elim e.decision [ Decision.respond ↦ 1 | Decision.drop ↦ 0 ]) + responded rest

abbrev pub IsTold : {Name : Type 0} → Event Name → Type 0
IsTold e = elim e.decision [
  | Decision.respond ↦ Matches e.query e.response
  | Decision.drop ↦ Unit {0}
]

module _ {Name : Type 0} where
  responded-append :
      (xs ys : List (Event Name)) → responded (xs ++ ys) ≡ responded xs + responded ys
  responded-append [] ys = omega arith
  responded-append (x ∷ xs) ys = omega (arith, responded-append xs ys)

  -- After some answers, with some more events than answers.
  pub record IsConnection (answers extra : ℕ) (c : Connection Name) : Type 0 where
    pub counted : c.responses_sent ≡ answers
    pub answered : length c.sent ≡ answers
    pub told : responded c.logged ≡ answers
    pub events : length c.logged ≤ answers + extra
    pub frames : All IsFrame c.sent
    pub matched : All IsTold c.logged
    pub escapes : Escapes c.raised

  -- A round sends at most one answer more, and one that closes the connection may log a drop.
  abbrev pub IsNext : ℕ → Next Name → Type 0
  IsNext n (go_on c) = IsConnection (suc n) 0 c
  IsNext n (close c) = IsConnection n 1 c

  -- A budget is no matter here.
  pub record_budget :
      (n k : ℕ) (b : OutboundBudget) (c : Connection Name)
      → IsConnection n k c
      → IsConnection n k (record c { budget = b })
  record_budget n k b c v = record {
    counted = v.counted;
    answered = v.answered;
    told = v.told;
    events = v.events;
    frames = v.frames;
    matched = v.matched;
    escapes = v.escapes;
  }

  pub closed : (n : ℕ) (c : Connection Name) → IsConnection n 0 c → IsConnection n 1 c
  closed n c v = record {
    counted = v.counted;
    answered = v.answered;
    told = v.told;
    events = omega (arith, v.events);
    frames = v.frames;
    matched = v.matched;
    escapes = v.escapes;
  }

  -- A drop is logged.
  dropped :
      (n : ℕ) (c : Connection Name) (e : Event Name)
      → e.decision ≡ Decision.drop
      → IsConnection n 0 c
      → IsConnection n 1 (record c { logged = c.logged ++ e ∷ [] })
  dropped n c e drop v = record {
    counted = v.counted;
    answered = v.answered;
    told = ground (arith, responded-append c.logged (e ∷ []), v.told, drop);
    events = omega (arith, length-append c.logged (e ∷ []), v.events);
    frames = v.frames;
    matched = All-append IsTold c.logged (e ∷ []) v.matched (rw drop tt, tt);
    escapes = v.escapes;
  }

  crashed : (n : ℕ) (c : Connection Name) → IsConnection n 0 c → IsNext n (crash connection_error c)
  unfolding crash
  crashed n c v = record {
    counted = v.counted;
    answered = v.answered;
    told = v.told;
    events = omega (arith, v.events);
    frames = v.frames;
    matched = v.matched;
    escapes = refl;
  }

  pub drop_unread-IsNext :
      (n raw_len : ℕ) (why : DropReason) (c : Connection Name)
      → IsConnection n 0 c
      → IsNext n (drop_unread raw_len why c)
  unfolding drop_unread
  drop_unread-IsNext n raw_len why c v = dropped n c _ refl v

  pub IsNext-if :
      (n : ℕ) (b : Bool) (x y : Next Name) → IsNext n x → IsNext n y → IsNext n (if b then x else y)
  IsNext-if n true x y p q = p
  IsNext-if n false x y p q = q

  pub read_failed-IsNext :
      (n : ℕ) (r : Read) (c : Connection Name) → IsConnection n 0 c → IsNext n (read_failed r c)
  unfolding read_failed
  read_failed-IsNext n (bytes d) c v = closed n c v
  read_failed-IsNext n timeout c v =
      IsNext-if n (ltb 0 c.responses_sent) _ _ (closed n c v) (drop_unread-IsNext n 0 _ c v)
  read_failed-IsNext n (incomplete partial) c v =
      IsNext-if n (is_empty partial) _ _ (closed n c v)
        (drop_unread-IsNext n (length partial) _ c v)
  read_failed-IsNext n lost c v = crashed n c v

  told-respond :
      (l : List (Event Name)) (e : Event Name) (n : ℕ)
      → e.decision ≡ Decision.respond
      → responded l ≡ n
      → responded (l ++ e ∷ []) ≡ suc n
  told-respond l e n respond told = ground (arith, responded-append l (e ∷ []))

  events-respond :
      (l : List (Event Name)) (e : Event Name) (n : ℕ)
      → length l ≤ n + 0
      → length (l ++ e ∷ []) ≤ suc n + 0
  events-respond l e n h = omega (arith, length-append l (e ∷ []))

  written-IsNext :
      (n raw_len : ℕ) (r : Handled Name) (c : Connection Name)
      → length r.wire ≤ 65535
      → Matches r.query r.response
      → IsConnection n 0 c
      → IsNext n (written raw_len r c (frame r.wire))
  unfolding written frame
  written-IsNext n raw_len r c fits m v =
      let e : ltb 65535 (length r.wire) ≡ false = ground arith in
      rw e (record {
        counted = omega (arith, v.counted);
        answered = ground (
          arith,
          length-append c.sent (((length r.wire / 256) ∷ (length r.wire % 256) ∷ r.wire) ∷ []),
          v.answered,
        );
        told = told-respond c.logged _ n refl v.told;
        events = events-respond c.logged _ n v.events;
        frames = All-append IsFrame c.sent _ v.frames ((omega arith, omega arith, omega arith), tt);
        matched = All-append IsTold c.logged _ v.matched (m, tt);
        escapes = v.escapes;
      })

  pub write-IsNext :
      (n : ℕ) (fails : Bool) (raw_len : ℕ) (r : Handled Name) (c : Connection Name)
      → IsAnswer tcp r
      → IsConnection n 0 c
      → IsNext n (write fails raw_len r c)
  unfolding write
  write-IsNext n true raw_len r c a v = closed n c v
  write-IsNext n false raw_len r c a v = written-IsNext n raw_len r c a.0 a.1 v

  pub drop_empty-IsNext :
      (n raw_len : ℕ) (r : Handled Name) (c : Connection Name)
      → IsConnection n 0 c
      → IsNext n (drop_empty raw_len r c)
  unfolding drop_empty
  drop_empty-IsNext n raw_len r c v = dropped n c _ refl v

  abbrev pub HasFew : Option (Message Name) → Type 0
  HasFew none = Unit {0}
  HasFew (some q) = length q.question ≤ 1

  pub Matches-HasFew : (q r : Option (Message Name)) → Matches q r → HasFew q
  Matches-HasFew none r m = tt
  Matches-HasFew (some q) none m = absurd m
  Matches-HasFew (some q) (some r) m = m.few
