-- ===== src/Http/Closer/Charges.antt =====
-- What `HTTPCloser.handle` of honey_http.py charges the budget.
use honeycow.Prelude.{
  ℕ, ◌≡◌, refl, Bool, true, false, Option, some, List, [], ◌∷◌, Text, length, arith,
}
use honeycow.Budget
use honeycow.Budget.{OutboundBudget}
use honeycow.Budget.Window.{Call, Ledger, try, force, step, run}
use honeycow.Http.Closer.{charge_result, check_budget, handle}
use honeycow.Http.Page.{budget_exhausted_response}
use honeycow.Ip.{IpAddress}

-- The books of a budget after a response: they are those of a run of charges that adds one entry,
-- for the bytes of the response.
pub record IsCharged (l : Ledger) (budget : OutboundBudget) (sent : ℕ) : Type 0 where
  pub calls : List Call
  pub same_budget : budget ≡ (run l calls).budget
  pub second : ℕ
  pub entry : (run l calls).charged ≡ (second, sent) ∷ l.charged

charge_result-IsCharged :
    (l : Ledger) (charge_at force_at : ℕ) (page : List ℕ) (r : OutboundBudget × Bool)
    → Budget.try_charge charge_at (length page) l.budget ≡ r
    → let result = charge_result force_at page r in IsCharged l result.0 (length result.1)
unfolding charge_result run step
charge_result-IsCharged l charge_at force_at page (b, true) e = record {
  calls = try charge_at (length page) ∷ [];
  same_budget = ground (arith, e);
  second = charge_at;
  entry = ground (arith, e);
}
charge_result-IsCharged l charge_at force_at page (b, false) e = record {
  calls = try charge_at (length page) ∷ force force_at (length budget_exhausted_response) ∷ [];
  same_budget = ground (arith, e);
  second = force_at;
  entry = ground (arith, e);
}

-- A request to a closer with a budget: the budget's books hold one entry more, for the bytes that
-- are sent, and the log records their number.
pub handle-IsCharged :
    (ip : IpAddress) (decode : List ℕ → Text) (charge_at force_at : ℕ) (template : List ℕ)
    (l : Ledger) (src_ip : Text) (read : Option (List ℕ))
    → let served =
        handle ip decode charge_at force_at
          (record { body_template = template; budget = some l.budget })
          src_ip
          read in
      (b : OutboundBudget) × (served.closer.budget ≡ some b)
      × IsCharged l b (length served.response)
      × (served.logged.response_bytes ≡ length served.response)
unfolding handle check_budget
handle-IsCharged ip decode charge_at force_at template l src_ip read =
    (_, refl, charge_result-IsCharged l charge_at force_at _ _ refl, refl)
