-- ===== src/Http/Closer.antt =====
-- honey_http.py: `HTTPCloser.handle`, one connection.
--
-- Errors of writing and closing are ignored by the source and change nothing here. Of the log record
-- the schema version, the times, the ports and the address that was bound are left out.
pub mod Charges
use honeycow.Prelude.{ℕ, Bool, true, false, Option, none, some, List, [], Text, length}
use honeycow.Budget
use honeycow.Budget.{OutboundBudget}
use honeycow.Http.{Request, parse_request, resolve_client_ip}
use honeycow.Http.Page.{render_body, build_response, budget_exhausted_response}
use honeycow.Ip.{IpAddress}

pub record HttpCloser : Type 0 where
  pub body_template : List ℕ
  pub budget : Option OutboundBudget

pub record HttpEvent : Type 0 where
  pub src_ip : Text
  pub client_ip : Text
  pub forwarded_for : Text
  pub method : Text
  pub path : Text
  pub host : Text
  pub user_agent : Text
  pub request_bytes : ℕ
  pub response_bytes : ℕ

pub record Served : Type 0 where
  pub closer : HttpCloser
  pub response : List ℕ
  pub logged : HttpEvent

-- What the read gives: the bytes, or none at a timeout or an error.
unfoldable pub request_data : Option (List ℕ) → List ℕ
request_data none = []
request_data (some bytes) = bytes

-- Behind `try_charge`, at the second of a forced charge.
unfoldable pub charge_result : ℕ → List ℕ → OutboundBudget × Bool → OutboundBudget × List ℕ
charge_result force_at page (budget, true) = (budget, page)
charge_result force_at page (budget, false) = (
  Budget.force_charge force_at (length budget_exhausted_response) budget,
  budget_exhausted_response,
)

-- The check of the budget, if there is one, and the response that is sent.
unfoldable pub check_budget :
    ℕ → ℕ → List ℕ → Option OutboundBudget → Option OutboundBudget × List ℕ
unfolding charge_result
check_budget charge_at force_at page none = (none, page)
check_budget charge_at force_at page (some budget) =
    let r = charge_result force_at page (Budget.try_charge charge_at (length page) budget) in
    (some r.0, r.1)

module _ (ip : IpAddress) (decode : List ℕ → Text) where
  unfoldable pub handle : ℕ → ℕ → HttpCloser → Text → Option (List ℕ) → Served
  handle charge_at force_at closer src_ip read =
      let bytes = request_data read in
      let request = parse_request bytes in
      let client_ip = resolve_client_ip ip src_ip request.xff in
      let page = build_response (render_body decode closer.body_template client_ip) in
      let checked = check_budget charge_at force_at page closer.budget in
      record {
        closer = record closer { budget = checked.0 };
        response = checked.1;
        logged = record {
          src_ip = src_ip;
          client_ip = client_ip;
          forwarded_for = request.xff;
          method = request.method;
          path = request.path;
          host = request.host;
          user_agent = request.ua;
          request_bytes = length bytes;
          response_bytes = length checked.1;
        };
      }
