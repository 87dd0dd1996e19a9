-- ===== src/Examples/Api.antt =====
-- Requests to a simulation, run on concrete data.
use agentic_sim_trading.Common.{
  ℕ, ◌≤◌, ◌<◌, ◌≡◌, refl, sym, ap, ◌∙◌, ◌≢◌, ◌↔◌, inl, inr, true, false, Option, none, some, List,
  [], ◌∷◌, arith, if◌then◌else◌, Bool-cases, find?,
}
use mathlib.Core.Option.{some-injective}
use agentic_sim_trading.Common.Text.{text_eq_refl, trim_space}
use agentic_sim_trading.Universe.{is_nifty50}
use agentic_sim_trading.Clock.Lifecycle.{start}
use agentic_sim_trading.Agents.{hash_api_key}
use agentic_sim_trading.Portfolio.Tx.{of_agent}
use agentic_sim_trading.Common.Int.{ℤ, pos}
use agentic_sim_trading.Common.Text.{trim_space, Text, codes, text_eq}
use agentic_sim_trading.Common.Counting.{count}
use agentic_sim_trading.Float.Fixed.{fixed}
use agentic_sim_trading.Portfolio.Tx.{of_agent}
use agentic_sim_trading.Agents.{
  hash_api_key, AgentRow, Crypto, IsCrypto, validate_credentials, set_api_key_hash,
  set_api_key_hash_lem,
}
use agentic_sim_trading.Clock.State.{State}
use agentic_sim_trading.Api.{skip_agent_auth, Handler, QueryId}
use agentic_sim_trading.Api.PlaceOrder.{OrderRequest, place_order}
use agentic_sim_trading.Api.PlaceOrder.Outcome.{PlaceOutcome, place_order-PlaceOutcome}
use agentic_sim_trading.Api.Cancel.{cancel_order, CancelOutcome, cancel_order-CancelOutcome}
use agentic_sim_trading.Api.Register.{
  RegisterRequest, Accounts, register_agent, RegisterOutcome, register_agent-RegisterOutcome,
}
use agentic_sim_trading.Api.Auth.{Headers, agent_auth, agent_auth_iff, agent_id_from_context}
use agentic_sim_trading.Api.RateLimit.{SlidingLimiter, new_sliding_limiter, after_cutoff, allow}
use agentic_sim_trading.Api.RateLimit.Window.{Calls, sliding_window}
use agentic_sim_trading.Examples.Trading.{tables, start_db}
use agentic_sim_trading.Examples.Clock.{started, fresh}

abbrev pub server : Handler
server = record { db = true; market = true; portfolio = true; clocks = true; skip_auth_env = [] }

abbrev request : OrderRequest ℤ
request = record {
  simulation_id = 1;
  agent_id = 3;
  symbol = codes " TCS.NS";
  order_type = codes "Market";
  side = codes "BUY";
  quantity = pos 10;
  price = none;
}

-- the order is accepted
placed_status_sample :
    (place_order server tables 90 1000 (some 3) (some request) started).0.status ≡ 201
unfolding place_order is_nifty50 start
placed_status_sample = refl

-- another agent may not place it
forbidden_status_sample :
    (place_order server tables 90 1000 (some 4) (some request) started).0.status ≡ 403
unfolding place_order
forbidden_status_sample = refl

place_order_example :
    PlaceOutcome server
      (some 3)
      (some request)
      started
      (place_order server tables 90 1000 (some 3) (some request) started)
place_order_example = place_order-PlaceOutcome server tables 90 1000 (some 3) (some request) started

abbrev with_order : State ℤ
with_order = (place_order server tables 90 1000 (some 3) (some request) started).1

canceled_status_sample :
    (cancel_order server (some 3) (some 90) (QueryId.given 1) with_order).0.status ≡ 200
unfolding cancel_order place_order is_nifty50 start
canceled_status_sample = refl

cancel_order_example :
    CancelOutcome server
      (some 3)
      (some 90)
      (QueryId.given 1)
      with_order
      (cancel_order server (some 3) (some 90) (QueryId.given 1) with_order)
cancel_order_example =
    cancel_order-CancelOutcome server (some 3) (some 90) (QueryId.given 1) with_order

-- a hash that is the text itself
abbrev plain : Crypto
plain = record {
  random_hex = some (codes "c0ffee");
  generate = λ t. if text_eq t [] then none else some t;
  matches = text_eq;
}

plain-IsCrypto : IsCrypto plain
plain-IsCrypto = record {
  generate_matches = λ t hash e. elim (Bool-cases (text_eq t [])) [
    | inl empty ↦ let never : none ≡ some hash = rw empty at e in cc
    | inr full ↦
        let same = some-injective t hash (rw full at e) in
        ap (λ u. text_eq u t) (sym same) ∙ text_eq_refl t
  ];
  generate_some = λ t hash e. elim (Bool-cases (text_eq t [])) [
    | inl empty ↦ let never : none ≡ some hash = rw empty at e in cc
    | inr full ↦
        let same = some-injective t hash (rw full at e) in ap (λ u. text_eq u []) (sym same) ∙ full
  ];
  random_some = λ key e. ap (λ u. text_eq u []) (sym (some-injective (codes "c0ffee") key e));
}

abbrev known : List AgentRow
known = record { id = 3; name = codes "a"; model = codes "m"; api_key_hash = some (codes "k") } ∷ []

set_api_key_hash_example :
    (validate_credentials plain 3 (codes "new") (set_api_key_hash 3 (codes "new") known).1 ≡ none)
    × ((other : ℕ) (any_key : Text)
        → other ≢ 3
        → validate_credentials plain other any_key (set_api_key_hash 3 (codes "new") known).1
          ≡ validate_credentials plain other any_key known)
unfolding set_api_key_hash hash_api_key
set_api_key_hash_example =
    set_api_key_hash_lem plain plain-IsCrypto 3 (codes "new") (codes "new") known refl refl refl

abbrev accounts : Accounts ℤ
accounts = record { agents = known; db = start_db }

abbrev newcomer : RegisterRequest
newcomer = record { name = []; model = codes "m" }

other_agent : (n : ℕ) → find? (of_agent n 40) start_db.portfolios ≡ none
other_agent n = ground arith

register_agent_example :
    RegisterOutcome plain 40 41
      (some 1)
      accounts
      (register_agent plain 40 41 server (some 1) fresh.row (some newcomer) accounts)
register_agent_example =
    register_agent-RegisterOutcome plain plain-IsCrypto 40 41 server (some 1) fresh.row
      (some newcomer) accounts refl refl (other_agent)

abbrev parse_three : Text → Option ℕ
parse_three t = if text_eq t (codes "3") then some 3 else none

abbrev headers : Headers
headers = record { agent_id = codes "3"; api_key = codes "k" }

agent_auth_example : (agent_auth {F = ℤ} parse_three plain server known headers ≡ inr (some 3)) ↔ (
    (id : ℕ) × (server.db ≡ true)
    × (parse_three (trim_space headers.agent_id) ≡ some id)
    × (text_eq (trim_space headers.api_key) [] ≡ false)
    × (validate_credentials plain id (trim_space headers.api_key) known ≡ none)
    × (some 3 ≡ agent_id_from_context id))
unfolding skip_agent_auth
agent_auth_example = agent_auth_iff parse_three plain server known headers (some 3) refl

abbrev two_a_second : SlidingLimiter
two_a_second = new_sliding_limiter 2 1000

abbrev caller_key : Text
caller_key = codes "agent:3"

abbrev after_two : SlidingLimiter
after_two = (allow 300 caller_key (allow 100 caller_key two_a_second).1).1

abbrev two_calls : Calls two_a_second caller_key 300 after_two (300 ∷ 100 ∷ [])
unfolding allow new_sliding_limiter
two_calls =
    Calls.allowed 300 (Calls.allowed 100 Calls.no_call (omega arith) refl) (omega arith) refl

-- a third call waits until the first is older than the window
third_call_sample : (allow 1000 caller_key after_two).0 ≡ false
unfolding allow new_sliding_limiter
third_call_sample = refl

sliding_window_example :
    (count (after_cutoff two_a_second.window 1100) (300 ∷ 100 ∷ []) ≤ two_a_second.max)
    × (((allow 1100 caller_key after_two).0 ≡ true)
        ↔ (count (after_cutoff two_a_second.window 1100) (300 ∷ 100 ∷ []) < two_a_second.max))
unfolding new_sliding_limiter
sliding_window_example =
    sliding_window two_a_second caller_key refl 300 1100 after_two (300 ∷ 100 ∷ []) two_calls
      (omega arith)
