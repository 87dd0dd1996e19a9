-- ===== src/Api/RateLimit.antt =====
-- The limits of market-simulator/internal/api/middleware.go: calls per minute, calls per tick, and refused
-- calls in a row. Wall-clock time is in nanoseconds.
pub mod Window
use agentic_sim_trading.Common.{
  ℕ, ◌+◌, ◌*◌, ◌^◌, Bool, true, false, not, ◌&&◌, Option, none, some, List, [], ◌∷◌, ◌++◌, ltb, leb,
  ◌==◌, if◌then◌else◌, length, select,
}
use agentic_sim_trading.Common.Counting.{count}
use agentic_sim_trading.Common.Text.{Text, codes, text_eq, trim_space, text_eq_refl}
use agentic_sim_trading.Common.Assoc.{lookup_or, assign}
use agentic_sim_trading.Database.{Db}
use agentic_sim_trading.Portfolio.Dq.{
  consecutive_4xx_dq, increment_4xx, reset_4xx, set_disqualified,
}
use agentic_sim_trading.Clock.State.{State, allow_api_call}
use agentic_sim_trading.Api.{Handler, Response, reply}

pub record SlidingLimiter : Type 0 where
  pub hits : List (Text × List ℕ)
  pub window : ℕ
  pub max : ℕ

-- `newSlidingLimiter`; 0 stands for every number that is not positive
unfoldable pub new_sliding_limiter : (max window : ℕ) → SlidingLimiter
new_sliding_limiter max window = record {
  hits = [];
  window = if window == 0 then 60 * 10 ^ 9 else window;
  max = if max == 0 then 100 else max;
}

-- `t.After(now.Add(-window))`
abbrev pub after_cutoff : (window now : ℕ) → ℕ → Bool
after_cutoff window now t = ltb now (t + window)

unfoldable pub allow : (now : ℕ) → (key : Text) → SlidingLimiter → Bool × SlidingLimiter
allow now key l =
    let kept = select (after_cutoff l.window now) (lookup_or [] key l.hits) in
    if leb l.max (length kept)
    then (false, record l { hits = assign key kept l.hits })
    else (true, record l { hits = assign key (kept ++ (now ∷ [])) l.hits })

-- `rateLimitKey`: `text_of` is the text of an id
unfoldable pub rate_limit_key : (text_of : ℕ → Text) → (caller : Option ℕ) → (remote : Text) → Text
unfolding trim_space
rate_limit_key text_of none remote = codes "ip:" ++ trim_space remote
rate_limit_key text_of (some id) remote = codes "agent:" ++ text_of id

-- `RateLimitPerAgent`: the response that it writes, or none if the next handler is called
unfoldable pub rate_limit_per_agent :
    {F : Type 0} → (now : ℕ) → (key : Text) → SlidingLimiter → Option (Response F) × SlidingLimiter
unfolding allow
rate_limit_per_agent now key l =
    let (allowed, l') = allow now key l in
    (
      if allowed
          then none
          else some (reply 429 (codes "rate limit exceeded (100 requests per minute)")),
      l',
    )

module _ {F : Type 0} where
  -- what follows `Increment4xx`
  abbrev pub after_4xx : ℕ → Option (ℕ × ℕ) → Db F → Db F
  unfolding set_disqualified
  after_4xx agent_id none db = db
  after_4xx agent_id (some c) db =
      if leb consecutive_4xx_dq c.1 && not (c.0 == 0) then set_disqualified c.0 agent_id db else db

  -- `RateLimitPerTick` after the next handler has written a response of status `st`
  unfoldable pub count_4xx : (agent_id st : ℕ) → State F → State F
  unfolding increment_4xx reset_4xx set_disqualified
  count_4xx agent_id st s =
      if leb 400 st && (ltb st 500 && (not (st == 401) && not (st == 429)))
      then record s {
        db = after_4xx agent_id (increment_4xx agent_id s.db).0 (increment_4xx agent_id s.db).1;
      }
      else if leb 200 st && ltb st 400
      then record s { db = reset_4xx agent_id s.db }
      else s

  -- `RateLimitPerTick`. `counted` tells whether the request belongs to a simulation, by its agent or its parameter
  -- `simulation_id`; the state is then of that simulation. `next` is the handler that it guards.
  unfoldable pub rate_limit_per_tick :
      Handler
      → (caller : Option ℕ) → (counted : Bool) → (State F → Response F × State F)
      → State F
      → Response F × State F
  unfolding allow_api_call count_4xx
  rate_limit_per_tick h none counted next s = next s
  rate_limit_per_tick h (some agent_id) counted next s =
      let (allowed, s₁) = if h.clocks && counted then allow_api_call agent_id s else (true, s) in
      let (response, s₂) = next s₁ in
      if not allowed
      then (reply 429 (codes "rate limit exceeded (100 requests per tick)"), s₁)
      else (response, if h.portfolio then count_4xx agent_id response.status s₂ else s₂)
