-- ===== src/Api/Register.antt =====
-- `RegisterAgent` of market-simulator/internal/api/handlers.go.
use agentic_sim_trading.Common.{
  ℕ, ◌-◌, ◌≤◌, ◌≡◌, refl, ◌≢◌, ◌⊎◌, inl, inr, false, not, ◌&&◌, Option, none, some, List, [], ◌∷◌,
  ◌++◌, arith, ◌==◌, if◌then◌else◌, Bool-cases, Option-cases, find?, any, ok,
}
use agentic_sim_trading.Market.Session.{Time, truncate_day, day_seconds}
use agentic_sim_trading.Common.Tables.{find?-append_none, find?-append_ne}
use agentic_sim_trading.Portfolio.Tx.{upsert_snapshot_tx}
use agentic_sim_trading.Agents.{validate_credentials-congr}
use agentic_sim_trading.Portfolio.Tx.{get_cash_tx, portfolio_id_tx, with_id, of_agent}
use agentic_sim_trading.Portfolio.Dq.{is_disqualified, starting_capital_inr}
use agentic_sim_trading.Agents.{
  IsCrypto, with_agent_id, validate_credentials, validate_credentials_iff,
}
use agentic_sim_trading.Common.Text.{Text, codes, text_eq, trim_space}
use agentic_sim_trading.Float.{Float64}
use agentic_sim_trading.Database.{AgentStatus, PortfolioRow, Db}
use agentic_sim_trading.Portfolio.Dq.{insert_day0_snapshot}
use agentic_sim_trading.Agents.{AgentRow, Crypto, generate_api_key, hash_api_key}
use agentic_sim_trading.Simulation.{Row}
use agentic_sim_trading.Api.{Handler, Body, Response, reply}

pub record RegisterRequest : Type 0 where
  pub name : Text
  pub model : Text

-- the tables that a registration writes
pub record Accounts (F : Type 0) : Type 0 where
  pub agents : List AgentRow
  pub db : Db F

-- an agent without a name is called "agent"
unfoldable pub name_of : Text → Text
unfolding trim_space
name_of name = if text_eq (trim_space name) [] then codes "agent" else name

module _ {F : Type 0} ⦃fl : Float64 F⦄ where
  -- the columns that have defaults take them
  abbrev pub new_portfolio : (id simulation_id agent_id : ℕ) → PortfolioRow F
  new_portfolio id simulation_id agent_id = record {
    id = id;
    simulation_id = simulation_id;
    agent_id = agent_id;
    cash = fl.dec 1_000_000 0;
    status = AgentStatus.active;
    consecutive_missed_ticks = 0;
    consecutive_4xx = 0;
  }

  -- The three insertions are one transaction. The database draws `agent_id` and `portfolio_id`.
  unfoldable pub enrol :
      (agent_id portfolio_id simulation_id : ℕ)
      → RegisterRequest
      → (key hash : Text) → Row F
      → Accounts F
      → Response F × Accounts F
  unfolding insert_day0_snapshot name_of
  enrol agent_id portfolio_id simulation_id req key hash row t = (
    record { status = 201; body = Body.registered agent_id simulation_id key },
    record {
      agents =
          t.agents
          ++ (record {
            id = agent_id;
            name = name_of req.name;
            model = req.model;
            api_key_hash = some hash;
          }
              ∷ []);
      db = insert_day0_snapshot simulation_id agent_id row.start_date (record (t.db) {
        portfolios = t.db.portfolios ++ (new_portfolio portfolio_id simulation_id agent_id ∷ []);
      });
    },
  )

  -- the handler once the body is decoded
  unfoldable pub register_decoded :
      Crypto
      → (agent_id portfolio_id simulation_id : ℕ) → RegisterRequest
      → Row F
      → Accounts F
      → Response F × Accounts F
  unfolding generate_api_key hash_api_key enrol
  register_decoded crypto agent_id portfolio_id simulation_id req row t =
      elim (generate_api_key crypto) [
        | none ↦ (reply 500 (codes "api key generation failed"), t)
        | some key ↦ elim (hash_api_key crypto key) [
          | none ↦ (reply 500 (codes "api key hash failed"), t)
          | some hash ↦ enrol agent_id portfolio_id simulation_id req key hash row t
        ]
      ]

  -- `simulation` is the id of the URL, `none` if it is not one; `found` is the simulation's row, and `req` the
  -- decoded body, if it is one.
  unfoldable pub register_agent :
      Crypto
      → (agent_id portfolio_id : ℕ) → Handler
      → (simulation : Option ℕ) → (found : Option (Row F)) → Option RegisterRequest
      → Accounts F
      → Response F × Accounts F
  unfolding register_decoded
  register_agent crypto agent_id portfolio_id h none found req t =
      if not h.db
      then (reply 503 (codes "DATABASE_URL required"), t)
      else (reply 400 (codes "invalid simulation id"), t)
  register_agent crypto agent_id portfolio_id h (some simulation_id) none req t =
      if not h.db
      then (reply 503 (codes "DATABASE_URL required"), t)
      else (reply 404 (codes "simulation not found"), t)
  register_agent crypto agent_id portfolio_id h (some simulation_id) (some row) none t =
      if not h.db
      then (reply 503 (codes "DATABASE_URL required"), t)
      else (reply 400 (codes "invalid JSON body"), t)
  register_agent crypto agent_id portfolio_id h (some simulation_id) (some row) (some req) t =
      if not h.db
      then (reply 503 (codes "DATABASE_URL required"), t)
      else register_decoded crypto agent_id portfolio_id simulation_id req row t

module _ {F : Type 0} ⦃fl : Float64 F⦄ where
  -- What a registration leaves: the key that the response holds is valid for the new agent, who has an active portfolio
  -- with the starting capital and nothing else; and the keys of other agents are as valid as before.
  abbrev pub IsRegistered :
      Crypto
      → (agent_id portfolio_id simulation_id : ℕ) → Response F
      → Accounts F
      → Accounts F
      → Type 0
  IsRegistered crypto agent_id portfolio_id simulation_id r t t' =
      ((key : Text) × (r.body ≡ Body.registered agent_id simulation_id key)
        × (validate_credentials crypto agent_id key t'.agents ≡ none))
      × (get_cash_tx portfolio_id t'.db ≡ ok starting_capital_inr)
      × (portfolio_id_tx simulation_id agent_id t'.db ≡ ok portfolio_id)
      × (is_disqualified simulation_id agent_id t'.db ≡ false)
      × (t'.db.holdings ≡ t.db.holdings)
      × (t'.db.orders ≡ t.db.orders)
      × ((other : ℕ) (key : Text)
          → other ≢ agent_id
          → validate_credentials crypto other key t'.agents
            ≡ validate_credentials crypto other key t.agents)

  day0-keeps :
      (simulation_id agent_id : ℕ) (start : Time) (db : Db F)
      → let db' = insert_day0_snapshot simulation_id agent_id start db in
        (db'.portfolios ≡ db.portfolios) × (db'.holdings ≡ db.holdings) × (db'.orders ≡ db.orders)
  unfolding insert_day0_snapshot upsert_snapshot_tx
  day0-keeps simulation_id agent_id start db =
      elim (Bool-cases (
        any
          (λ s.
            s.simulation_id == simulation_id
            && (s.agent_id == agent_id
                && s.date == truncate_day (truncate_day start - day_seconds)))
          db.snapshots)) [ inl e ↦ rw e (refl, refl, refl) | inr e ↦ rw e (refl, refl, refl) ]

  enrol-IsRegistered :
      (crypto : Crypto) (laws : IsCrypto crypto) (agent_id portfolio_id simulation_id : ℕ)
      (req : RegisterRequest) (key hash : Text) (row : Row F) (t : Accounts F)
      → crypto.random_hex ≡ some key
      → crypto.generate key ≡ some hash
      → find? (with_agent_id agent_id) t.agents ≡ none
      → find? (with_id portfolio_id) t.db.portfolios ≡ none
      → find? (of_agent simulation_id agent_id) t.db.portfolios ≡ none
      → let r = enrol agent_id portfolio_id simulation_id req key hash row t in
        IsRegistered crypto agent_id portfolio_id simulation_id r.0 t r.1
  unfolding enrol get_cash_tx portfolio_id_tx is_disqualified
  enrol-IsRegistered crypto laws agent_id portfolio_id simulation_id req key hash row t drawn made
        new_agent new_id new_pair =
      let row_of_agent : AgentRow = record {
        id = agent_id;
        name = name_of req.name;
        model = req.model;
        api_key_hash = some hash;
      } in
      let fresh = new_portfolio portfolio_id simulation_id agent_id in
      let kept =
        day0-keeps simulation_id agent_id row.start_date
          (record (t.db) { portfolios = t.db.portfolios ++ (fresh ∷ []) }) in
      let by_id =
        find?-append_none (with_id portfolio_id) t.db.portfolios fresh new_id (ground arith) in
      let by_pair =
        find?-append_none (of_agent simulation_id agent_id) t.db.portfolios fresh new_pair
          (ground arith) in
      (
        (
          key,
          refl,
          (validate_credentials_iff crypto agent_id key (t.agents ++ (row_of_agent ∷ []))).1 (
            row_of_agent,
            find?-append_none (with_agent_id agent_id) t.agents row_of_agent new_agent
                (ground arith),
            laws.generate_some key hash made,
            laws.random_some key drawn,
            laws.generate_matches key hash made,
          ),
        ),
        rw (get_cash_tx, kept.0, by_id),
        rw (portfolio_id_tx, kept.0, by_pair),
        rw (is_disqualified, kept.0, by_pair),
        kept.1,
        kept.2,
        λ other any_key ne.
            validate_credentials-congr crypto other any_key (t.agents ++ (row_of_agent ∷ []))
              t.agents (find?-append_ne (with_agent_id other) t.agents row_of_agent (ground arith)),
      )

  abbrev pub RegisterOutcome :
      Crypto
      → (agent_id portfolio_id : ℕ) → Option ℕ
      → Accounts F
      → Response F × Accounts F
      → Type 0
  RegisterOutcome crypto agent_id portfolio_id simulation t r =
      ((r.0.status ≡ 201)
        × (simulation_id : ℕ) × (simulation ≡ some simulation_id)
        × IsRegistered crypto agent_id portfolio_id simulation_id r.0 t r.1)
      ⊎ ((400 ≤ r.0.status) × (r.1 ≡ t))

  -- Where the ids that the database draws are new: either the response is 201 and holds a key that is valid for the new
  -- agent, who has an active portfolio in the simulation with the starting capital, no holding and no order is
  -- added, and the keys of other agents are as valid as before; or the status is 400 or more and no table has
  -- changed.
  pub register_agent-RegisterOutcome :
      (crypto : Crypto) (laws : IsCrypto crypto) (agent_id portfolio_id : ℕ) (h : Handler)
      (simulation : Option ℕ) (found : Option (Row F)) (req : Option RegisterRequest)
      (t : Accounts F)
      → find? (with_agent_id agent_id) t.agents ≡ none
      → find? (with_id portfolio_id) t.db.portfolios ≡ none
      → ((simulation_id : ℕ) → find? (of_agent simulation_id agent_id) t.db.portfolios ≡ none)
      → RegisterOutcome crypto agent_id portfolio_id simulation t
          (register_agent crypto agent_id portfolio_id h simulation found req t)
  unfolding register_agent register_decoded generate_api_key hash_api_key validate_credentials
  register_agent-RegisterOutcome crypto laws agent_id portfolio_id h none found req t a b c =
      elim (Bool-cases h.db) [
        | inl e ↦ rw (register_agent, e) (inr (omega arith, refl))
        | inr e ↦ rw (register_agent, e) (inr (omega arith, refl))
      ]
  register_agent-RegisterOutcome crypto laws agent_id portfolio_id h (some sim) none req t a b c =
      elim (Bool-cases h.db) [
        | inl e ↦ rw (register_agent, e) (inr (omega arith, refl))
        | inr e ↦ rw (register_agent, e) (inr (omega arith, refl))
      ]
  register_agent-RegisterOutcome crypto laws agent_id portfolio_id h (some sim) (some row) none t a
        b c =
      elim (Bool-cases h.db) [
        | inl e ↦ rw (register_agent, e) (inr (omega arith, refl))
        | inr e ↦ rw (register_agent, e) (inr (omega arith, refl))
      ]
  register_agent-RegisterOutcome crypto laws agent_id portfolio_id h (some sim) (some row)
        (some req) t a b c =
      elim (Bool-cases h.db) [
        | inr e ↦ rw (register_agent, e) (inr (omega arith, refl))
        | inl e ↦ elim (Option-cases crypto.random_hex) [
          | inl drawn ↦
              rw (register_agent, e, register_decoded, generate_api_key, drawn)
                (inr (omega arith, refl))
          | inr (key, drawn) ↦ elim (Option-cases (crypto.generate key)) [
            | inl made ↦
                rw
                  (register_agent, e, register_decoded, generate_api_key, drawn, hash_api_key, made)
                  (inr (omega arith, refl))
            | inr (hash, made) ↦
                rw
                  (register_agent, e, register_decoded, generate_api_key, drawn, hash_api_key, made)
                  (inl (
                    refl,
                    sim,
                    refl,
                    enrol-IsRegistered crypto laws agent_id portfolio_id sim req key hash row t
                        drawn made a b (c sim),
                  ))
          ]
        ]
      ]
