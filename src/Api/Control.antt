-- ===== src/Api/Control.antt =====
-- The handlers of market-simulator/internal/api/handlers.go that create, run and configure simulations.
use agentic_sim_trading.Common.{
  ℕ, Bool, true, false, not, ◌||◌, Option, none, some, [], ltb, ◌==◌, if◌then◌else◌,
}
use agentic_sim_trading.Common.Text.{Text, codes, text_eq}
use agentic_sim_trading.Market.Session.{Time}
use agentic_sim_trading.Market.Data.{Tables}
use agentic_sim_trading.Float.{Float64, gt, nought}
use agentic_sim_trading.Simulation.{Config, Row, ClockStatus, merge_config, Stamp}
use agentic_sim_trading.Clock.SimClock.{SimEvent}
use agentic_sim_trading.Clock.State.{State}
use agentic_sim_trading.Clock.Match.{Matcher}
use agentic_sim_trading.Clock.Lifecycle.{start, pause, proceed, tick}
use agentic_sim_trading.Leaderboard.{build}
use agentic_sim_trading.Api.{Error, Handler, Body, Response, reply, write_sim_err}

-- decoded bodies; a JSON fragment of the configuration sets some of its fields
pub record SpeedRequest (F : Type 0) : Type 0 where
  pub simulation_id : ℕ
  pub multiplier : F

-- `none` is a text that `time.Parse` refuses.
pub record CreateRequest (F : Type 0) : Type 0 where
  pub name : Text
  pub start_date : Text
  pub end_date : Text
  pub config : Config F → Config F

module _ {F : Type 0} where
  -- what the handlers of the registry's calls write
  abbrev sim_response : Text → Option Error × State F → Response F × State F
  sim_response done (none, s) = (reply 200 done, s)
  sim_response done (some e, s) = (write_sim_err e, s)

  -- the tests that these handlers begin with: `simulation` is the id of the URL, `none` if it is not one
  abbrev guarded :
      Handler
      → (simulation : Option ℕ) → Text
      → (State F → Option Error × State F)
      → State F
      → Response F × State F
  guarded h simulation done call s =
      if not h.clocks
      then (reply 503 (codes "clock registry not configured"), s)
      else elim simulation [
        | none ↦ (reply 400 (codes "invalid simulation id"), s)
        | some id ↦ sim_response done (call s)
      ]

  unfoldable pub start_simulation :
      (SimEvent → Bool) → Tables F → Handler → Option ℕ → State F → Response F × State F
  unfolding start write_sim_err
  start_simulation takes tables h simulation =
      guarded h simulation (codes "started") (start takes tables)

  unfoldable pub pause_simulation : Handler → Option ℕ → State F → Response F × State F
  unfolding pause write_sim_err
  pause_simulation h simulation = guarded h simulation (codes "paused") pause

  -- what the handlers that merge configuration write
  abbrev merge_response : Body F → Option Error × Option (Row F) → State F → Response F × State F
  merge_response done (none, r) s = (record { status = 200; body = done }, record s { row = r })
  merge_response done (some Error.not_found, r) s =
      (reply 404 (codes "simulation not found"), record s { row = r })
  merge_response done (some e, r) s = (reply 500 (codes "update failed"), record s { row = r })

  -- `none` is a body that is not JSON, `some none` one without a config.
  unfoldable pub patch_simulation_config :
      Handler → Option ℕ → Option (Option (Config F → Config F)) → State F → Response F × State F
  unfolding merge_config
  patch_simulation_config h none body s =
      if not h.db
      then (reply 503 (codes "DATABASE_URL required"), s)
      else (reply 400 (codes "invalid simulation id"), s)
  patch_simulation_config h (some id) body s =
      if not h.db then (reply 503 (codes "DATABASE_URL required"), s) else elim body [
        | none ↦ (reply 400 (codes "invalid JSON body"), s)
        | some none ↦ (reply 400 (codes "config object required"), s)
        | some (some fragment) ↦
            merge_response (Body.detail (codes "updated")) (merge_config fragment s.row) s
      ]

module _ {F : Type 0} ⦃fl : Float64 F⦄ where
  unfoldable pub proceed_simulation :
      (SimEvent → Bool) → Tables F → Handler → Option ℕ → State F → Response F × State F
  unfolding proceed write_sim_err
  proceed_simulation takes tables h simulation =
      guarded h simulation (codes "proceeded") (proceed takes tables)

  unfoldable pub tick_simulation :
      Matcher F
      → (SimEvent → Bool)
      → (simulation_id now : ℕ) → Handler
      → Option ℕ
      → State F
      → Response F × State F
  unfolding tick write_sim_err
  tick_simulation matcher takes simulation_id now h simulation =
      guarded h simulation (codes "tick") (tick matcher takes simulation_id now)

  unfoldable pub put_sim_speed : Handler → Option (SpeedRequest F) → State F → Response F × State F
  unfolding merge_config
  put_sim_speed h none s =
      if not h.db
      then (reply 503 (codes "DATABASE_URL required"), s)
      else (reply 400 (codes "invalid JSON body"), s)
  put_sim_speed h (some req) s =
      if not h.db
      then (reply 503 (codes "DATABASE_URL required"), s)
      else if req.simulation_id == 0
      then (reply 400 (codes "simulation_id required"), s)
      else if fl.le req.multiplier nought || gt req.multiplier (fl.dec 86400 0)
      then (reply 400 (codes "multiplier must be in (0, 86400]"), s)
      else merge_response (Body.speed req.simulation_id req.multiplier)
          (merge_config (λ c. record c { tick_speed_multiplier = some req.multiplier }) s.row) s

  -- `DefaultConfig`
  abbrev pub default_config : Config F
  default_config = record {
    checkpoint_interval_days = some (fl.dec 5 0);
    days_since_checkpoint = some nought;
    awaiting_proceed = some false;
    auto_tick_enabled = some true;
    tick_interval_seconds = some (fl.dec 50 1);
    order_window_seconds = some (fl.dec 30 1);
    tick_speed_multiplier = some (fl.dec 1 0);
    bar_interval = some (codes "1d");
    last_matched_date = Stamp.absent;
    as_of_ts = Stamp.absent;
    last_matched_ts = Stamp.absent;
    participation_rate = none;
    missed_ticks_limit = none;
  }

  -- `Create`: the new row
  unfoldable pub create : Time → Time → (Config F → Config F) → Row F
  create start_date end_date config = record {
    start_date = start_date;
    end_date = end_date;
    as_of_date = none;
    status = ClockStatus.paused;
    config = config default_config;
  }

  -- `parse` is `time.Parse(time.DateOnly, _)`; the database draws `id`. The row is the one that is inserted.
  unfoldable pub create_simulation :
      (parse : Text → Option Time)
      → (id : ℕ) → Handler
      → Option (CreateRequest F)
      → Response F × Option (Row F)
  unfolding create
  create_simulation parse id h none =
      if not h.db
      then (reply 503 (codes "DATABASE_URL required"), none)
      else (reply 400 (codes "invalid JSON body"), none)
  create_simulation parse id h (some req) =
      if not h.db
      then (reply 503 (codes "DATABASE_URL required"), none)
      else if text_eq req.name [] || (text_eq req.start_date [] || text_eq req.end_date [])
      then (reply 400 (codes "name, start_date, end_date required"), none)
      else elim (parse req.start_date) [
        | none ↦ (reply 400 (codes "invalid start_date (use YYYY-MM-DD)"), none)
        | some start_day ↦ elim (parse req.end_date) [
          | none ↦ (reply 400 (codes "invalid end_date (use YYYY-MM-DD)"), none)
          | some end_day ↦
              if ltb end_day start_day
              then (reply 400 (codes "end_date must be on or after start_date"), none)
              else (
                record { status = 201; body = Body.created id },
                some (create start_day end_day req.config),
              )
        ]
      ]

  -- the names and sectors are those of `build`
  unfoldable pub get_leaderboard :
      (names : ℕ → Text) (stock_sector : Text → Text) → Handler → Option ℕ → State F → Response F
  unfolding build
  get_leaderboard names stock_sector h none s =
      if not h.db
      then reply 503 (codes "DATABASE_URL required")
      else reply 400 (codes "invalid simulation id")
  get_leaderboard names stock_sector h (some simulation_id) s =
      if not h.db then reply 503 (codes "DATABASE_URL required") else elim s.row [
        | none ↦ reply 404 (codes "simulation not found")
        | some row ↦ record {
          status = 200;
          body = Body.entries simulation_id (build names stock_sector simulation_id s.db);
        }
      ]
