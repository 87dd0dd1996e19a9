-- ===== src/Portfolio/Tx.antt =====
-- market-simulator/internal/portfolio/tx.go
use agentic_sim_trading.Common.{
  ℕ, ◌+◌, ◌-◌, Bool, ◌&&◌, none, some, List, [], ◌∷◌, ◌++◌, map, ltb, leb, ◌==◌, if◌then◌else◌,
  select, find?, update, delete, any, order_by, Result, ok, err, ◌>>=◌, query_row,
}
use agentic_sim_trading.Common
use agentic_sim_trading.Common.Text.{Text, text_eq}
use agentic_sim_trading.Market.Session.{Time, truncate_day}
use agentic_sim_trading.Float.{Float64, ◌⊕◌, ◌⊗◌, ◌⊘◌}
use agentic_sim_trading.Database.{PortfolioRow, HoldingRow, SnapshotRow, Db}

module _ {F : Type 0} where
  abbrev pub of_agent : ℕ → ℕ → PortfolioRow F → Bool
  of_agent simulation_id agent_id p = p.simulation_id == simulation_id && p.agent_id == agent_id

  abbrev pub with_id : ℕ → PortfolioRow F → Bool
  with_id pid p = p.id == pid

  -- WHERE portfolio_id = $1 AND symbol = $2
  abbrev pub held_as : ℕ → Text → HoldingRow F → Bool
  held_as pid symbol h = h.portfolio_id == pid && text_eq h.symbol symbol

  unfoldable pub portfolio_id_tx : ℕ → ℕ → Db F → Result ℕ
  portfolio_id_tx simulation_id agent_id db =
      query_row (find? (of_agent simulation_id agent_id) db.portfolios) >>= λ p. ok p.id

  unfoldable pub get_cash_tx : ℕ → Db F → Result F
  get_cash_tx pid db = query_row (find? (with_id pid) db.portfolios) >>= λ p. ok p.cash

  -- The map of the source as the list of its entries. Go visits them in no fixed order; here it is the
  -- order of the table.
  unfoldable pub load_holdings_tx : ℕ → Db F → List (HoldingRow F)
  load_holdings_tx pid db = select (λ h. h.portfolio_id == pid) db.holdings

  unfoldable pub holding_qty_tx : ℕ → Text → Db F → ℕ
  holding_qty_tx pid symbol db = elim (find? (held_as pid symbol) db.holdings) [
    | none ↦ 0
    | some h ↦ h.quantity
  ]

  abbrev pub with_quantity : ℕ → HoldingRow F → HoldingRow F
  with_quantity n h = record h { quantity = n }

  unfoldable pub reduce_holding_after_sell : ℕ → Text → ℕ → Db F → Result (Db F)
  reduce_holding_after_sell pid symbol sell_qty db = elim (find? (held_as pid symbol) db.holdings) [
    | none ↦ err Common.Error.no_rows
    | some cur ↦
        if ltb cur.quantity sell_qty
        then err Common.Error.negative_holdings
        else if cur.quantity == sell_qty
        then ok (record db { holdings = delete (held_as pid symbol) db.holdings })
        else ok (record db {
          holdings =
              update (held_as pid symbol) (with_quantity (cur.quantity - sell_qty)) db.holdings;
        })
  ]

  unfoldable pub list_agent_ids_tx : ℕ → Db F → List ℕ
  list_agent_ids_tx simulation_id db =
      order_by leb
        (map (λ p. p.agent_id) (select (λ p. p.simulation_id == simulation_id) db.portfolios))

module _ {F : Type 0} ⦃fl : Float64 F⦄ where
  abbrev pub with_cash : F → PortfolioRow F → PortfolioRow F
  with_cash cash p = record p { cash = fl.numeric cash }

  unfoldable pub set_cash_tx : ℕ → F → Db F → Db F
  set_cash_tx pid cash db = record db {
    portfolios = update (with_id pid) (with_cash cash) db.portfolios;
  }

  abbrev pub new_holding : ℕ → Text → ℕ → F → HoldingRow F
  new_holding pid symbol buy_qty fill_price = record {
    portfolio_id = pid;
    symbol = symbol;
    quantity = buy_qty;
    avg_buy_price = fl.numeric fill_price;
  }

  -- the row after the UPDATE, from the row that was read
  abbrev pub bought : HoldingRow F → ℕ → F → HoldingRow F → HoldingRow F
  bought cur buy_qty fill_price h =
      let new_qty = cur.quantity + buy_qty in
      let new_avg =
        (fl.of_nat cur.quantity ⊗ cur.avg_buy_price ⊕ fl.of_nat buy_qty ⊗ fill_price)
        ⊘ fl.of_nat new_qty in
      record h { quantity = new_qty; avg_buy_price = fl.numeric new_avg }

  unfoldable pub upsert_holding_after_buy : ℕ → Text → ℕ → F → Db F → Db F
  upsert_holding_after_buy pid symbol buy_qty fill_price db =
      elim (find? (held_as pid symbol) db.holdings) [
        | none ↦ record db {
          holdings = db.holdings ++ (new_holding pid symbol buy_qty fill_price ∷ []);
        }
        | some cur ↦ record db {
          holdings = update (held_as pid symbol) (bought cur buy_qty fill_price) db.holdings;
        }
      ]

  -- ON CONFLICT (simulation_id, agent_id, date)
  abbrev snapshot_of : ℕ → ℕ → Time → SnapshotRow F → Bool
  snapshot_of simulation_id agent_id day s =
      s.simulation_id == simulation_id && (s.agent_id == agent_id && s.date == truncate_day day)

  unfoldable pub upsert_snapshot_tx : ℕ → ℕ → Time → F → F → F → Db F → Db F
  upsert_snapshot_tx simulation_id agent_id day total_value cash invested db =
      let row : SnapshotRow F = record {
        simulation_id = simulation_id;
        agent_id = agent_id;
        date = truncate_day day;
        total_value = fl.numeric total_value;
        cash = fl.numeric cash;
        invested_value = fl.numeric invested;
      } in
      if any (snapshot_of simulation_id agent_id day) db.snapshots
      then record db {
        snapshots = update (snapshot_of simulation_id agent_id day) (λ _. row) db.snapshots;
      }
      else record db { snapshots = db.snapshots ++ (row ∷ []) }
