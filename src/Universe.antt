-- ===== src/Universe.antt =====
-- market-simulator/internal/universe: the tradeable symbols and their sectors.
use agentic_sim_trading.Common.{Bool, none, some, List, [], ◌∷◌, find?, any}
use agentic_sim_trading.Common.Text.{Text, codes, text_eq}

-- the keys of `nifty50`
abbrev pub nifty50 : List Text
nifty50 =
    codes "ADANIENT.NS"
    ∷ codes "ADANIPORTS.NS"
    ∷ codes "APOLLOHOSP.NS"
    ∷ codes "ASIANPAINT.NS"
    ∷ codes "AXISBANK.NS"
    ∷ codes "BAJAJ-AUTO.NS"
    ∷ codes "BAJFINANCE.NS"
    ∷ codes "BAJAJFINSV.NS"
    ∷ codes "BPCL.NS"
    ∷ codes "BHARTIARTL.NS"
    ∷ codes "BRITANNIA.NS"
    ∷ codes "CIPLA.NS"
    ∷ codes "COALINDIA.NS"
    ∷ codes "DIVISLAB.NS"
    ∷ codes "DRREDDY.NS"
    ∷ codes "EICHERMOT.NS"
    ∷ codes "GRASIM.NS"
    ∷ codes "HCLTECH.NS"
    ∷ codes "HDFCBANK.NS"
    ∷ codes "HDFCLIFE.NS"
    ∷ codes "HEROMOTOCO.NS"
    ∷ codes "HINDALCO.NS"
    ∷ codes "HINDUNILVR.NS"
    ∷ codes "ICICIBANK.NS"
    ∷ codes "ITC.NS"
    ∷ codes "INDUSINDBK.NS"
    ∷ codes "INFY.NS"
    ∷ codes "JSWSTEEL.NS"
    ∷ codes "KOTAKBANK.NS"
    ∷ codes "LT.NS"
    ∷ codes "LTIM.NS"
    ∷ codes "M&M.NS"
    ∷ codes "MARUTI.NS"
    ∷ codes "NESTLEIND.NS"
    ∷ codes "NTPC.NS"
    ∷ codes "ONGC.NS"
    ∷ codes "POWERGRID.NS"
    ∷ codes "RELIANCE.NS"
    ∷ codes "SBILIFE.NS"
    ∷ codes "SBIN.NS"
    ∷ codes "SUNPHARMA.NS"
    ∷ codes "TATACONSUM.NS"
    ∷ codes "TATAMOTORS.NS"
    ∷ codes "TATASTEEL.NS"
    ∷ codes "TCS.NS"
    ∷ codes "TECHM.NS"
    ∷ codes "TITAN.NS"
    ∷ codes "ULTRACEMCO.NS"
    ∷ codes "UPL.NS"
    ∷ codes "WIPRO.NS"
    ∷ []

unfoldable pub is_nifty50 : Text → Bool
is_nifty50 symbol = any (text_eq symbol) nifty50

abbrev pub sectors : List (Text × Text)
sectors =
    (codes "ADANIENT.NS", codes "Metals")
    ∷ (codes "ADANIPORTS.NS", codes "Infrastructure")
    ∷ (codes "APOLLOHOSP.NS", codes "Healthcare")
    ∷ (codes "ASIANPAINT.NS", codes "Consumer")
    ∷ (codes "AXISBANK.NS", codes "Financials")
    ∷ (codes "BAJAJ-AUTO.NS", codes "Auto")
    ∷ (codes "BAJFINANCE.NS", codes "Financials")
    ∷ (codes "BAJAJFINSV.NS", codes "Financials")
    ∷ (codes "BPCL.NS", codes "Energy")
    ∷ (codes "BHARTIARTL.NS", codes "Telecom")
    ∷ (codes "BRITANNIA.NS", codes "FMCG")
    ∷ (codes "CIPLA.NS", codes "Healthcare")
    ∷ (codes "COALINDIA.NS", codes "Energy")
    ∷ (codes "DIVISLAB.NS", codes "Healthcare")
    ∷ (codes "DRREDDY.NS", codes "Healthcare")
    ∷ (codes "EICHERMOT.NS", codes "Auto")
    ∷ (codes "GRASIM.NS", codes "Materials")
    ∷ (codes "HCLTECH.NS", codes "IT")
    ∷ (codes "HDFCBANK.NS", codes "Financials")
    ∷ (codes "HDFCLIFE.NS", codes "Financials")
    ∷ (codes "HEROMOTOCO.NS", codes "Auto")
    ∷ (codes "HINDALCO.NS", codes "Metals")
    ∷ (codes "HINDUNILVR.NS", codes "FMCG")
    ∷ (codes "ICICIBANK.NS", codes "Financials")
    ∷ (codes "ITC.NS", codes "FMCG")
    ∷ (codes "INDUSINDBK.NS", codes "Financials")
    ∷ (codes "INFY.NS", codes "IT")
    ∷ (codes "JSWSTEEL.NS", codes "Metals")
    ∷ (codes "KOTAKBANK.NS", codes "Financials")
    ∷ (codes "LT.NS", codes "Industrials")
    ∷ (codes "LTIM.NS", codes "IT")
    ∷ (codes "M&M.NS", codes "Auto")
    ∷ (codes "MARUTI.NS", codes "Auto")
    ∷ (codes "NESTLEIND.NS", codes "FMCG")
    ∷ (codes "NTPC.NS", codes "Energy")
    ∷ (codes "ONGC.NS", codes "Energy")
    ∷ (codes "POWERGRID.NS", codes "Energy")
    ∷ (codes "RELIANCE.NS", codes "Energy")
    ∷ (codes "SBILIFE.NS", codes "Financials")
    ∷ (codes "SBIN.NS", codes "Financials")
    ∷ (codes "SUNPHARMA.NS", codes "Healthcare")
    ∷ (codes "TATACONSUM.NS", codes "FMCG")
    ∷ (codes "TATAMOTORS.NS", codes "Auto")
    ∷ (codes "TATASTEEL.NS", codes "Metals")
    ∷ (codes "TCS.NS", codes "IT")
    ∷ (codes "TECHM.NS", codes "IT")
    ∷ (codes "TITAN.NS", codes "Consumer")
    ∷ (codes "ULTRACEMCO.NS", codes "Materials")
    ∷ (codes "UPL.NS", codes "Materials")
    ∷ (codes "WIPRO.NS", codes "IT")
    ∷ []

unfoldable pub sector_of : Text → Text
sector_of symbol = elim (find? (λ e. text_eq symbol e.0) sectors) [
  | none ↦ codes "Unknown"
  | some e ↦ e.1
]
