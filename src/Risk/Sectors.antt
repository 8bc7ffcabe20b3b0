-- ===== src/Risk/Sectors.antt =====
-- engine/risk_engine.py: `SECTOR_MAP`, and how a symbol's sector is found.
use quant_dss.Base.{
  ℕ, Bool, true, false, ◌&&◌, Option, none, some, List, [], ◌∷◌, String, ◌==◌, if◌then◌else◌,
}
use quant_dss.Base.Text.{Text, codes, text_eq}

pub data Sector : Type 0 where
  banking it energy auto fmcg pharma metals financials consumer cement telecom : Sector

abbrev sector_code : Sector → ℕ
sector_code banking = 0
sector_code it = 1
sector_code energy = 2
sector_code auto = 3
sector_code fmcg = 4
sector_code pharma = 5
sector_code metals = 6
sector_code financials = 7
sector_code consumer = 8
sector_code cement = 9
sector_code telecom = 10

-- `a == b` on sector names.
abbrev pub sector_eq : Sector → Sector → Bool
sector_eq a b = sector_code a == sector_code b

-- `SECTOR_MAP`
unfoldable pub sector_map : List (String × Sector)
sector_map =
    ("HDFCBANK", banking)
    ∷ ("ICICIBANK", banking)
    ∷ ("SBIN", banking)
    ∷ ("AXISBANK", banking)
    ∷ ("KOTAKBANK", banking)
    ∷ ("INDUSINDBK", banking)
    ∷ ("BANDHANBNK", banking)
    ∷ ("FEDERALBNK", banking)
    ∷ ("IDFCFIRSTB", banking)
    ∷ ("AUBANK", banking)
    ∷ ("RBLBANK", banking)
    ∷ ("BANKBARODA", banking)
    ∷ ("PNB", banking)
    ∷ ("CANARABANK", banking)
    ∷ ("TCS", it)
    ∷ ("INFY", it)
    ∷ ("WIPRO", it)
    ∷ ("HCLTECH", it)
    ∷ ("TECHM", it)
    ∷ ("LTI", it)
    ∷ ("LTIM", it)
    ∷ ("MPHASIS", it)
    ∷ ("PERSISTENT", it)
    ∷ ("COFORGE", it)
    ∷ ("OFSS", it)
    ∷ ("RELIANCE", energy)
    ∷ ("ONGC", energy)
    ∷ ("BPCL", energy)
    ∷ ("IOC", energy)
    ∷ ("GAIL", energy)
    ∷ ("PETRONET", energy)
    ∷ ("HINDPETRO", energy)
    ∷ ("ADANIGREEN", energy)
    ∷ ("TATAPOWER", energy)
    ∷ ("POWERGRID", energy)
    ∷ ("NTPC", energy)
    ∷ ("ADANIPORTS", energy)
    ∷ ("TATAMOTORS", auto)
    ∷ ("M&M", auto)
    ∷ ("MARUTI", auto)
    ∷ ("BAJAJ-AUTO", auto)
    ∷ ("EICHERMOT", auto)
    ∷ ("HEROMOTOCO", auto)
    ∷ ("TVSMOTOR", auto)
    ∷ ("ASHOKLEY", auto)
    ∷ ("MOTHERSON", auto)
    ∷ ("HINDUNILVR", fmcg)
    ∷ ("ITC", fmcg)
    ∷ ("NESTLEIND", fmcg)
    ∷ ("BRITANNIA", fmcg)
    ∷ ("DABUR", fmcg)
    ∷ ("GODREJCP", fmcg)
    ∷ ("MARICO", fmcg)
    ∷ ("COLPAL", fmcg)
    ∷ ("SUNPHARMA", pharma)
    ∷ ("DRREDDY", pharma)
    ∷ ("CIPLA", pharma)
    ∷ ("DIVISLAB", pharma)
    ∷ ("AUROPHARMA", pharma)
    ∷ ("LUPIN", pharma)
    ∷ ("BIOCON", pharma)
    ∷ ("TORNTPHARM", pharma)
    ∷ ("TATASTEEL", metals)
    ∷ ("JSWSTEEL", metals)
    ∷ ("HINDALCO", metals)
    ∷ ("VEDL", metals)
    ∷ ("COALINDIA", metals)
    ∷ ("NMDC", metals)
    ∷ ("SAIL", metals)
    ∷ ("HINDCOPPER", metals)
    ∷ ("BAJFINANCE", financials)
    ∷ ("BAJAJFINSV", financials)
    ∷ ("SBILIFE", financials)
    ∷ ("HDFCLIFE", financials)
    ∷ ("ICICIGI", financials)
    ∷ ("CHOLAFIN", financials)
    ∷ ("MUTHOOTFIN", financials)
    ∷ ("TITAN", consumer)
    ∷ ("ASIANPAINT", consumer)
    ∷ ("PIDILITIND", consumer)
    ∷ ("HAVELLS", consumer)
    ∷ ("VOLTAS", consumer)
    ∷ ("ULTRACEMCO", cement)
    ∷ ("SHREECEM", cement)
    ∷ ("AMBUJACEMENT", cement)
    ∷ ("ACC", cement)
    ∷ ("GRASIM", cement)
    ∷ ("BHARTIARTL", telecom)
    ∷ ("IDEA", telecom)
    ∷ []

-- `s.split("-")[0]`
unfoldable pub before_dash : Text → Text
before_dash [] = []
before_dash (c ∷ t) = elim (c == b'-') [ true ↦ [] | false ↦ c ∷ before_dash t ]

-- `s.replace(".NS", "")`
unfoldable pub drop_suffix : Text → Text
drop_suffix [] = []
drop_suffix (a ∷ []) = a ∷ []
drop_suffix (a ∷ b ∷ []) = a ∷ b ∷ []
drop_suffix (a ∷ b ∷ c ∷ t) = elim ((a == b'.') && ((b == b'N') && (c == b'S'))) [
  | true ↦ drop_suffix t
  | false ↦ a ∷ drop_suffix (b ∷ c ∷ t)
]

unfoldable pub base_symbol : String → Text
unfolding before_dash drop_suffix
base_symbol s = drop_suffix (before_dash (codes s))

-- `SECTOR_MAP.get(base)`
unfoldable pub find_sector : Text → List (String × Sector) → Option Sector
find_sector t [] = none
find_sector t ((k, v) ∷ m) = if text_eq (codes k) t then some v else find_sector t m

-- The sector of a symbol; `none` is "UNKNOWN".
unfoldable pub sector_of : String → Option Sector
unfolding base_symbol find_sector sector_map
sector_of s = find_sector (base_symbol s) sector_map
