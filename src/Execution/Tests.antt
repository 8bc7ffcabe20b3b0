-- ===== src/Execution/Tests.antt =====
-- Runs of the routing and the sharding, and their theorems at concrete inputs.
use quant_dss.Base.{ℕ, ◌≡◌, refl, ◌↔◌, true, false, none, some, String}
use quant_dss.Execution.Mode.{
  AutoTradeConfig, IsCleared, to_broker, to_paper, parse_mode, get_mode, should_execute,
  route_execution, route_execution-broker_iff,
}

abbrev asks_live : AutoTradeConfig
asks_live = record { enabled = true; mode = some "Live" }

unlocked_is_paper : route_execution false (some asks_live) none ≡ some to_paper
unfolding route_execution should_execute get_mode parse_mode
unlocked_is_paper = refl

route_execution-broker_iff_example :
    (route_execution true (some asks_live) (some false) ≡ some to_broker)
    ↔ ((c : AutoTradeConfig) × (some asks_live ≡ some c) × IsCleared true c (some false))
route_execution-broker_iff_example = route_execution-broker_iff true (some asks_live) (some false)

abbrev toy_hash : String → ℕ
toy_hash symbol = 14
