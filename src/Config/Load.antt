-- ===== src/Config/Load.antt =====
-- When Load succeeds.
use company_service.Common.{ℕ, ◌≡◌, ◌≢◌, ◌↔◌, arith, String, eq_iff}
use company_service.Action.{ok}
use company_service.Config.{Config, loaded_config, load}

-- Load succeeds exactly if DATABASE_URL and JWT_SECRET are set, and then gives the loaded values.
pub load_iff :
    (float_part : (f unit k : ℕ) → ℕ) (getenv : String → String) (cfg : Config)
    → (load float_part getenv ≡ ok cfg) ↔ (
        (getenv "DATABASE_URL" ≢ "")
        × (getenv "JWT_SECRET" ≢ "")
        × (cfg ≡ loaded_config float_part getenv))
unfolding load loaded_config
load_iff float_part getenv cfg =
    ground (arith, eq_iff (getenv "DATABASE_URL") "", eq_iff (getenv "JWT_SECRET") "")
