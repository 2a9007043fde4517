-- ===== src/Sample/Setting.antt =====
-- The concrete machine, service, worlds and requests on which the use cases are run.
use company_service.Common.{ℕ, ◌+◌, String, true, none, some, List, [], ◌∷◌}
use company_service.Common.Int.{pos}
use company_service.Errors.{GoError, error_text}
use company_service.Domain.{Company, local}
use company_service.Application.{CreateInput, PatchInput}
use company_service.Service.{Env, Service}
use company_service.Postgres.{Machine, World}
use company_service.Wiring.{app_env, app_service}
use company_service.Wiring.Invariant.{Call, create, patch, delete}
use company_service.Sample.Memory.{Tables, memory}
use company_service.Sample.Texts.{unary}
use Prim.Native.String.{◌++◌}

-- A clock that stands, and identifiers that are counted.
abbrev pub counter : Machine
counter = record {
  State = ℕ;
  time_now = λ n. (record { instant = 12; location = local }, n);
  uuid_new = λ n. (n, n + 1);
}

abbrev pub texts : GoError → String
texts = error_text "no rows in result set" (λ pg_code constraint_name. "ERROR: " ++ pg_code)

abbrev pub env : Env (World Tables ℕ)
env = app_env memory counter unary texts

abbrev pub service : Service (World Tables ℕ)
service = app_service memory counter unary texts

abbrev pub no_tables : Tables
no_tables = record { companies = []; outbox = []; clock = 0 }

abbrev pub fresh : World Tables ℕ
fresh = record { committed = no_tables; working = no_tables; machine = 1 }

abbrev pub acme_input : CreateInput
acme_input = record {
  id = 7;
  name = " Acme ";
  description = "Anvils";
  amount_of_employees = pos 3;
  registered = true;
  company_type = "NonProfit";
}

abbrev pub renaming : PatchInput
renaming = record {
  name = some "Acme Ltd";
  description = none;
  amount_of_employees = none;
  registered = none;
  company_type = none;
}

abbrev pub calls : List Call
calls = create acme_input ∷ patch 7 renaming ∷ create acme_input ∷ delete 7 ∷ []

-- One company, with the times that PostgreSQL gives back.
abbrev pub acme : Company
acme = record {
  id = 7;
  name = "Acme";
  description = "Anvils";
  amount_of_employees = pos 3;
  registered = true;
  company_type = "NonProfit";
  created_at = record { instant = 0; location = local };
  updated_at = record { instant = 0; location = local };
}

abbrev pub with_acme : World Tables ℕ
with_acme = record fresh { committed = record no_tables { companies = acme ∷ [] } }
