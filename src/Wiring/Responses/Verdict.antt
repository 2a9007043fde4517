-- ===== src/Wiring/Responses/Verdict.antt =====
-- The answers of the handlers that change a company.
use company_service.Common.{ℕ, ◌≡◌}
use company_service.Domain.{Company}
use company_service.Json.{Codec}
use company_service.Http.{Response, company_response, to_company_response, write_json}

-- An error with a status, or a company with a status.
pub data Verdict : Type 0 where
  refused : ℕ → Verdict
  answered : ℕ → Company → Verdict

abbrev pub HasVerdict : Codec → Verdict → Response → Type 0
HasVerdict codec (refused status) response = response.status ≡ status
HasVerdict codec (answered status c) response =
    response ≡ write_json status (company_response (to_company_response codec c))
