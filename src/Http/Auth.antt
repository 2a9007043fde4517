-- ===== src/Http/Auth.antt =====
-- middleware.go: AuthMiddleware.
pub mod Bearer
use Prim.Native.Char.{Char, code}
use Prim.Native.String.{String, [], ◌∷◌}
use company_service.Common.{
  ℕ, Bool, true, false, not, ◌||◌, Option, none, some, ◌==◌, nat_eq, if◌then◌else◌,
}
use company_service.Common.Text.{trim_space}
use company_service.Errors.{GoError}
use company_service.Action.{Result, ok, err}
use company_service.Json.{equal_fold}
use company_service.Http.{Response, error_response, write_json}
use company_service.Http.Handlers.{Request, Handler}
use mathlib.Core.List

-- `strings.SplitN(s, " ", 2)`: the text before the first space and the text behind it, where there
-- is one.
unfoldable pub split_at_space : String → Option (String × String)
split_at_space [] = none
split_at_space (c ∷ s) =
    let rest = split_at_space s in
    if nat_eq (code c) 0x20
    then some ("", s)
    else elim rest [ none ↦ none | some (before, behind) ↦ some (c ∷ before, behind) ]

unfoldable pub bearer_token : String → String
bearer_token header = if header == "" then "" else elim (split_at_space header) [
  | none ↦ ""
  | some (scheme, rest) ↦ if not (equal_fold scheme "Bearer") then "" else trim_space rest
]

abbrev pub unauthorized : String → Response
unauthorized message = record { status = 401; payload = some (error_response message List.[]) }

module _ {S C : Type 0} (validate : String → Result C) where
  -- AuthMiddleware(validator)(next)
  unfoldable pub auth_middleware : Handler S → Handler S
  auth_middleware next r s =
      if bearer_token r.authorization == ""
      then (unauthorized "missing bearer token", s)
      else elim (validate (bearer_token r.authorization)) [
        | err e ↦ (unauthorized "invalid bearer token", s)
        | ok claims ↦ next r s
      ]
