-- ===== src/Auth.antt =====
-- `require_user` of services/mcp-server/app/auth.py, which services/integration-api/app/auth.py has
-- as well, and a handler behind it.
use stpp_connector.Base.{Option, none, some, List, [], Text, codes, Result, ok, err}
use stpp_connector.Json.{str, obj, end, field}
use stpp_connector.Http.{Response, response}
use stpp_connector.Dispatch.{User}

-- The claims that are read, as the issuer writes them: texts, and a list of texts. `jwt.decode`
-- requires `sub`.
pub record Claims : Type 0 where
  pub sub : Text
  pub name : Option Text
  pub component : Option Text
  pub roles : Option (List Text)

-- `claims.get(name, default)`
abbrev pub claim_or {ℓ} : {A : Type ℓ} → A → Option A → A
claim_or d none = d
claim_or d (some v) = v

unfoldable pub user_of : Claims → User
user_of claims = record {
  sub = claims.sub;
  name = claim_or [] claims.name;
  component = claim_or [] claims.component;
  roles = claim_or [] claims.roles;
}

-- `unauthorized_handler`
unfoldable pub unauthorized_response : Text → Response
unauthorized_response message = response 401 (
    some (
      obj (
        field (codes "error")
          (obj (
            field (codes "code") (str (codes "unauthorized"))
              (field (codes "message") (str message) end)))
          end)))

-- `decode` stands for `jwt.decode` with the service's secret: the claims, or InvalidTokenError.
module _ (decode : Text → Option Claims) where
  -- The user, or the message of UnauthorizedError.
  unfoldable pub require_user : Option Text → Result Text User
  require_user none = err (codes "missing bearer token")
  require_user (some token) = elim (decode token) [
    | none ↦ err (codes "invalid or expired token")
    | some claims ↦ ok (user_of claims)
  ]

  -- A handler behind `Depends(require_user)`.
  unfoldable pub with_user :
      {W : Type 0} → Option Text → (User → W → Response × W) → W → Response × W
  with_user credentials handler w = elim (require_user credentials) [
    | ok user ↦ handler user w
    | err message ↦ (unauthorized_response message, w)
  ]
