-- ===== src/Http.antt =====
-- What an HTTP client of the services sees.
use stpp_connector.Base.{ℕ, Option, Text}
use stpp_connector.Json.{Value}

-- What an HTTP request comes to: no response (httpx.HTTPError), or a status with the JSON of the
-- body, `none` where the body is no JSON.
pub data Response : Type 0 where
  no_response : Text → Response
  response : ℕ → Option Value → Response
