-- ===== src/Rancher/Http.antt =====
-- What upstream/rancher-go/client/client.go talks to: HTTP requests with resty, and JSON with gjson.
use balticlsc_platform.Common.{String, ℕ, Bool, List, Option, Exec}
use balticlsc_platform.Common.Dict.{Dict}

pub data Method : Type 0 where
  http_get http_post http_put http_delete : Method

-- A value of a payload: a text, a flag, or an object with a `limit`.
pub data PayloadValue : Type 0 where
  text : String → PayloadValue
  flag : Bool → PayloadValue
  limit : Dict String → PayloadValue

abbrev pub Payload : Type 0
Payload = Dict PayloadValue

-- `token` is the authentication token, if one is set.
pub record Request : Type 0 where
  pub method : Method
  pub url : String
  pub token : Option String
  pub payload : Option Payload

pub record Response : Type 0 where
  pub status_code : ℕ
  pub body : String

abbrev pub Transport : Type 0 → Type 0
Transport W = Request → Exec W Response

-- gjson: `get_path` of a text, `get` of a result, and what a result is read as. `entries` is what
-- `ForEach` visits.
pub record Gjson (J : Type 0) : Type 0 where
  pub get_path : String → String → J
  pub get : String → J → J
  pub string : J → String
  pub array : J → List J
  pub entries : J → List (J × J)
