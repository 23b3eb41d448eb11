-- ===== src/Client.antt =====
-- The one request path of the app: web/src/api/client.ts. The network's answer is a value; `fetch`
-- itself, and `JSON`, are the platform's.
pub mod Laws
use konku.Common.{
  ℕ, Bool, true, false, Text, codes, List, [], ◌∷◌, ◌++◌, Option, none, some, ◌==◌, truthy, str_eq,
  if◌then◌else◌,
}
use konku.Storage.{set_item}

-- `interface ApiErrorBody`.
pub record ApiErrorBody : Type 0 where
  pub code : Text
  pub message : Text
  pub request_id : Option Text

-- What `res.json()` comes to: it throws, or gives a value, whose `error` may be missing.
pub data Json (T : Type 0) : Type 0 where
  throws : Json T
  parsed : Option ApiErrorBody → T → Json T

pub record Response (T : Type 0) : Type 0 where
  pub ok : Bool
  pub status : ℕ
  pub json : Json T
  pub request_id_header : Option Text

pub record ApiError : Type 0 where
  pub code : Text
  pub message : Text
  pub status : ℕ
  pub request_id : Option Text

-- `body.request_id || requestId || undefined`.
unfoldable pub non_empty : Option Text → Option Text
non_empty none = none
non_empty (some s) = if truthy s then some s else none

abbrev pub or_first : Option Text → Option Text → Option Text
or_first none b = b
or_first (some a) b = some a

-- The constructor of `ApiError`.
unfoldable pub api_error : ℕ → ApiErrorBody → Option Text → ApiError
unfolding non_empty
api_error status body header = record {
  code = body.code;
  message = body.message;
  status = status;
  request_id = or_first (non_empty body.request_id) (non_empty header);
}

-- What a request's promise comes to: a value, `undefined`, an `ApiError`, or the error that the
-- body's reading throws.
pub data Outcome (T : Type 0) : Type 0 where
  value : T → Outcome T
  nothing : Outcome T
  failed : ApiError → Outcome T
  unreadable : Outcome T

module _ {T : Type 0} where
  -- `body` after the `try`: the server's own error, or the sentence of the catalog.
  unfoldable pub error_body : Text → Json T → ApiErrorBody
  error_body unexpected throws = record {
    code = codes "internal";
    message = unexpected;
    request_id = none;
  }
  error_body unexpected (parsed none v) = record {
    code = codes "internal";
    message = unexpected;
    request_id = none;
  }
  error_body unexpected (parsed (some e) v) = e

  read_json : Json T → Outcome T
  read_json throws = unreadable
  read_json (parsed e v) = value v

  -- The rest of `request`, once the network has answered.
  unfoldable pub receive : Text → Response T → Outcome T
  unfolding read_json
  receive unexpected res =
      if res.ok
      then (if res.status == 204 then nothing else read_json res.json)
      else failed (api_error res.status (error_body unexpected res.json) res.request_id_header)

-- The second argument of `fetch`.
pub record Init : Type 0 where
  pub method : Option Text
  pub body : Option Text
  pub headers : List (Text × Text)

pub record Fetch : Type 0 where
  pub url : Text
  pub method : Option Text
  pub body : Option Text
  pub credentials : Text
  pub headers : List (Text × Text)

-- `{ ...defaults, ...given }` for the headers.
unfoldable pub with_headers : List (Text × Text) → List (Text × Text) → List (Text × Text)
with_headers defaults [] = defaults
with_headers defaults ((k, v) ∷ given) = with_headers (set_item k v defaults) given

unfoldable pub request : Text → Init → Fetch
unfolding with_headers
request path init = record {
  url = codes "/api" ++ path;
  method = init.method;
  body = init.body;
  credentials = codes "same-origin";
  headers =
      with_headers
        ((codes "Content-Type", codes "application/json")
          ∷ (codes "X-Requested-With", codes "konku")
          ∷ [])
        init.headers;
}

-- A body as a caller gives it: absent, a falsy value, or one with its JSON.
pub data Body : Type 0 where
  absent : Body
  falsy : Text → Body
  json : Text → Body

abbrev pub body_text : Body → Option Text
body_text absent = none
body_text (falsy s) = none
body_text (json s) = some s

-- The members of `api`.
pub data Verb : Type 0 where
  get post patch put del : Verb

abbrev pub verb_method : Verb → Option Text
verb_method get = none
verb_method post = some (codes "POST")
verb_method patch = some (codes "PATCH")
verb_method put = some (codes "PUT")
verb_method del = some (codes "DELETE")

abbrev verb_body : Verb → Body → Option Text
verb_body get b = none
verb_body post b = body_text b
verb_body patch b = body_text b
verb_body put b = body_text b
verb_body del b = body_text b

unfoldable pub api : Verb → Text → Body → Fetch
unfolding request
api verb path b =
    request path (record { method = verb_method verb; body = verb_body verb b; headers = [] })
