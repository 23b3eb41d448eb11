-- ===== src/Client/Laws.antt =====
-- How each answer of the network reaches a caller.
use konku.Common.{ℕ, ◌≡◌, ◌≢◌, refl, false, Text, [], Option, none, some, arith}
use konku.Client.{
  ApiErrorBody, Json, throws, parsed, Response, ApiError, non_empty, or_first, api_error, failed,
  error_body, receive,
}

-- The error that the server wrote in a body, if the body can be read and has one.
abbrev pub server_error : {T : Type 0} → Json T → Option ApiErrorBody
server_error throws = none
server_error (parsed e v) = e

abbrev pub message_of : Text → Option ApiErrorBody → Text
message_of unexpected none = unexpected
message_of unexpected (some e) = e.message

-- An answer that is not ok is always an error with the answer's status, never a value, and says
-- the server's own message where there is one and the catalog's sentence where there is none.
pub receive_error :
    {T : Type 0} (unexpected : Text) (res : Response T)
    → res.ok ≡ false
    → (e : ApiError) × (receive unexpected res ≡ failed e)
      × (e.status ≡ res.status)
      × (e.message ≡ message_of unexpected (server_error res.json))
unfolding receive
receive_error {T = T} unexpected res h = (
  api_error res.status (error_body unexpected res.json) res.request_id_header,
  rw h,
  unfold api_error in refl,
  same res.json,
)
  where
    same :
        (j : Json T)
        → (api_error res.status (error_body unexpected j) res.request_id_header).message
          ≡ message_of unexpected (server_error j)
    same throws = unfold api_error error_body in refl
    same (parsed none v) = unfold api_error error_body in refl
    same (parsed (some e) v) = unfold api_error error_body in refl

-- The request id of an error is never the empty text; it is the body's if that is there, else the
-- header's, and it is missing only when both are missing or empty.
request_id_lem :
    (status : ℕ) (body : ApiErrorBody) (header : Option Text)
    → ((api_error status body header).request_id ≢ some [])
      × ((api_error status body header).request_id
          ≡ or_first (non_empty body.request_id) (non_empty header))
unfolding api_error
request_id_lem status body header = (ground arith, refl)
