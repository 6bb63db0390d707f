-- ===== src/Agent/Stream.antt =====
-- internal/agent/stream.go: what the agent does with a stream that the server opened. The local app is an
-- argument: how the exchange with it ends. The yamux stream carries what is written to the other side.
use liveurl.Prelude.{Bool, List, Text, [], codes, if◌then◌else◌, true, ◌++◌, ◌==◌, ◌∷◌}
use liveurl.Http.{Response}
use liveurl.Replay.{Outcome, answered, read_failed}
use liveurl.Proxy.{Exchange, read_fails, replies}

-- A response stands for its bytes on the wire: the headers of the local app's answer are those that
-- Response.Write puts there, Content-Length included.
-- The local app cannot be dialled, does not take the request, gives no response, or answers. The body of
-- an answer comes in chunks, and may break off.
pub data LocalApp : Type 0 where
  dial_fails request_fails response_fails : LocalApp
  local_replies : Response → List Text → Bool → LocalApp

-- What handleStream writes to the stream: nothing, a response with its body in chunks, to its end or not,
-- or the response of an upgrade and then what the two sides send.
pub data Written : Type 0 where
  nothing : Written
  response : Response → List Text → Bool → Written
  upgrade : Response → Written

abbrev gateway_message : Text
gateway_message = codes "liveurl: could not reach local server" ++ 10 ∷ []

-- The response of `writeBadGateway` without its body, as it is read: with the length of the message.
unfoldable pub bad_gateway : Response
bad_gateway = record {
  status_code = 502;
  header =
      (codes "Content-Type", codes "text/plain; charset=utf-8" ∷ [])
      ∷ (codes "Content-Length", codes "38" ∷ [])
      ∷ [];
  body = [];
}

abbrev pub bad_gateway_chunks : List Text
bad_gateway_chunks = gateway_message ∷ []

-- `handleStream`, once there is a request on the stream.
unfoldable pub handle_stream : LocalApp → Written
unfolding bad_gateway
handle_stream dial_fails = response bad_gateway bad_gateway_chunks true
handle_stream request_fails = response bad_gateway bad_gateway_chunks true
handle_stream response_fails = response bad_gateway bad_gateway_chunks true
handle_stream (local_replies resp chunks complete) =
    if resp.status_code == 101 then upgrade resp else response resp chunks complete

-- The server's side of the stream, for a request of a client: http.ReadResponse, and the copy of the body.
abbrev pub as_exchange : Written → Exchange
as_exchange nothing = read_fails
as_exchange (response resp chunks complete) = replies resp chunks complete
as_exchange (upgrade resp) = replies resp [] true

-- The same for an event that is replayed: the body is discarded.
abbrev pub as_outcome : Written → Outcome
as_outcome nothing = read_failed
as_outcome (response resp chunks complete) = answered resp.status_code
as_outcome (upgrade resp) = answered resp.status_code
