-- ===== src/Trace.antt =====
-- matrix/trace/impl/tracer.cpp: the trace of the packets that are delivered, as the calls that the tracer makes
-- of its JSON writer. The wire format of the RPC library and the reading of JSON are parameters.
pub mod Writer
pub mod Document
use Prim.Native.String.{String, ◌++◌ as str_append}
use whirl_matrix.Base.{
  ℕ, ◌%◌, ◌^◌, Bool, true, false, Option, none, some, List, [], ◌∷◌, ◌++◌, if◌then◌else◌,
}
use whirl_matrix.Network.{Frame, PacketType, data_packet, reset_packet, ping_packet}
use whirl_matrix.Trace.Writer.{
  Call, start_array, end_array, start_object, end_object, key, text, int, Json, calls,
}

-- commute::rpc::Method, and what the tracer uses of a request and a response.
pub record Method : Type 0 where
  pub service : String
  pub name : String

pub record Request : Type 0 where
  pub id : ℕ
  pub trace_id : String
  pub method : Method
  pub input : String

pub record Response : Type 0 where
  pub request_id : ℕ
  pub trace_id : String
  pub method : Method
  pub error : ℕ
  pub is_ok : Bool
  pub result : String

-- muesli::Deserialize, which fails by an exception, and rapidjson's Parse.
pub record Formats : Type 0 where
  pub as_request : String → Option Request
  pub as_response : String → Option Response
  pub is_binary : Bool
  pub parse : String → Json

-- The argument of Int has 32 bits.
unfoldable pub write_int : ℕ → Call
write_int n = int (n % 2 ^ 32)

unfoldable pub is_data : Frame → Bool
is_data frame = elim frame.packet.header.type [
  | data_packet ↦ true
  | reset_packet ↦ false
  | ping_packet ↦ false
]

unfoldable pub describe : Method → String
describe method = str_append (str_append method.service ".") method.name

module _ (f : Formats) where
  unfoldable pub write_json : String → List Call
  write_json json = calls (f.parse json)

  unfoldable pub write_message : String → List Call
  unfolding write_json
  write_message message = if f.is_binary then text "<binary>" ∷ [] else write_json message

  unfoldable pub write_response : Response → List Call
  unfolding write_int describe write_message
  write_response rsp =
      key "type"
      ∷ text "commute::rpc::proto::Response"
      ∷ key "id"
      ∷ write_int rsp.request_id
      ∷ key "trace_id"
      ∷ text rsp.trace_id
      ∷ key "method"
      ∷ text (describe rsp.method)
      ∷ key "error"
      ∷ write_int rsp.error
      ∷ (if rsp.is_ok then key "result" ∷ write_message rsp.result else [])

  unfoldable pub write_request : Request → List Call
  unfolding write_int describe write_message
  write_request req =
      key "type"
      ∷ text "commute::rpc::proto::Request"
      ∷ key "id"
      ∷ write_int req.id
      ∷ key "trace_id"
      ∷ text req.trace_id
      ∷ key "method"
      ∷ text (describe req.method)
      ∷ key "arguments"
      ∷ write_message req.input

  unfoldable pub write_payload : String → List Call
  unfolding write_request write_response
  write_payload payload = elim (f.as_request payload) [
    | some req ↦ write_request req
    | none ↦ elim (f.as_response payload) [ some rsp ↦ write_response rsp | none ↦ [] ]
  ]

  -- Deliver: the calls for a frame that is received at `now`.
  unfoldable pub deliver : ℕ → Frame → List Call
  unfolding is_data write_int write_payload
  deliver now frame = elim (is_data frame) [
    | false ↦ []
    | true ↦
        start_object
        ∷ key "event_type"
        ∷ text "message"
        ∷ key "source_host"
        ∷ text frame.header.source_host
        ∷ key "dest_host"
        ∷ text frame.header.dest_host
        ∷ key "send_time"
        ∷ write_int frame.header.send_time
        ∷ key "receive_time"
        ∷ write_int now
        ∷ key "payload"
        ∷ start_object
        ∷ (write_payload frame.packet.message ++ end_object ∷ end_object ∷ [])
  ]

  unfoldable pub deliver_all : List (ℕ × Frame) → List Call
  unfolding deliver
  deliver_all [] = []
  deliver_all ((now, frame) ∷ frames) = deliver now frame ++ deliver_all frames

  -- The constructor opens the array, Finalize closes it.
  unfoldable pub trace : List (ℕ × Frame) → List Call
  unfolding deliver_all
  trace frames = start_array ∷ (deliver_all frames ++ end_array ∷ [])
