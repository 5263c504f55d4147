-- ===== src/Protocol/Message.antt =====
-- protocol/message_types.py and protocol/message.py. The JSON text of a value is the codec's, a
-- parameter; bytes are numbers.
use distributed_sensor_hub.Base.{
  ℕ, String, Option, none, some, List, ◌==◌, string_eq, if◌then◌else◌,
}
use distributed_sensor_hub.Base.Int.{ℤ}
use distributed_sensor_hub.Base.Result.{Result, ok, raise, value_error}
use distributed_sensor_hub.Value.{
  Value, null, int, str, obj, Fields, end, field, PyInt, of_int, as_int, as_str, as_dict, get,
  get_or, or_value,
}

pub data MessageType : Type 0 where
  join_request peer_list ping pong sensor_update gossip_state : MessageType
  full_sync_request full_sync_response error ack : MessageType

-- `msg_type.value`
unfoldable pub type_name : MessageType → String
type_name join_request = "JOIN_REQUEST"
type_name peer_list = "PEER_LIST"
type_name ping = "PING"
type_name pong = "PONG"
type_name sensor_update = "SENSOR_UPDATE"
type_name gossip_state = "GOSSIP_STATE"
type_name full_sync_request = "FULL_SYNC_REQUEST"
type_name full_sync_response = "FULL_SYNC_RESPONSE"
type_name error = "ERROR"
type_name ack = "ACK"

-- `MessageType(s)` for a text; `none` is its `ValueError`.
unfoldable pub named_type : String → Option MessageType
named_type s =
    if s == "JOIN_REQUEST"
    then some join_request
    else if s == "PEER_LIST"
    then some peer_list
    else if s == "PING"
    then some ping
    else if s == "PONG"
    then some pong
    else if s == "SENSOR_UPDATE"
    then some sensor_update
    else if s == "GOSSIP_STATE"
    then some gossip_state
    else if s == "FULL_SYNC_REQUEST"
    then some full_sync_request
    else if s == "FULL_SYNC_RESPONSE"
    then some full_sync_response
    else if s == "ERROR"
    then some error
    else if s == "ACK"
    then some ack
    else none

-- `MessageType(x)`: no member has a value that is not a text.
unfoldable pub message_type : Value → Option MessageType
unfolding named_type
message_type x = elim (as_str x) [ none ↦ none | some s ↦ named_type s ]

pub record Message : Type 0 where
  pub msg_type : MessageType
  pub sender_id : String
  pub payload : Fields
  pub timestamp : PyInt

-- `timestamp if timestamp is not None else self._now_ms()`
unfoldable pub or_now : Value → ℤ → Value
or_now null now = int now
or_now timestamp now = timestamp

-- `__init__` with `_validate`, at the time `now` in milliseconds.
unfoldable pub init : MessageType → Value → Value → Value → ℤ → Result Message
init msg_type sender_id payload timestamp now = elim (as_str sender_id) [
  | none ↦ raise value_error
  | some sender ↦ elim (as_dict (or_value payload (obj end))) [
    | none ↦ raise value_error
    | some fields ↦ elim (as_int (or_now timestamp now)) [
      | none ↦ raise value_error
      | some time ↦
          ok
            (record { msg_type = msg_type; sender_id = sender; payload = fields; timestamp = time })
    ]
  ]
]

-- What `Message(msg_type=…, sender_id=…, payload={…})` gives for a text and a dict.
abbrev pub new_message : MessageType → String → Fields → ℤ → Message
new_message msg_type sender_id payload now = record {
  msg_type = msg_type;
  sender_id = sender_id;
  payload = payload;
  timestamp = PyInt.whole now;
}

-- `to_dict`
unfoldable pub to_dict : Message → Fields
to_dict m = field "type" (str (type_name m.msg_type)) (
    field "sender_id" (str m.sender_id)
      (field "timestamp" (of_int m.timestamp) (field "payload" (obj m.payload) end)))

-- The second half of `from_json`, from the test of `sender_id`.
unfoldable pub from_sender : MessageType → Value → Value → Value → ℤ → Result Message
from_sender msg_type null payload timestamp now = raise value_error
from_sender msg_type sender_id payload timestamp now = init msg_type sender_id payload timestamp now

-- The tests of `type`.
unfoldable pub from_type : Value → Value → Value → Value → ℤ → Result Message
from_type null sender_id payload timestamp now = raise value_error
from_type type_str sender_id payload timestamp now = elim (message_type type_str) [
  | none ↦ raise value_error
  | some msg_type ↦ from_sender msg_type sender_id payload timestamp now
]

-- `from_json`
unfoldable pub from_json : Value → ℤ → Result Message
unfolding from_type from_sender
from_json raw now = elim (as_dict raw) [
  | none ↦ raise value_error
  | some fs ↦
      from_type (get "type" fs) (get "sender_id" fs) (get_or "payload" (obj end) fs)
        (get "timestamp" fs) now
]

-- Python's `json` with UTF-8. `loads` gives `none` where decoding raises, always a `ValueError`.
pub record Codec : Type 0 where
  pub dumps : Value → List ℕ
  pub loads : List ℕ → Option Value

module _ (codec : Codec) where
  -- `encode`, `to_bytes`
  unfoldable pub encode : Message → List ℕ
  encode m = codec.dumps (obj (to_dict m))

  -- `decode`
  unfoldable pub decode : List ℕ → ℤ → Result Message
  decode bytes now = elim (codec.loads bytes) [
    | none ↦ raise value_error
    | some raw ↦ from_json raw now
  ]
