-- ===== src/Protocol/RoundTrip.antt =====
-- `Message.from_json` of protocol/message.py against `to_dict`, and what it accepts.
use distributed_sensor_hub.Base.{◌≡◌, refl, ap, ◌∙◌, some, arith, String, string_eq}
use distributed_sensor_hub.Base.Int.{ℤ}
use distributed_sensor_hub.Base.Result.{Exception, ok, raise, value_error}
use distributed_sensor_hub.Protocol.Message.{
  MessageType, join_request, peer_list, ping, pong, sensor_update, gossip_state, full_sync_request,
  full_sync_response, error, ack, type_name, message_type, Message, or_now, init, to_dict,
  from_sender, from_type, from_json, Codec, encode, decode,
}
use distributed_sensor_hub.Value.{
  Value, null, str, obj, Fields, end, field, PyInt, whole, flag, of_int, as_int, get, get_or,
  or_value, truthy,
}

-- A type is found again by its name.
pub message_type-type_name : (t : MessageType) → message_type (str (type_name t)) ≡ some t
unfolding message_type type_name string_eq
message_type-type_name join_request = refl
message_type-type_name peer_list = refl
message_type-type_name ping = refl
message_type-type_name pong = refl
message_type-type_name sensor_update = refl
message_type-type_name gossip_state = refl
message_type-type_name full_sync_request = refl
message_type-type_name full_sync_response = refl
message_type-type_name error = refl
message_type-type_name ack = refl

init-Message :
    (t : MessageType) (s : String) (payload : Fields) (time : PyInt) (now : ℤ)
    → init t (str s) (obj payload) (of_int time) now
      ≡ ok (record { msg_type = t; sender_id = s; payload = payload; timestamp = time })
unfolding init or_now truthy
init-Message t s end (whole n) now = refl
init-Message t s end (flag b) now = refl
init-Message t s (field k v fs) (whole n) now = refl
init-Message t s (field k v fs) (flag b) now = refl

pub from_json-to_dict : (m : Message) (now : ℤ) → from_json (obj (to_dict m)) now ≡ ok m
unfolding from_json to_dict get_or string_eq
from_json-to_dict m now =
    rw (message_type-type_name, from_json, from_type)
      (init-Message m.msg_type m.sender_id m.payload m.timestamp now)

-- JSON reads back what it wrote for the message.
abbrev pub Reads : Codec → Message → Type 0
Reads codec m = codec.loads (codec.dumps (obj (to_dict m))) ≡ some (obj (to_dict m))

-- A message that was encoded is decoded to itself, payload and timestamp included, if the JSON
-- library reads back what it wrote for it.
pub decode-encode :
    (codec : Codec) (m : Message) (now : ℤ)
    → Reads codec m
    → decode codec (encode codec m) now ≡ ok m
unfolding decode encode
decode-encode codec m now h = rw (h, decode) (from_json-to_dict m now)

-- Decoding never fails but by a `ValueError`.
init-raise :
    (t : MessageType) (s p time : Value) (now : ℤ) {e : Exception}
    → init t s p time now ≡ raise e
    → e ≡ value_error
unfolding init
init-raise t s p time now h = ground arith

from_sender-raise :
    (t : MessageType) (s p time : Value) (now : ℤ) {e : Exception}
    → from_sender t s p time now ≡ raise e
    → e ≡ value_error
unfolding from_sender
from_sender-raise t null p time now h = ground arith
from_sender-raise t s p time now h = init-raise t _ p time now h

from_type-raise :
    (type s p time : Value) (now : ℤ) {e : Exception}
    → from_type type s p time now ≡ raise e
    → e ≡ value_error
unfolding from_type
from_type-raise null s p time now h = ground arith
from_type-raise type s p time now h = grind (arith, from_sender-raise)

-- Whatever JSON value arrives, `from_json` fails by a `ValueError` or not at all.
pub from_json-raise :
    (raw : Value) (now : ℤ) {e : Exception} → from_json raw now ≡ raise e → e ≡ value_error
unfolding from_json
from_json-raise (obj fs) now h = from_type-raise _ _ _ _ now h
from_json-raise raw now h = ground arith

-- What `from_json` takes for the message `m`.
pub record Accepts (fs : Fields) (now : ℤ) (m : Message) : Type 0 where
  pub named : message_type (get "type" fs) ≡ some m.msg_type
  pub sender : get "sender_id" fs ≡ str m.sender_id
  pub payload : or_value (get_or "payload" (obj end) fs) (obj end) ≡ obj m.payload
  pub timestamp : as_int (or_now (get "timestamp" fs) now) ≡ some m.timestamp

init-Accepts :
    (t : MessageType) (s p time : Value) (now : ℤ) {m : Message}
    → init t s p time now ≡ ok m
    → (t ≡ m.msg_type)
      × (s ≡ str m.sender_id)
      × (or_value p (obj end) ≡ obj m.payload)
      × (as_int (or_now time now) ≡ some m.timestamp)
unfolding init
init-Accepts t s p time now h = ground arith

from_sender-Accepts :
    (t : MessageType) (s p time : Value) (now : ℤ) {m : Message}
    → from_sender t s p time now ≡ ok m
    → init t s p time now ≡ ok m
unfolding from_sender
from_sender-Accepts t null p time now h = cc
from_sender-Accepts t s p time now h = h

from_type-Accepts :
    (type s p time : Value) (now : ℤ) {m : Message}
    → from_type type s p time now ≡ ok m
    → (t : MessageType) × (message_type type ≡ some t) × (from_sender t s p time now ≡ ok m)
unfolding from_type
from_type-Accepts null s p time now h = absurd (cc)
from_type-Accepts type s p time now h = ground arith

-- A message that `from_json` accepts has a known type, a text for its sender, a dict for its payload
-- (any false value counts as the empty one) and a whole number for its time (`now` where it has none).
pub from_json-Accepts :
    (fs : Fields) (now : ℤ) {m : Message} → from_json (obj fs) now ≡ ok m → Accepts fs now m
unfolding from_json
from_json-Accepts fs now h =
    let (t, named, rest) = from_type-Accepts _ _ _ _ now h in
    let (kind, sender, payload, time) =
      init-Accepts t _ _ _ now (from_sender-Accepts t _ _ _ now rest) in
    record { named = named ∙ ap some kind; sender = sender; payload = payload; timestamp = time }
