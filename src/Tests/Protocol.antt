-- ===== src/Tests/Protocol.antt =====
-- Runs of the message model (protocol/message.py), and its theorems at them.
use distributed_sensor_hub.Base.{◌≡◌, refl, some, [], ◌∷◌, string_eq}
use distributed_sensor_hub.Base.Int.{pos}
use distributed_sensor_hub.Base.Result.{value_error, ok, raise}
use distributed_sensor_hub.Protocol.Message.{
  Message, Codec, sensor_update, new_message, to_dict, from_json, encode, decode,
}
use distributed_sensor_hub.Protocol.RoundTrip.{
  decode-encode, Accepts, from_json-Accepts, from_json-to_dict, from_json-raise,
}
use distributed_sensor_hub.Value.{int, obj, field, end, get_or}

abbrev message : Message
message = new_message sensor_update "a" (field "value" (int (pos 20)) end) (pos 5)

-- A codec that knows one text.
abbrev codec : Codec
codec = record { dumps = λ v. 7 ∷ []; loads = λ b. some (obj (to_dict message)) }

decode-encode_example : decode codec (encode codec message) (pos 9) ≡ ok message
decode-encode_example = decode-encode codec message (pos 9) refl

from_json-Accepts_example : Accepts (to_dict message) (pos 9) message
from_json-Accepts_example =
    from_json-Accepts (to_dict message) (pos 9) (from_json-to_dict message (pos 9))

no_type : from_json (obj end) (pos 9) ≡ raise value_error
unfolding from_json get_or
no_type = refl

from_json-raise_example : value_error ≡ value_error
from_json-raise_example = from_json-raise (obj end) (pos 9) no_type
