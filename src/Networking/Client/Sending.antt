-- ===== src/Networking/Client/Sending.antt =====
-- `send_json` of networking/tcp_client.py with `_serialize_to_json_bytes`: what it does with any object.
use distributed_sensor_hub.Base.{ℕ, ◌≤◌, ◌<◌, ◌≡◌, Option, none, some, List, arith}
use distributed_sensor_hub.Base.Dict
use distributed_sensor_hub.Base.Lists.{length}
use distributed_sensor_hub.Base.Result.{
  Exception, Result, ok, raise, type_error, key_error, value_error, ◌>>=◌,
}
use distributed_sensor_hub.Networking.Client.{
  TcpClient, PeerWorker, key_of, get_worker, enqueue, enqueue_for, send_json,
}
use distributed_sensor_hub.Protocol.Message.{Message, Codec, encode}
use distributed_sensor_hub.Value.{Value}
use distributed_sensor_hub.Value.Key.{Key, hash, key_eq}

-- What `send_json` is called with: a message or a value that JSON can write, any other object with `to_bytes`, by
-- what that raises or returns (`none` is no bytes), or an object that `json.dumps` raises an exception for.
pub data Sendable : Type 0 where
  message : Message → Sendable
  value : Value → Sendable
  with_to_bytes : Result (Option (List ℕ)) → Sendable
  refused_by_json : Exception → Sendable

-- `_serialize_to_json_bytes`: a TypeError of `json.dumps` becomes another TypeError; any other exception, such
-- as the ValueError for a circular object or a RecursionError, goes on.
unfoldable pub serialize_to_json_bytes : Codec → Sendable → Result (List ℕ)
serialize_to_json_bytes codec (message m) = ok (encode codec m)
serialize_to_json_bytes codec (value v) = ok (codec.dumps v)
serialize_to_json_bytes codec (with_to_bytes (raise e)) = raise e
serialize_to_json_bytes codec (with_to_bytes (ok none)) = raise type_error
serialize_to_json_bytes codec (with_to_bytes (ok (some raw))) = ok raw
serialize_to_json_bytes codec (refused_by_json e) = raise e

-- `send_json`: the look-up comes before the serialisation, and that before the test of the size.
unfoldable pub send_object : Codec → TcpClient → Value → Sendable → Result TcpClient
unfolding key_of get_worker enqueue_for
send_object codec c id object = do
  k ← key_of id
  w ← get_worker c k
  payload ← serialize_to_json_bytes codec object
  enqueue_for c k w payload

-- What `send_json` answers and does to the client in each case.
pub data Sends (c : TcpClient) (id : Value) : Result (List ℕ) → Result TcpClient → Type 0 where
  unhashable : {p : Result (List ℕ)} → hash id ≡ none → Sends c id p (raise type_error)
  unknown :
      (k : Key) {p : Result (List ℕ)}
      → hash id ≡ some k
      → Dict.lookup k c.workers ≡ none
      → Sends c id p (raise key_error)
  refused :
      (k : Key) (w : PeerWorker) (e : Exception)
      → hash id ≡ some k
      → Dict.lookup k c.workers ≡ some w
      → Sends c id (raise e) (raise e)
  too_long :
      (k : Key) (w : PeerWorker) (payload : List ℕ)
      → hash id ≡ some k
      → Dict.lookup k c.workers ≡ some w
      → c.settings.max_frame_size < length payload
      → Sends c id (ok payload) (raise value_error)
  queued :
      (k : Key) (w : PeerWorker) (payload : List ℕ)
      → hash id ≡ some k
      → Dict.lookup k c.workers ≡ some w
      → length payload ≤ c.settings.max_frame_size
      → Sends c id
          (ok payload)
          (ok (record c { workers = Dict.insert k (enqueue payload w) c.workers }))

-- A message goes the way that the rest of the program takes: `send_json` of its bytes.
pub send_object-message :
    (codec : Codec) (c : TcpClient) (id : Value) (m : Message)
    → send_object codec c id (message m) ≡ send_json c id (encode codec m)
unfolding send_object send_json serialize_to_json_bytes key_of get_worker enqueue_for
send_object-message codec c id m = ground arith
