-- ===== src/Protocol/Handlers.antt =====
-- protocol/handlers.py: the SENSOR_UPDATE handler bound to a state worker, and the handlers of the types
-- that are not implemented.
use distributed_sensor_hub.Base.{◌≡◌, Option, none, some, arith}
use distributed_sensor_hub.Base.Result.{Exception, not_implemented_error}
use distributed_sensor_hub.Protocol.Message.{Message}
use distributed_sensor_hub.State.Worker.{Worker, Update, nonempty_str, check_update, merge_update}
use distributed_sensor_hub.Value.{str, obj, end, as_int, get, or_value}

-- What `handle_sensor_update` reads from a message.
unfoldable pub sensor_update_args : Message → Update
sensor_update_args m = record {
  sensor_id = get "sensor_id" m.payload;
  value = get "value" m.payload;
  ts_ms = get "ts_ms" m.payload;
  origin = or_value (get "origin" m.payload) (str m.sender_id);
  meta = or_value (get "meta" m.payload) (obj end);
}

-- `handle_sensor_update` of `make_sensor_update_handler`, from its tests on
unfoldable pub merge_if_valid : Worker → Update → Worker
merge_if_valid w u = elim (nonempty_str u.sensor_id) [
  | none ↦ w
  | some sensor_id ↦ elim (nonempty_str u.origin) [
    | none ↦ w
    | some origin ↦ elim (as_int u.ts_ms) [ none ↦ w | some ts_ms ↦ (merge_update w u).0 ]
  ]
]

unfoldable pub handle_sensor_update : Worker → Message → Worker
handle_sensor_update w m = merge_if_valid w (sensor_update_args m)

-- `handle_ping` and the others that raise `NotImplementedError`
unfoldable pub not_implemented : {S : Type 0} → Message → S → S × Option Exception
not_implemented m s = (s, some not_implemented_error)

-- The handler's own tests refuse nothing that `merge_update` would take: it merges what it reads.
pub handle_sensor_update_lem :
    (w : Worker) (m : Message)
    → handle_sensor_update w m ≡ (merge_update w (sensor_update_args m)).0
unfolding handle_sensor_update merge_if_valid merge_update check_update
handle_sensor_update_lem w m = ground arith
