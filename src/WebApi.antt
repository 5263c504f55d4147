-- ===== src/WebApi.antt =====
-- webapi/http_api.py: `RequestHandler` with the providers that node.py gives it, the snapshots of the
-- state worker. The HTTP library of Python, which calls it and writes its response, is left out.
pub mod Laws
pub mod Server
pub mod Faults
use distributed_sensor_hub.Base.{
  ℕ, String, Option, none, some, List, [], ◌∷◌, ◌++◌, ◌==◌, string_eq, if◌then◌else◌,
}
use distributed_sensor_hub.Base.Dict.{Dict}
use distributed_sensor_hub.Base.Lists.{length}
use distributed_sensor_hub.Base.Result.{Result, ok, raise}
use distributed_sensor_hub.State.Publisher.{meta_value}
use distributed_sensor_hub.State.Record.{Record}
use distributed_sensor_hub.State.Worker.{Worker, Snapshot, get_state_snapshot, get_updates_snapshot}
use distributed_sensor_hub.Value.{Value, str, obj, Fields, end, field, of_int}

-- A response: `content_length` is the header of that name, a number in decimal; `headers` are the others.
pub record Response : Type 0 where
  pub status : ℕ
  pub headers : List (String × String)
  pub content_length : Option ℕ
  pub body : List ℕ

-- `_send_cors_headers`
abbrev pub cors_headers : List (String × String)
cors_headers =
    ("Access-Control-Allow-Origin", "*")
    ∷ ("Access-Control-Allow-Methods", "GET, OPTIONS")
    ∷ ("Access-Control-Allow-Headers", "Content-Type")
    ∷ []

abbrev pub empty_response : ℕ → Response
empty_response status = record {
  status = status;
  headers = cors_headers;
  content_length = none;
  body = [];
}

-- `do_OPTIONS`
abbrev pub do_options : Response
do_options = empty_response 204

-- The dict of a record.
unfoldable pub record_value : Record → Value
record_value r = obj (
    field "value" r.value (
      field "ts_ms" (of_int r.ts_ms)
        (field "origin" (str r.origin) (field "meta" (meta_value r.meta) end))))

unfoldable pub records_fields : Dict String Record → Fields
records_fields [] = end
records_fields ((k, r) ∷ d) = field k (record_value r) (records_fields d)

-- A snapshot as the JSON library sees it.
unfoldable pub snapshot_fields : Snapshot → Fields
snapshot_fields [] = end
snapshot_fields ((node_id, d) ∷ view) =
    field node_id (obj (records_fields d)) (snapshot_fields view)

-- The end of `_handle_state` and `_handle_updates`, on the JSON of the snapshot, or on what `json.dumps` raises.
unfoldable pub answer : Result (List ℕ) → Response
answer (raise e) = empty_response 500
answer (ok payload) = record {
  status = 200;
  headers = cors_headers ++ (("Content-Type", "application/json") ∷ []);
  content_length = some (length payload);
  body = payload;
}

-- `dumps` is `json.dumps` with the encoding. It may raise, as on a value that is nested too deeply.
module _ (dumps : Value → Result (List ℕ)) where
  -- `_handle_updates`: the updates are taken before they are written as JSON, so they are lost where that fails.
  unfoldable pub handle_updates : Worker → Worker × Response
  handle_updates w =
      let (w', view) = get_updates_snapshot w in (w', answer (dumps (obj (snapshot_fields view))))

  -- `do_GET`
  unfoldable pub do_get : String → Worker → Worker × Response
  unfolding handle_updates
  do_get path w =
      if path == "/api/state"
      then (w, answer (dumps (obj (snapshot_fields (get_state_snapshot w)))))
      else if path == "/api/updates"
      then handle_updates w
      else (w, empty_response 404)
