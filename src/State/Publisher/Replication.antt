-- ===== src/State/Publisher/Replication.antt =====
-- One reading on its way from one node to another: what state/sensor_update_publisher.py sends, the
-- SENSOR_UPDATE handler of protocol/handlers.py merges.
use distributed_sensor_hub.Base.{
  ◌≡◌, ◌≢◌, refl, ap, ◌∙◌, String, true, Option, none, some, arith, ◌==◌, string_eq, if◌then◌else◌,
}
use distributed_sensor_hub.Base.Int.{ℤ}
use distributed_sensor_hub.Base.Dict
use distributed_sensor_hub.Base.Result.{ok}
use distributed_sensor_hub.Base.Text.{Free, split_colon}
use distributed_sensor_hub.Protocol.Dispatcher.{Dispatcher, dispatch}
use distributed_sensor_hub.Protocol.Handlers.{
  sensor_update_args, handle_sensor_update, handle_sensor_update_lem,
}
use distributed_sensor_hub.Protocol.Setup.{
  Node, Clock, setup_protocol, intended, sensor_update_handler, setup_protocol_lem,
}
use distributed_sensor_hub.Membership.Handlers.{Effect}
use distributed_sensor_hub.Membership.PeerTable.{Peer}
use distributed_sensor_hub.Protocol.Message.{Message, Codec, encode, decode}
use distributed_sensor_hub.Protocol.RoundTrip.{Reads, decode-encode}
use distributed_sensor_hub.State.Lww.{register, receive, lookup-merge_update}
use distributed_sensor_hub.State.Publisher.{local_id, meta_value, update_message}
use distributed_sensor_hub.State.Record.{Meta, Record}
use distributed_sensor_hub.State.Worker.{
  Worker, Update, global_id, nonempty_str, normalize_meta, check_update,
}
use distributed_sensor_hub.Value.{
  str, obj, end, get_or, or_value, truthy, of_int, as_int, PyInt, whole, flag,
}

local_id-global_id : (o k : String) → Free b':' o → local_id (global_id o k) ≡ k
unfolding local_id global_id
local_id-global_id o k free = rw (split_colon o k free, local_id)

as_int-of_int : (n : PyInt) → as_int (of_int n) ≡ some n
as_int-of_int (whole n) = refl
as_int-of_int (flag b) = refl

nonempty_str-str : (s : String) → s ≢ "" → nonempty_str (str s) ≡ some s
nonempty_str-str s h = ground arith

truthy-str : (s : String) → s ≢ "" → truthy (str s) ≡ true
unfolding truthy
truthy-str s h = ground arith

or_value-meta_value : (m : Meta) → or_value (meta_value m) (obj end) ≡ meta_value m
unfolding meta_value truthy
or_value-meta_value m = refl

pub update_of : String → Record → Update
update_of k r = record {
  sensor_id = str k;
  value = r.value;
  ts_ms = of_int r.ts_ms;
  origin = str r.origin;
  meta = meta_value r.meta;
}

pub sensor_update_args-update_message :
    (self k : String) (r : Record) (now : ℤ)
    → Free b':' self
    → r.origin ≢ ""
    → sensor_update_args (update_message self (global_id self k) r now) ≡ update_of k r
unfolding sensor_update_args update_message get_or string_eq update_of
sensor_update_args-update_message self k r now free named =
    rw (local_id-global_id self k free, truthy-str r.origin named, or_value-meta_value)

normalize_meta-meta_value : (m : Meta) → normalize_meta (meta_value m) ≡ m
unfolding normalize_meta meta_value get_or string_eq
normalize_meta-meta_value m = refl

pub check_update-update_of :
    (k : String) (r : Record) → k ≢ "" → r.origin ≢ "" → check_update (update_of k r) ≡ some (k, r)
unfolding check_update update_of
check_update-update_of k r named known =
    ground (arith, as_int-of_int r.ts_ms, normalize_meta-meta_value r.meta)

merge-update_message :
    (w : Worker) (self k j : String) (r : Record) (now : ℤ)
    → Free b':' self
    → k ≢ ""
    → r.origin ≢ ""
    → Dict.lookup j (handle_sensor_update w (update_message self (global_id self k) r now)).state
      ≡ (if j == k then register (Dict.lookup k w.state) r else Dict.lookup j w.state)
unfolding receive
merge-update_message w self k j r now free named known =
    let m = update_message self (global_id self k) r now in
    ap (λ v. Dict.lookup j v.state) (handle_sensor_update_lem w m)
    ∙ lookup-merge_update w j (sensor_update_args m)
    ∙ ap (receive j (Dict.lookup j w.state))
        (sensor_update_args-update_message self k r now free known)
    ∙ ground (arith, check_update-update_of k r named known)

module _ {S : Type 0} (codec : Codec) (clock : Clock S) (send : String → Message → Effect S)
    (id : String) (discovered : Option (Peer → Effect S)) where
  -- A reading that one node publishes reaches the state of another whole: the message is decoded, its
  -- handler raises nothing, and the sensor's register takes the very record that the first node
  -- holds, value, time, origin and meta data, while every other sensor keeps its record. The first
  -- node's id must have no colon, and JSON must read back what it wrote for this message.
  pub dispatch-update_message :
      (n : Node S) (d : Dispatcher (Node S)) (self k j : String) (r : Record) (now later : ℤ)
      → setup_protocol clock send id discovered true ≡ ok d
      → Reads codec (update_message self (global_id self k) r now)
      → Free b':' self
      → k ≢ ""
      → r.origin ≢ ""
      → let m = update_message self (global_id self k) r now in
        (m' : Message) × (decode codec (encode codec m) later ≡ ok m')
        × ((dispatch d m' n).1 ≡ none)
        × (Dict.lookup j (dispatch d m' n).0.worker.state ≡ (
            if j == k
            then register (Dict.lookup k n.worker.state) r
            else Dict.lookup j n.worker.state))
  unfolding intended sensor_update_handler update_message
  dispatch-update_message n d self k j r now later up reads free named known =
      let m = update_message self (global_id self k) r now in
      let (e, made, routes) = setup_protocol_lem clock send id discovered true in
      let same : d ≡ e = cc in
      let at : dispatch d m n ≡ (record n { worker = handle_sensor_update n.worker m }, none) =
        ap (λ x. dispatch x m n) same ∙ routes m n in
      (
        m,
        decode-encode codec m later reads,
        ap (λ x. x.1) at,
        ap (λ x. Dict.lookup j x.0.worker.state) at
            ∙ merge-update_message n.worker self k j r now free named known,
      )
