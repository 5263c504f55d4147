-- ===== src/Tests/Replication.antt =====
-- A reading's way from one node to another, at a concrete input.
use mathlib.Core.Path.{subst}
use distributed_sensor_hub.Base.{
  ◌≡◌, ◌≢◌, refl, ap, sym, ◌∙◌, ℕ, inl, inr, String, true, false, some, List, [], ◌∷◌, ◌++◌, ◌<◌,
  arith, ◌==◌, string_eq,
}
use distributed_sensor_hub.Base.Int.{pos, ℤ}
use distributed_sensor_hub.Base.Dict
use distributed_sensor_hub.Base.Lists.{length}
use distributed_sensor_hub.Base.Text.{Free}
use distributed_sensor_hub.Base.Dict.{lookup_cases, lookup-nil}
use distributed_sensor_hub.Replication.Hop.{queued, take_pending, connection_loop-publish_once}
use distributed_sensor_hub.Replication.Messages.{local_messages, round_messages}
use distributed_sensor_hub.State.Invariant.{IsValid, init-IsValid, merge_update-IsValid}
use distributed_sensor_hub.State.Record.{Record}
use distributed_sensor_hub.State.Snapshot.{ColonFreeOrigins}
use distributed_sensor_hub.Networking.Client.{TcpClient, new_client, drain}
use distributed_sensor_hub.Networking.Framing.{frame, pack}
use distributed_sensor_hub.Networking.Link.{
  receive_frame, encode_all, dispatch_all, connection_loop-drain,
}
use distributed_sensor_hub.Networking.Server.{Arrival, bytes, connection_loop}
use distributed_sensor_hub.Networking.Server.Frames.{Fit}
use distributed_sensor_hub.Networking.Server.Recv.{content}
use distributed_sensor_hub.Protocol.Dispatcher.{Dispatcher}
use distributed_sensor_hub.Protocol.Message.{Message, Codec, to_dict, encode}
use distributed_sensor_hub.Protocol.Setup.{Node, Clock, registered, setup_protocol-registered}
use distributed_sensor_hub.State.Publisher.{update_message, publish_once}
use distributed_sensor_hub.State.Publisher.Delivery.{worker_of}
use distributed_sensor_hub.State.Publisher.Publishing.{local_payloads, publish_once-Gains}
use distributed_sensor_hub.State.Worker.{
  Worker, init, merge_update, global_id, group, merge_record, check_update, store, normalize_meta,
  shown_origin,
}
use distributed_sensor_hub.Value.{obj, get_or}
use distributed_sensor_hub.Value.Key.{text}
use distributed_sensor_hub.Tests.Membership.{
  World, send, discovered, quiet, table_a, peer_b, table_a-IsValid, b-there,
}
use distributed_sensor_hub.Tests.State.{first, first_record}

abbrev sensor : String
sensor = "temp"

-- The reading that the node "a" publishes.
abbrev pub published : Message
published = update_message "a" (global_id "a" "temp") first_record (pos 5)

abbrev pub codec : Codec
codec = record { dumps = λ v. 7 ∷ []; loads = λ b. some (obj (to_dict published)) }

abbrev pub clock : Clock World
clock = record { now = λ s. 7; now_ms = λ s. pos 7; rounds = λ s i. i }

abbrev pub node_b : Node World
node_b = record {
  table = record { self_node_id = "b"; peers = [] };
  worker = init "b";
  world = quiet;
}

abbrev pub dispatcher : Dispatcher (Node World)
dispatcher = registered clock send "b" (some discovered) true

pub a-Free : Free b':' "a"
a-Free = ((λ e. absurd (omega arith)), tt)

temp-named : ◌≢◌ {A = String} "temp" ""
unfolding string_eq
temp-named h = let e : true ≡ false = ap (λ s. s == "temp") h in absurd (cc)

a-named : ◌≢◌ {A = String} "a" ""
unfolding string_eq
a-named h = let e : true ≡ false = ap (λ s. s == "a") h in absurd (cc)

abbrev messages : List Message
messages = published ∷ published ∷ []

-- The two frames, cut within the second header.
abbrev arrivals : List Arrival
arrivals = bytes (0 ∷ 0 ∷ 0 ∷ 1 ∷ 7 ∷ 0 ∷ 0 ∷ []) ∷ bytes (0 ∷ 1 ∷ 7 ∷ []) ∷ []

connection_loop-drain_example :
    connection_loop 16 (receive_frame codec (λ n. pos 9) dispatcher) 3 arrivals node_b
    ≡ some (dispatch_all dispatcher messages node_b)
unfolding encode_all encode drain frame pack content
connection_loop-drain_example =
    connection_loop-drain codec (λ n. pos 9) dispatcher 8 16 messages 3 arrivals node_b
      (omega arith) (omega arith, (omega arith, tt)) (omega arith, (omega arith, tt))
      (refl, (refl, tt)) tt refl (omega arith)

abbrev pub client : TcpClient
client =
    new_client
      (record { max_frame_size = 16; backoff_initial = 500; backoff_max = 30000; linear = false })

abbrev worker_a : Worker
worker_a = (merge_update (init "a") first).0

worker_a-id : worker_a.node_id ≡ "a"
unfolding merge_update merge_record check_update store string_eq normalize_meta get_or Dict.lookup
    Dict.insert
worker_a-id = refl

small :
    Fit client.settings.max_frame_size
      (local_payloads codec "a" (λ i. pos 5) 0 (group "a" worker_a.updates_replication []))
unfolding merge_update merge_record check_update store string_eq normalize_meta get_or Dict.lookup
    Dict.insert group shown_origin global_id local_payloads encode
small = (omega arith, tt)

worker_a-IsValid : IsValid worker_a
worker_a-IsValid = merge_update-IsValid first (init-IsValid "a")

worker_a-Free : Free b':' worker_a.node_id
worker_a-Free = subst (Free b':') (sym worker_a-id) a-Free

worker_a-pending : worker_a.updates_replication ≡ ("temp", first_record) ∷ []
unfolding merge_update merge_record check_update store string_eq normalize_meta get_or Dict.lookup
    Dict.insert
worker_a-pending = refl

worker_a-ColonFree : ColonFreeOrigins worker_a.updates_replication
worker_a-ColonFree k r h =
    elim (lookup_cases "temp" k r first_record [] (ap (Dict.lookup k) (sym worker_a-pending) ∙ h)) [
      | inl (_, same) ↦ subst (λ x. Free b':' x.origin) same a-Free
      | inr (_, later) ↦ absurd (ground (arith, lookup-nil {V = Record} k))
    ]

abbrev pub tick : ℕ → ℤ
tick i = pos 5

worker_a-queued : queued tick worker_a [] ≡ published ∷ []
unfolding round_messages local_messages group merge_update check_update string_eq merge_record
    Dict.lookup store Dict.insert shown_origin normalize_meta get_or
worker_a-queued = refl

held : (worker_of client (text "b") peer_b).queue ≡ encode_all codec []
unfolding encode_all Dict.lookup
held = refl

-- The frame of the one message, in two segments.
abbrev one_frame : List Arrival
one_frame = bytes (0 ∷ 0 ∷ 0 ∷ []) ∷ bytes (1 ∷ 7 ∷ []) ∷ []

worker_a-payloads :
    local_payloads codec worker_a.node_id tick 0
      (group worker_a.node_id worker_a.updates_replication [])
    ≡ (7 ∷ []) ∷ []
unfolding merge_update merge_record check_update store string_eq normalize_meta get_or Dict.lookup
    Dict.insert group shown_origin global_id local_payloads encode
worker_a-payloads = refl

queue_after :
    (worker_of
      (publish_once codec tick worker_a.node_id table_a worker_a client).1
      (text "b")
      peer_b).queue
    ≡ (7 ∷ []) ∷ []
unfolding encode_all
queue_after =
    let (gains, _, _, _) =
      publish_once-Gains codec worker_a.node_id tick table_a worker_a client (text "b") peer_b refl
        table_a-IsValid b-there (rw worker_a-payloads (omega arith, tt)) in
    ap (λ x. x.queue) gains.1
    ∙ ap ((worker_of client (text "b") peer_b).queue ++◌) worker_a-payloads
    ∙ ap (λ q. q ++ ((7 ∷ []) ∷ [])) held

one_frame-content :
    content one_frame
    ≡ (drain client.settings.max_frame_size
        (worker_of
          (publish_once codec tick worker_a.node_id table_a worker_a client).1
          (text "b")
          peer_b).queue
        []
        []).1
unfolding drain content frame pack
one_frame-content = rw queue_after refl

pub one_Fit : Fit 16 (encode_all codec (published ∷ []))
unfolding encode_all encode
one_Fit = (omega arith, tt)

one_length : length (encode_all codec (published ∷ [])) < 3
unfolding encode_all
one_length = omega arith

connection_loop-publish_once_example :
    (s : Node World) × (connection_loop 16
        (receive_frame codec (λ n. pos 9) dispatcher)
        3
        one_frame
        node_b
      ≡ some s)
    × ((j : String)
        → Dict.lookup j s.worker.state
          ≡ take_pending worker_a.node_id
              (Dict.lookup j worker_a.updates_replication)
              (Dict.lookup j (dispatch_all dispatcher [] node_b).worker.state))
connection_loop-publish_once_example =
    connection_loop-publish_once codec (λ n. pos 9) clock send "b" (some discovered) dispatcher
      node_b tick worker_a table_a client (text "b") peer_b [] 16 3 one_frame
      (setup_protocol-registered clock send "b" (some discovered) true) worker_a-IsValid
      worker_a-Free worker_a-ColonFree table_a-IsValid b-there held (rw worker_a-queued one_Fit)
      (rw worker_a-queued one_Fit) (rw worker_a-queued (refl, tt)) (omega arith) tt
      one_frame-content (rw worker_a-queued one_length)
