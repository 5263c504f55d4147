-- ===== src/Replication/Loop.antt =====
-- What the thread of state/sensor_update_publisher.py has queued for a peer while it ran.
use mathlib.Core.List.Memᴰ
use mathlib.Core.List.{Memᴰ, append-nil, append_assoc}
use mathlib.Core.Path.{subst}
use distributed_sensor_hub.Base.{
  ℕ, ◌≡◌, refl, sym, ap, ◌∙◌, inl, inr, String, false, some, List, [], ◌∷◌, ◌++◌, arith, string_eq,
}
use distributed_sensor_hub.Base.Int.{ℤ}
use distributed_sensor_hub.Base.Dict
use distributed_sensor_hub.Base.Dict.{lookup-nil}
use distributed_sensor_hub.Base.Text.{Free}
use distributed_sensor_hub.Membership.PeerTable.{Peer, PeerTable}
use distributed_sensor_hub.Membership.PeerTable.Laws as PeerTable
use distributed_sensor_hub.Networking.Client.{TcpClient}
use distributed_sensor_hub.Networking.Client.Delivery.{Fit-prefix, Fit-suffix}
use distributed_sensor_hub.Networking.Link.{encode_all, encode_all-append}
use distributed_sensor_hub.Networking.Server.Frames.{Fit}
use distributed_sensor_hub.Protocol.Message.{Message, Codec}
use distributed_sensor_hub.Replication.Messages.{
  Carries, round_messages, round_messages_complete, local_payloads-encode_all,
}
use distributed_sensor_hub.Replication.Network.Moves.{Moves, deliver-Moves}
use distributed_sensor_hub.State.Convergence.{Writes, deliver}
use distributed_sensor_hub.State.Invariant.{IsValid, init-IsValid, pop_replication_updates-IsValid}
use distributed_sensor_hub.State.Publisher.{publish_once}
use distributed_sensor_hub.State.Publisher.Delivery.{Gains, Gains-nil, Gains-append}
use distributed_sensor_hub.State.Publisher.Loop.{SensorUpdatePublisher, new_publisher, Turn, run}
use distributed_sensor_hub.State.Publisher.Publishing.{publish_once-Gains, publish_once-worker}
use distributed_sensor_hub.State.Record.{Record}
use distributed_sensor_hub.State.Snapshot.{ColonFreeOrigins}
use distributed_sensor_hub.State.Worker.{Worker, init, group, pop_replication_updates}
use distributed_sensor_hub.Value.Key.{Key, key_eq}

-- The messages that the thread queues, in order.
unfoldable pub sent_messages : List Turn → Worker → List Message
sent_messages [] w = []
sent_messages (turn ∷ turns) w =
    let w' = deliver w turn.updates in
    round_messages turn.clock w' ++ sent_messages turns (pop_replication_updates w').0

-- The state worker after the turns.
unfoldable run_worker : List Turn → Worker → Worker
run_worker [] w = w
run_worker (turn ∷ turns) w = run_worker turns (pop_replication_updates (deliver w turn.updates)).0

-- No turn stops the thread.
abbrev pub Going : List Turn → Type 0
Going [] = Unit
Going (turn ∷ turns) = (turn.stops ≡ false) × Going turns

-- No update of a turn comes from an origin with a colon.
abbrev pub Named : List Turn → Type 0
Named [] = Unit
Named (turn ∷ turns) =
    ((k : String) (r : Record) → Writes turn.updates k r → Free b':' r.origin) × Named turns

popped_id : (w : Worker) → (pop_replication_updates w).0.node_id ≡ w.node_id
unfolding pop_replication_updates
popped_id w = refl

module _ (codec : Codec) (t : PeerTable) (p : SensorUpdatePublisher) (k : Key) (q : Peer)
    (going : p.stopped ≡ false) (table : PeerTable.IsValid t)
    (there : Dict.lookup k t.peers ≡ some q) where
  publish_once-round_messages :
      (clock : ℕ → ℤ) (w : Worker) (c : TcpClient)
      → w.node_id ≡ p.self_node_id
      → Fit c.settings.max_frame_size (encode_all codec (round_messages clock w))
      → let (w', c') = publish_once codec clock p.self_node_id t w c in
        Gains c k q (encode_all codec (round_messages clock w)) c'
        × (w' ≡ (pop_replication_updates w).0)
  unfolding round_messages
  publish_once-round_messages clock w c same fit =
      let per_node = group w.node_id w.updates_replication [] in
      let payloads = local_payloads-encode_all w.node_id clock codec 0 per_node in
      let (gains, _, _, _) =
        publish_once-Gains codec w.node_id clock t w c k q refl table there (rw payloads fit) in
      (
        subst
            (λ n.
              Gains c k q (encode_all codec (round_messages clock w))
                (publish_once codec clock n t w c).1)
            same
            (subst (λ ps. Gains c k q ps (publish_once codec clock w.node_id t w c).1) payloads
              gains),
        publish_once-worker codec p.self_node_id clock t w c,
      )

  run-going :
      (turn : Turn) (turns : List Turn) (w : Worker) (c : TcpClient)
      → turn.stops ≡ false
      → let (w', c') = publish_once codec turn.clock p.self_node_id t (deliver w turn.updates) c in
        run codec t p (turn ∷ turns) w c ≡ run codec t p turns w' c'
  unfolding run
  run-going turn turns w c on = ground arith

  run-Gains :
      (turns : List Turn) (w : Worker) (c : TcpClient)
      → w.node_id ≡ p.self_node_id
      → Going turns
      → Fit c.settings.max_frame_size (encode_all codec (sent_messages turns w))
      → Gains c k q (encode_all codec (sent_messages turns w)) (run codec t p turns w c).1
        × ((run codec t p turns w c).0 ≡ run_worker turns w)
  unfolding sent_messages encode_all run_worker run
  run-Gains [] w c same on fit = (Gains-nil c k q, refl)
  run-Gains (turn ∷ turns) w c same (on, rest) fit =
      let w' = deliver w turn.updates in
      let popped = (pop_replication_updates w').0 in
      let now = encode_all codec (round_messages turn.clock w') in
      let later = encode_all codec (sent_messages turns popped) in
      let m = c.settings.max_frame_size in
      let both =
        encode_all-append codec (round_messages turn.clock w') (sent_messages turns popped) in
      let fits = subst (Fit m) both fit in
      let id = (deliver-Moves w turn.updates).id ∙ same in
      let (gains, worker) =
        publish_once-round_messages turn.clock w' c id (Fit-prefix m now later fits) in
      let c' = (publish_once codec turn.clock p.self_node_id t w' c).1 in
      let (more, end) =
        run-Gains turns popped c' (popped_id w' ∙ id) rest
          (subst (λ s. Fit s.max_frame_size later) (sym gains.0) (Fit-suffix m now later fits)) in
      let all = run-going turn turns w c on ∙ ap (λ x. run codec t p turns x c') worker in
      (
        subst (λ ps. Gains c k q ps (run codec t p (turn ∷ turns) w c).1) (sym both)
            (subst (λ r. Gains c k q (now ++ later) r.1) (sym all)
              (Gains-append c c' (run codec t p turns popped c').1 k q now later gains more)),
        ap (λ r. r.0) all ∙ end,
      )

-- Nothing waits for the publisher, and what the node holds of its own is among the messages.
record Ready (before : List Message) (w : Worker) : Type 0 where
  pub valid : IsValid w
  pub free : Free b':' w.node_id
  pub colon_free : ColonFreeOrigins w.state
  pub empty : w.updates_replication ≡ []
  pub sent :
      (j : String) (r : Record)
      → Dict.lookup j w.state ≡ some r
      → r.origin ≡ w.node_id
      → (m : Message) × Memᴰ m before × Carries m j r

module _ (before : List Message) (turn : Turn) (w : Worker) (ready : Ready before w)
    (names : (k : String) (r : Record) → Writes turn.updates k r → Free b':' r.origin) where
  moves : Moves turn.updates w (deliver w turn.updates)
  moves = deliver-Moves w turn.updates

  after-IsValid : IsValid (deliver w turn.updates)
  after-IsValid = moves.valid ready.valid

  after_colon_free : ColonFreeOrigins (deliver w turn.updates).state
  after_colon_free k r h = elim (moves.known k r h) [
    | inl old ↦ ready.colon_free k r old
    | inr written ↦ names k r written
  ]

  after_sent :
      (j : String) (r : Record)
      → Dict.lookup j (deliver w turn.updates).state ≡ some r
      → r.origin ≡ (deliver w turn.updates).node_id
      → (m : Message) × Memᴰ m (before ++ round_messages turn.clock (deliver w turn.updates))
        × Carries m j r
  after_sent j r held own = elim (moves.waits j r held) [
    | inl pending ↦
        let (m, here, carries) =
          round_messages_complete turn.clock (deliver w turn.updates) after-IsValid
            (subst (Free b':') (sym moves.id) ready.free)
            (λ k s h. after_colon_free k s (after-IsValid.replication_current k s h)) j r pending
            own in
        (m, Memᴰ.append_right before here, carries)
    | inr (old, _) ↦
        let (m, here, carries) = ready.sent j r old (own ∙ moves.id) in
        (m, Memᴰ.append_left (round_messages turn.clock (deliver w turn.updates)) here, carries)
  ]

  round-Ready :
      Ready
        (before ++ round_messages turn.clock (deliver w turn.updates))
        (pop_replication_updates (deliver w turn.updates)).0
  unfolding pop_replication_updates
  round-Ready = record {
    valid = pop_replication_updates-IsValid after-IsValid;
    free = subst (Free b':') (sym moves.id) ready.free;
    colon_free = after_colon_free;
    empty = refl;
    sent = after_sent;
  }

run_worker-Ready :
    (before : List Message) (turns : List Turn) (w : Worker)
    → Ready before w
    → Named turns
    → Ready (before ++ sent_messages turns w) (run_worker turns w)
unfolding sent_messages run_worker
run_worker-Ready before [] w h names = subst (λ ms. Ready ms w) (sym (append-nil before)) h
run_worker-Ready before (turn ∷ turns) w h (names, rest) =
    let w' = deliver w turn.updates in
    let now = round_messages turn.clock w' in
    subst (λ ms. Ready ms (run_worker turns (pop_replication_updates w').0))
      (append_assoc before now (sent_messages turns (pop_replication_updates w').0))
      (run_worker-Ready (before ++ now) turns (pop_replication_updates w').0
        (round-Ready before turn w h names) rest)

init-Ready : (self : String) → Free b':' self → Ready [] (init self)
init-Ready self free = record {
  valid = init-IsValid self;
  free = free;
  colon_free = λ k r h. absurd (ground (arith, lookup-nil {V = Record} k));
  empty = refl;
  sent = λ j r h own. absurd (ground (arith, lookup-nil {V = Record} j));
}

-- The thread of the publisher over the life of a node, from an empty state on: while nothing stops it, the
-- queue of a peer of the table has gained the messages of all rounds in order and no others, nothing
-- of the worker waits after a round, and every record of its own that the node then holds is
-- among those messages, whatever calls of `merge_update`, its own or others', come between the rounds. No
-- id has a colon, the table is valid, and the messages are within the size limit.
pub run_announces :
    (codec : Codec) (t : PeerTable) (self : String) (interval : ℕ) (turns : List Turn)
    (c : TcpClient) (k : Key) (q : Peer)
    → PeerTable.IsValid t
    → Dict.lookup k t.peers ≡ some q
    → Free b':' self
    → Named turns
    → Going turns
    → Fit c.settings.max_frame_size (encode_all codec (sent_messages turns (init self)))
    → let (w', c') = run codec t (new_publisher self interval) turns (init self) c in
      let ms = sent_messages turns (init self) in
      Gains c k q (encode_all codec ms) c'
      × (w'.updates_replication ≡ [])
      × ((j : String) (r : Record)
          → Dict.lookup j w'.state ≡ some r
          → r.origin ≡ w'.node_id
          → (m : Message) × Memᴰ m ms × Carries m j r)
run_announces codec t self interval turns c k q table there free names on fit =
    let (gains, end) =
      run-Gains codec t (new_publisher self interval) k q refl table there turns (init self) c refl
        on fit in
    let ready =
      subst (Ready (sent_messages turns (init self))) (sym end)
        (run_worker-Ready [] turns (init self) (init-Ready self free) names) in
    (gains, ready.empty, ready.sent)
