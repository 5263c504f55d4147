-- ===== src/Replication/Safety.antt =====
-- A whole node behind its server: whatever bytes arrive at tcp_server.py, decoded and dispatched to the
-- handlers of protocol/setup.py.
use distributed_sensor_hub.Base.{
  ℕ, ◌<◌, ◌≡◌, refl, sym, ap, ◌∙◌, String, Bool, true, false, Option, some, List, [], ◌∷◌, ◌++◌,
  inl, inr,
}
use distributed_sensor_hub.Base.Int.{ℤ}
use distributed_sensor_hub.Base.Lists.{length}
use distributed_sensor_hub.Base.Result.{ok, Result-cases}
use distributed_sensor_hub.Membership.Handlers.{Effect}
use distributed_sensor_hub.Membership.Handlers.Chain.{
  Keeps, Chain, Chain-append, Chain-IsValid, list_peers-Chain, lookup-Chain,
}
use distributed_sensor_hub.Membership.Handlers.Laws.{
  handle_join_request-Chain, handle_peer_list-Chain,
}
use distributed_sensor_hub.Membership.PeerTable.{Peer, list_peers}
use distributed_sensor_hub.Membership.PeerTable.Laws as PeerTable
use distributed_sensor_hub.Networking.Link.{receive_frame}
use distributed_sensor_hub.Networking.Server.{Arrival, connection_loop}
use distributed_sensor_hub.Networking.Server.Halting.{connection_loop_total, connection_loop-keeps}
use distributed_sensor_hub.Networking.Server.Recv.{content}
use distributed_sensor_hub.Protocol.Dispatcher.{Dispatcher, dispatch}
use distributed_sensor_hub.Protocol.Handlers.{
  sensor_update_args, handle_sensor_update_lem, not_implemented,
}
use distributed_sensor_hub.Protocol.Message.{
  MessageType, join_request, peer_list, sensor_update, Message, Codec, decode,
}
use distributed_sensor_hub.Protocol.Setup.{
  Node, Clock, join_handler, peer_list_handler, sensor_update_handler, setup_protocol, intended,
  setup_protocol_lem,
}
use distributed_sensor_hub.State.Convergence.{deliver}
use distributed_sensor_hub.State.Invariant.{IsValid}
use distributed_sensor_hub.State.Polling.{deliver-IsValid}
use distributed_sensor_hub.State.Worker.{Worker, Update, merge_update}

deliver-append :
    (w : Worker) (us vs : List Update) → deliver w (us ++ vs) ≡ deliver (deliver w us) vs
unfolding deliver
deliver-append w [] vs = refl
deliver-append w (u ∷ us) vs = deliver-append (merge_update w u).0 us vs

-- From one state of a node to a later one peers went into its table, each under a new key, and updates
-- were merged into its state, and nothing else was done to either.
abbrev Grows : {S : Type 0} → Node S → Node S → Type 0
Grows n n' =
    ((ps : List Peer) × Chain n.table ps n'.table)
    × ((us : List Update) × (n'.worker ≡ deliver n.worker us))

Grows-trans : {S : Type 0} (a b c : Node S) → Grows a b → Grows b c → Grows a c
Grows-trans a b c ((ps, x), (us, y)) ((qs, z), (vs, t)) = (
  (ps ++ qs, Chain-append a.table b.table c.table ps qs x z),
  (us ++ vs, t ∙ ap (λ w. deliver w vs) y ∙ sym (deliver-append a.worker us vs)),
)

Grows-refl : {S : Type 0} (n : Node S) → Grows n n
unfolding deliver
Grows-refl n = (([], refl), ([], refl))

module _ {S : Type 0} (clock : Clock S) (send : String → Message → Effect S) (id : String)
    (discovered : Option (Peer → Effect S)) (with_worker : Bool) where
  sensor_update_handler-Grows :
      (b : Bool) (m : Message) (n : Node S)
      → Grows n (sensor_update_handler clock send id discovered b m n).0
  unfolding sensor_update_handler deliver
  sensor_update_handler-Grows false m n = (([], refl), ([], refl))
  sensor_update_handler-Grows true m n =
      (([], refl), (sensor_update_args m ∷ [], handle_sensor_update_lem n.worker m))

  intended-Grows :
      (t : MessageType) (m : Message) (n : Node S)
      → Grows n (intended clock send id discovered with_worker t m n).0
  unfolding intended join_handler peer_list_handler deliver not_implemented
  intended-Grows join_request m n = (
    handle_join_request-Chain send id discovered m (clock.now n.world) (clock.now_ms n.world)
        n.table n.world,
    ([], refl),
  )
  intended-Grows peer_list m n =
      let (ps, c, _) =
        handle_peer_list-Chain send id discovered m (clock.rounds n.world) n.table n.world in
      ((ps, c), ([], refl))
  intended-Grows sensor_update m n = sensor_update_handler-Grows with_worker m n
  intended-Grows _ m n = Grows-refl n

  dispatch-Grows :
      (d : Dispatcher (Node S)) (m : Message) (n : Node S)
      → setup_protocol clock send id discovered with_worker ≡ ok d
      → Grows n (dispatch d m n).0
  dispatch-Grows d m n up =
      let (e, made, routes) = setup_protocol_lem clock send id discovered with_worker in
      let same : d ≡ e = cc in rw (same, routes m n) (intended-Grows m.msg_type m n)

  module _ (codec : Codec) (time : Node S → ℤ) where
    receive_frame-Grows :
        (d : Dispatcher (Node S)) (frame : List ℕ) (n : Node S)
        → setup_protocol clock send id discovered with_worker ≡ ok d
        → Grows n (receive_frame codec time d frame n)
    unfolding receive_frame
    receive_frame-Grows d frame n up = elim (Result-cases (decode codec frame (time n))) [
      | inl (x, failed) ↦ rw (failed, receive_frame) (Grows-refl n)
      | inr (m, done) ↦ rw (done, receive_frame) (dispatch-Grows d m n up)
    ]

    -- Whatever bytes arrive on a connection, cut into any segments, with any timeouts and also if the
    -- connection breaks, its loop ends, after at most one round more than bytes arrived. If the node was
    -- valid and nothing else acts on it meanwhile, it stays valid: its peer table is valid, keeps
    -- every entry and lists the old peers first, and its state is valid and is what merging some
    -- updates into the old state leaves.
    pub connection_loop-Grows :
        (d : Dispatcher (Node S)) (max_frame_size fuel : ℕ) (arrivals : List Arrival) (n : Node S)
        → setup_protocol clock send id discovered with_worker ≡ ok d
        → PeerTable.IsValid n.table
        → IsValid n.worker
        → length (content arrivals) < fuel
        → (n' : Node S) × (connection_loop max_frame_size
              (receive_frame codec time d)
              fuel
              arrivals
              n
            ≡ some n')
          × PeerTable.IsValid n'.table
          × Keeps n.table n'.table
          × ((ps : List Peer) × (list_peers n'.table ≡ list_peers n.table ++ ps))
          × IsValid n'.worker
          × ((us : List Update) × (n'.worker ≡ deliver n.worker us))
    connection_loop-Grows d max_frame_size fuel arrivals n up v w enough =
        let (n', done) =
          connection_loop_total max_frame_size (receive_frame codec time d) fuel arrivals n
            enough in
        let ((ps, c), (us, e)) =
          connection_loop-keeps (λ x. Grows n x) max_frame_size (receive_frame codec time d)
            (λ frame x g.
              Grows-trans n x (receive_frame codec time d frame x) g
                (receive_frame-Grows d frame x up))
            fuel arrivals n n' (Grows-refl n) done in
        (
          n',
          done,
          Chain-IsValid n.table n'.table ps v c,
          λ k q h. lookup-Chain n.table n'.table ps k c h,
          (ps, list_peers-Chain n.table n'.table ps c),
          rw e (deliver-IsValid n.worker us w),
          (us, e),
        )
