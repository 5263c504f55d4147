-- ===== src/Networking/Client.antt =====
-- networking/tcp_client.py: the registry of peers with their send queues, and the worker that keeps one
-- connection. Times are in milliseconds. What the operating system answers is an argument.
pub mod Queue
pub mod Sending
pub mod Socket
pub mod Backoff
pub mod Fates
pub mod Delivery
use distributed_sensor_hub.Base.{
  ℕ, ◌+◌, ◌*◌, Bool, true, false, not, Option, none, some, List, [], ◌∷◌, ◌++◌, ltb, if◌then◌else◌,
}
use distributed_sensor_hub.Base.Dict
use distributed_sensor_hub.Base.Dict.{Dict}
use distributed_sensor_hub.Base.Lists.{length, take}
use distributed_sensor_hub.Base.Result.{
  Result, ok, raise, type_error, key_error, value_error, runtime_error, ◌>>=◌,
}
use distributed_sensor_hub.Networking.Framing.{frame}
use distributed_sensor_hub.Value.{Value, PyInt}
use distributed_sensor_hub.Value.Key.{Key, hash, key_eq}

pub record TcpPeer : Type 0 where
  pub node_id : Value
  pub host : Value
  pub port : PyInt

pub record Settings : Type 0 where
  pub max_frame_size : ℕ
  pub backoff_initial : ℕ
  pub backoff_max : ℕ
  pub linear : Bool

-- `_PeerWorker`: `connected` says that `_sock` is set, and `wire` is what was written to that socket.
pub record PeerWorker : Type 0 where
  pub peer : TcpPeer
  pub queue : List (List ℕ)
  pub connected : Bool
  pub wire : List ℕ
  pub backoff : ℕ

pub record TcpClient : Type 0 where
  pub settings : Settings
  pub workers : Dict Key PeerWorker
  pub stopped : Bool

abbrev pub new_worker : Settings → TcpPeer → PeerWorker
new_worker cfg peer = record {
  peer = peer;
  queue = [];
  connected = false;
  wire = [];
  backoff = cfg.backoff_initial;
}

abbrev pub new_client : Settings → TcpClient
new_client cfg = record { settings = cfg; workers = []; stopped = false }

-- A key of the registry; an unhashable id raises.
unfoldable pub key_of : Value → Result Key
key_of id = elim (hash id) [ none ↦ raise type_error | some k ↦ ok k ]

-- `add_peer` behind its test
unfoldable pub add_worker : TcpClient → Key → TcpPeer → Result TcpClient
add_worker c k peer =
    if Dict.has k c.workers
    then raise runtime_error
    else ok (record c { workers = Dict.insert k (new_worker c.settings peer) c.workers })

-- `add_peer`
unfoldable pub add_peer : TcpClient → TcpPeer → Result TcpClient
unfolding key_of
add_peer c peer = do k ← key_of peer.node_id; add_worker c k peer

-- `remove_peer`: the worker goes with what is queued.
unfoldable pub remove_peer : TcpClient → Value → Result TcpClient
unfolding key_of
remove_peer c id = do k ← key_of id; ok (record c { workers = Dict.erase k c.workers })

-- `_get_worker`
unfoldable pub get_worker : TcpClient → Key → Result PeerWorker
get_worker c k = elim (Dict.lookup k c.workers) [ none ↦ raise key_error | some w ↦ ok w ]

-- `enqueue`
abbrev pub enqueue : List ℕ → PeerWorker → PeerWorker
enqueue payload w = record w { queue = w.queue ++ (payload ∷ []) }

-- `send_json` behind the look-up, of the bytes `payload`
unfoldable pub enqueue_for : TcpClient → Key → PeerWorker → List ℕ → Result TcpClient
enqueue_for c k w payload =
    if ltb c.settings.max_frame_size (length payload)
    then raise value_error
    else ok (record c { workers = Dict.insert k (enqueue payload w) c.workers })

-- `send_json`, of an object that serialises to the bytes `payload`
unfoldable pub send_json : TcpClient → Value → List ℕ → Result TcpClient
unfolding key_of get_worker enqueue_for
send_json c id payload = do k ← key_of id; w ← get_worker c k; enqueue_for c k w payload

-- `stop`
unfoldable pub stop : TcpClient → TcpClient
stop c = record c { workers = []; stopped = true }

-- What one call of `sendall` meets: success, an error after some bytes of the frame were written, or
-- the worker's stop flag seen before the call.
pub data Sent : Type 0 where
  done : Sent
  broken : ℕ → Sent
  halt : Sent

-- `_drain_send_queue_once` with `_send_frame`: the queue, the written bytes and the answer. Where the
-- list of answers is used up, the calls succeed.
unfoldable pub drain : ℕ → List (List ℕ) → List Sent → List ℕ → List (List ℕ) × List ℕ × Bool
drain max_frame_size [] sends wire = ([], wire, true)
drain max_frame_size (p ∷ queue) (halt ∷ sends) wire = (p ∷ queue, wire, true)
drain max_frame_size (p ∷ queue) (broken n ∷ sends) wire = elim (ltb max_frame_size (length p)) [
  | true ↦ drain max_frame_size queue (broken n ∷ sends) wire
  | false ↦ (queue, wire ++ take n (frame p), false)
]
drain max_frame_size (p ∷ queue) (done ∷ sends) wire = elim (ltb max_frame_size (length p)) [
  | true ↦ drain max_frame_size queue (done ∷ sends) wire
  | false ↦ drain max_frame_size queue sends (wire ++ frame p)
]
drain max_frame_size (p ∷ queue) [] wire = elim (ltb max_frame_size (length p)) [
  | true ↦ drain max_frame_size queue [] wire
  | false ↦ drain max_frame_size queue [] (wire ++ frame p)
]

-- `_next_backoff`
unfoldable pub next_backoff : Settings → ℕ → ℕ
next_backoff cfg current =
    let nxt = if cfg.linear then current + cfg.backoff_initial else current * 2 in
    if ltb cfg.backoff_max nxt then cfg.backoff_max else nxt

-- `_run` after a failed `_connect`: how long it sleeps, and the worker with the wait grown behind the sleep.
abbrev pub retry : Settings → PeerWorker → ℕ × PeerWorker
retry cfg w = (w.backoff, record w { backoff = next_backoff cfg w.backoff })

-- What one round of `_run` meets.
pub record Round : Type 0 where
  pub connects : Bool
  pub sends : List Sent
  pub server_closed : Bool

-- `_close_socket`
abbrev pub close_socket : PeerWorker → PeerWorker
close_socket w = record w { connected = false }

-- The part of a round behind the connection, on what `drain` gave.
unfoldable pub after_drain : Bool → PeerWorker → List (List ℕ) × List ℕ × Bool → PeerWorker
after_drain server_closed w (queue, wire, false) =
    close_socket (record w { queue = queue; wire = wire })
after_drain server_closed w ([], wire, true) = record w {
  queue = [];
  wire = wire;
  connected = not server_closed;
}
after_drain server_closed w (p ∷ queue, wire, true) = record w { queue = p ∷ queue; wire = wire }

unfoldable pub serve : ℕ → Round → PeerWorker → PeerWorker
serve max_frame_size r w =
    after_drain r.server_closed w (drain max_frame_size w.queue r.sends w.wire)

-- One round of `_run`
unfoldable pub run_round : Settings → Round → PeerWorker → PeerWorker
run_round cfg r w =
    if w.connected
    then serve cfg.max_frame_size r w
    else if r.connects
    then serve cfg.max_frame_size r
        (record w { connected = true; wire = []; backoff = cfg.backoff_initial })
    else (retry cfg w).1

-- `_run` over its rounds, until the worker is told to stop
unfoldable pub run : Settings → List Round → PeerWorker → PeerWorker
run cfg [] w = w
run cfg (r ∷ rounds) w = run cfg rounds (run_round cfg r w)

-- `_PeerWorker.stop`: what is still queued is dropped.
abbrev pub stop_worker : PeerWorker → PeerWorker
stop_worker w = record (close_socket w) { queue = [] }
