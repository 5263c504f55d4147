-- ===== src/Tests/Networking.antt =====
-- Runs of the transport (networking/) on two small frames, and its theorems at them.
use Prim.Native.Nat.{min}
use mathlib.Core.List.{Memᴰ}
use distributed_sensor_hub.Base.{
  true, ℕ, suc, ◌+◌, ◌*◌, ◌-◌, if◌then◌else◌, ◌≤◌, ◌<◌, ◌⊎◌, Bool, ◌≡◌, refl, false, some, none,
  List, [], ◌∷◌, ◌++◌, arith,
}
use distributed_sensor_hub.Base.Int.{pos}
use distributed_sensor_hub.Networking.Framing.{pack, unpack, frame, unpack-pack}
use distributed_sensor_hub.Networking.Server.{Arrival, bytes, timeout, connection_loop}
use distributed_sensor_hub.Networking.Server.Frames.{handle_all, frames, connection_loop-frames}
use distributed_sensor_hub.Networking.Server.Recv.{content}
use distributed_sensor_hub.Networking.Client.{
  Settings, TcpPeer, TcpClient, PeerWorker, new_client, new_worker, retry, Sent, Round, run,
}
use distributed_sensor_hub.Networking.Client.Delivery.{good, transcript, all_breaks, run_delivers}
use distributed_sensor_hub.Networking.Client.Fates.{Fates}
use distributed_sensor_hub.Protocol.Message.{Codec}
use distributed_sensor_hub.Value.Key.{text}
use distributed_sensor_hub.Networking.Client.Socket as Socket
use distributed_sensor_hub.Networking.Client.Socket.{
  SocketRound, Answer, accepted, refused, raised, after_connect, silent, peeked, no_sockets,
  connect, detect_server_closed, watch, socket_round, socket_rounds, sleep_interruptible,
}
use distributed_sensor_hub.Networking.Client.Socket.Accounts.{
  Balanced, socket_rounds-close_socket, sleep_interruptible_total,
}
use distributed_sensor_hub.Networking.Client.Backoff.{fail, grown, fail_lem}
use distributed_sensor_hub.Value.{str, whole}

-- A connection whose handler keeps the payloads.
abbrev keep : List ℕ → List (List ℕ) → List (List ℕ)
keep p seen = seen ++ (p ∷ [])

abbrev payloads : List (List ℕ)
payloads = (1 ∷ 2 ∷ 3 ∷ []) ∷ (4 ∷ []) ∷ []

-- The two frames in three segments, the cuts inside a header and a payload, with a timeout.
abbrev arrivals : List Arrival
arrivals =
    bytes (0 ∷ 0 ∷ [])
    ∷ timeout
    ∷ bytes (0 ∷ 3 ∷ 1 ∷ 2 ∷ [])
    ∷ bytes (3 ∷ 0 ∷ 0 ∷ 0 ∷ 1 ∷ 4 ∷ [])
    ∷ []

connection_loop-frames_example :
    connection_loop 16 keep 3 arrivals [] ≡ some (handle_all 16 keep payloads [])
unfolding frames frame pack content
connection_loop-frames_example =
    connection_loop-frames 16 keep payloads 3 arrivals [] (omega arith)
      (omega arith, (omega arith, tt)) tt refl (omega arith)

abbrev settings : Settings
settings = record {
  max_frame_size = 16;
  backoff_initial = 500;
  backoff_max = 30000;
  linear = false;
}

abbrev peer : TcpPeer
peer = record { node_id = str "b"; host = str "10.0.0.2"; port = whole (pos 9001) }

fail_lem_example :
    let w = fail settings 7 (record (new_worker settings peer) { queue = payloads }) in
    ((retry settings w).0 ≡ min 30000 (grown settings 7))
    × (w.queue ≡ payloads)
    × (w.connected ≡ false)
fail_lem_example = fail_lem settings 7 peer payloads (omega arith)

unpack-pack_example : unpack (pack 70000) ≡ 70000
unpack-pack_example = unpack-pack 70000 (omega arith)

-- The peer cannot be reached, then a send breaks, then the server closes the connection.
abbrev rough : List Round
rough =
    record { connects = false; sends = []; server_closed = false }
    ∷ record { connects = true; sends = Sent.broken 2 ∷ []; server_closed = false }
    ∷ record { connects = true; sends = Sent.halt ∷ []; server_closed = true }
    ∷ []

abbrev loaded : PeerWorker
loaded = record (new_worker settings peer) { queue = payloads }

run_delivers_example :
    let all = rough ++ (good ∷ []) in
    ((run settings all loaded).queue ≡ [])
    × ((run settings all loaded).connected ≡ true)
    × Fates payloads [] [] (transcript settings all loaded) (all_breaks all)
run_delivers_example = run_delivers settings rough loaded (omega arith, (omega arith, tt))

-- The peer refuses, then a stop is seen after the connection, then a send breaks, then the server closes.
abbrev rounds : List SocketRound
rounds =
    record {
      attempt = record { stop_before = false; answer = refused; stop_after = false };
      drained = true;
      empty = true;
      peek = silent;
    }
    ∷ record {
      attempt = record { stop_before = false; answer = accepted; stop_after = true };
      drained = true;
      empty = true;
      peek = silent;
    }
    ∷ record {
      attempt = record { stop_before = false; answer = accepted; stop_after = false };
      drained = false;
      empty = false;
      peek = silent;
    }
    ∷ record {
      attempt = record { stop_before = false; answer = accepted; stop_after = false };
      drained = true;
      empty = true;
      peek = peeked [];
    }
    ∷ record {
      attempt = record { stop_before = false; answer = raised; stop_after = false };
      drained = true;
      empty = true;
      peek = silent;
    }
    ∷ []

five_made :
    socket_rounds rounds no_sockets ≡ record { held = false; made = 5; closed = 4; dead = true }
unfolding socket_rounds socket_round connect after_connect watch Socket.close_socket
    detect_server_closed
five_made = refl

socket_rounds-close_socket_example :
    let s = socket_rounds rounds no_sockets in
    Balanced s
    × ((Socket.close_socket s).held ≡ false)
    × ((Socket.close_socket s).made ≡ (Socket.close_socket s).closed + (if s.dead then 1 else 0))
    × (s.dead ≡ true → (r : SocketRound) × Memᴰ r rounds × (r.attempt.answer ≡ raised))
socket_rounds-close_socket_example = socket_rounds-close_socket rounds

-- A sleep of 120 ms under a clock that goes on by 60 ms with each, and not before the first.
abbrev clock : ℕ → ℕ
clock i = 60 * (i - 1)

abbrev never : ℕ → Bool
never i = false

sleep_interruptible_total_example :
    (n : ℕ) × (sleep_interruptible 4 120 clock never ≡ some n)
    × (50 * n < 120 + 50)
    × ((never n ≡ true) ⊎ (clock 0 + 120 ≤ clock (suc n)))
    × ((j : ℕ) → j < n → (never j ≡ false) × (clock (suc j) < clock 0 + 120))
sleep_interruptible_total_example =
    sleep_interruptible_total 3 120 clock never (omega arith) (λ i. omega arith) (omega arith)

abbrev codec : Codec
codec = record { dumps = λ v. 7 ∷ 8 ∷ []; loads = λ b. none }

abbrev one_peer : TcpClient
one_peer = record (new_client settings) { workers = (text "b", loaded) ∷ [] }
