-- ===== src/Networking/Lifecycle.antt =====
-- `start`, `stop` and the accept loop of networking/tcp_server.py as steps of the threads that run them:
-- the accept thread, one thread for each connection, and the thread that calls `start` and `stop`. A
-- connection and its thread have one number. A Python set is its test of membership. `join` is taken to
-- wait until the thread has ended: its timeout is not modelled.
pub mod Shutdown
use distributed_sensor_hub.Base.{ℕ, ◌≡◌, Bool, true, false, ◌==◌, nat_eq, not, if◌then◌else◌}
use distributed_sensor_hub.Base.Result.{Result, ok, raise, runtime_error}

abbrev pub Set : Type 0
Set = ℕ → Bool

abbrev pub empty : Set
empty c = false

-- `s.add(c)`
abbrev pub add : ℕ → Set → Set
add c s j = if j == c then true else s j

-- `s.discard(c)`
abbrev pub discard : ℕ → Set → Set
discard c s j = if j == c then false else s j

-- Where the accept thread stands: before the test of `_stop_event`, in `accept`, or with a connection that
-- it has accepted, that is tracked, or whose thread is tracked.
pub data Accepting : Type 0 where
  checking waiting ended : Accepting
  accepted tracked threaded : ℕ → Accepting

-- Where `stop` stands: it is not running, has set the event, has closed the listening socket, closes the
-- connections of its snapshot, has joined the accept thread, or joins the threads of its snapshot.
pub data Stopping : Type 0 where
  idle signalled unlistened joined : Stopping
  closing : Set → Stopping
  joining : Set → Stopping

-- The fields of `TcpServer` that change, with the states of its threads and the sockets that are open.
pub record Server : Type 0 where
  pub stop_event : Bool
  pub listening : Bool
  pub accept_thread : Bool
  pub connections : Set
  pub conn_threads : Set
  pub accepting : Accepting
  pub stopping : Stopping
  pub running : Set
  pub open_sockets : Set

-- `__init__`
abbrev pub new_server : Server
new_server = record {
  stop_event = false;
  listening = false;
  accept_thread = false;
  connections = empty;
  conn_threads = empty;
  accepting = ended;
  stopping = idle;
  running = empty;
  open_sockets = empty;
}

-- The server once `start` is through.
abbrev pub started : Server → Server
started s = record s {
  stop_event = false;
  listening = true;
  accept_thread = true;
  accepting = checking;
}

-- `start`, where binding succeeds
unfoldable pub start : Server → Result Server
start s = if s.accept_thread then raise runtime_error else ok (started s)

-- The end of `stop`.
abbrev pub clear : Server → Server
clear s = record s { connections = empty; conn_threads = empty; listening = false; stopping = idle }

-- A step of `_accept_loop`.
pub data AcceptStep (s : Server) : Server → Type 0 where
  enters :
      s.accepting ≡ checking
      → s.stop_event ≡ false
      → AcceptStep s (record s { accepting = waiting })
  leaves :
      s.accepting ≡ checking → s.stop_event ≡ true → AcceptStep s (record s { accepting = ended })
  times_out : s.accepting ≡ waiting → AcceptStep s (record s { accepting = checking })
  fails : s.accepting ≡ waiting → AcceptStep s (record s { accepting = ended })
  accepts :
      (c : ℕ)
      → s.accepting ≡ waiting
      → s.listening ≡ true
      → s.open_sockets c ≡ false
      → s.running c ≡ false
      → s.conn_threads c ≡ false
      → AcceptStep s (record s { accepting = accepted c; open_sockets = add c s.open_sockets })
  tracks :
      (c : ℕ)
      → s.accepting ≡ accepted c
      → AcceptStep s (record s { accepting = tracked c; connections = add c s.connections })
  makes_thread :
      (c : ℕ)
      → s.accepting ≡ tracked c
      → AcceptStep s (record s { accepting = threaded c; conn_threads = add c s.conn_threads })
  launches :
      (c : ℕ)
      → s.accepting ≡ threaded c
      → AcceptStep s (record s { accepting = checking; running = add c s.running })

-- A step at the end of `_connection_loop`.
pub data ConnectionStep (s : Server) : Server → Type 0 where
  untracks :
      (c : ℕ)
      → s.running c ≡ true
      → ConnectionStep s (record s { connections = discard c s.connections })
  closes :
      (c : ℕ)
      → s.running c ≡ true
      → s.connections c ≡ false
      → ConnectionStep s (record s { open_sockets = discard c s.open_sockets })
  finishes :
      (c : ℕ)
      → s.running c ≡ true
      → s.open_sockets c ≡ false
      → ConnectionStep s
          (record s { conn_threads = discard c s.conn_threads; running = discard c s.running })

-- A step of `stop`.
pub data StopStep (s : Server) : Server → Type 0 where
  signals : s.stopping ≡ idle → StopStep s (record s { stop_event = true; stopping = signalled })
  unlistens :
      s.stopping ≡ signalled → StopStep s (record s { listening = false; stopping = unlistened })
  takes_connections :
      s.stopping ≡ unlistened → StopStep s (record s { stopping = closing s.connections })
  closes_one :
      (c : ℕ) (left : Set)
      → s.stopping ≡ closing left
      → left c ≡ true
      → StopStep s (record s {
        open_sockets = discard c s.open_sockets;
        stopping = closing (discard c left);
      })
  joins_accept :
      (left : Set)
      → s.stopping ≡ closing left
      → ((c : ℕ) → left c ≡ false)
      → s.accepting ≡ ended
      → StopStep s (record s { accept_thread = false; stopping = joined })
  takes_threads : s.stopping ≡ joined → StopStep s (record s { stopping = joining s.conn_threads })
  joins_one :
      (c : ℕ) (left : Set)
      → s.stopping ≡ joining left
      → left c ≡ true
      → s.running c ≡ false
      → StopStep s (record s { stopping = joining (discard c left) })
  clears :
      (left : Set) → s.stopping ≡ joining left → ((c : ℕ) → left c ≡ false) → StopStep s (clear s)

-- A step of one of the threads; `start` is called when no `stop` runs.
pub data Step (s : Server) : Server → Type 0 where
  start_step : {t : Server} → s.stopping ≡ idle → start s ≡ ok t → Step s t
  accept_step : {t : Server} → AcceptStep s t → Step s t
  connection_step : {t : Server} → ConnectionStep s t → Step s t
  stop_step : {t : Server} → StopStep s t → Step s t

-- What the threads can reach.
pub data Reach (s : Server) : Server → Type 0 where
  here : Reach s s
  step : {t u : Server} → Reach s t → Step t u → Reach s u
