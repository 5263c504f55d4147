-- ===== src/Tests/Lifecycle.antt =====
-- A run of networking/tcp_server.py in which a connection is accepted while `stop` closes the others.
use distributed_sensor_hub.Base.{refl, true, nat_eq, arith}
use distributed_sensor_hub.Networking.Lifecycle.{
  empty, add, discard, Server, new_server, started, start, clear, joining, start_step, accept_step,
  connection_step, stop_step, enters, leaves, accepts, tracks, makes_thread, launches, untracks,
  closes, finishes, signals, unlistens, takes_connections, joins_accept, takes_threads, joins_one,
  Reach, here, step,
}
use distributed_sensor_hub.Networking.Lifecycle.Shutdown.{IsQuiet, clear-IsQuiet}

-- The server when `stop` has joined the thread of the connection 1.
abbrev joined_server : Server
joined_server = record new_server {
  stop_event = true;
  connections = discard 1 (add 1 empty);
  conn_threads = discard 1 (add 1 empty);
  stopping = joining (discard 1 (add 1 empty));
  running = discard 1 (add 1 empty);
  open_sockets = discard 1 (add 1 empty);
}

late_connection : Reach new_server joined_server
unfolding start nat_eq
late_connection =
    let r = step here (start_step {t = started new_server} refl refl) in
    let r = step r (accept_step (enters refl refl)) in
    let r = step r (accept_step (accepts 1 refl refl refl refl refl)) in
    let r = step r (stop_step (signals refl)) in
    let r = step r (stop_step (unlistens refl)) in
    let r = step r (stop_step (takes_connections refl)) in
    let r = step r (accept_step (tracks 1 refl)) in
    let r = step r (accept_step (makes_thread 1 refl)) in
    let r = step r (accept_step (launches 1 refl)) in
    let r = step r (accept_step (leaves refl refl)) in
    let r = step r (stop_step (joins_accept empty refl (λ c. refl) refl)) in
    let r = step r (stop_step (takes_threads refl)) in
    let r = step r (connection_step (untracks 1 refl)) in
    let r = step r (connection_step (closes 1 refl refl)) in
    let r = step r (connection_step (finishes 1 refl refl)) in
    step r (stop_step (joins_one 1 (add 1 empty) refl refl refl))

clear-IsQuiet_example : IsQuiet (clear joined_server)
clear-IsQuiet_example =
    clear-IsQuiet joined_server (discard 1 (add 1 empty)) late_connection refl (λ c. ground arith)
