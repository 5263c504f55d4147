-- ===== src/Networking/Server.antt =====
-- The receiving side of networking/tcp_server.py: one connection's loop over what its socket gives. What
-- the socket gives is a list, which ends where the peer closes the connection.
pub mod Recv
pub mod Frames
pub mod Halting
use distributed_sensor_hub.Base.{
  ℕ, zero, suc, ◌-◌, Bool, true, false, Option, none, some, List, [], ◌∷◌, ◌++◌, ltb, leb, ◌==◌,
  nat_eq, if◌then◌else◌,
}
use distributed_sensor_hub.Base.Lists.{length, take, drop}
use distributed_sensor_hub.Networking.Framing.{unpack}

-- A segment of bytes, a `socket.timeout`, another `OSError`, or the moment from which the server's
-- `_stop_event` is set.
pub data Arrival : Type 0 where
  bytes : List ℕ → Arrival
  timeout reset halt : Arrival

-- `_recv_exact`, with the bytes still needed and the bytes received so far. `conn.recv(n)` gives at
-- most `n` bytes of a segment and leaves the rest to the next call. No bytes mean a closed connection.
unfoldable pub recv_exact : ℕ → List ℕ → List Arrival → Option (List ℕ) × List Arrival
recv_exact zero got arrivals = (some got, arrivals)
recv_exact (suc m) got [] = (none, [])
recv_exact (suc m) got (halt ∷ rest) = (none, halt ∷ rest)
recv_exact (suc m) got (reset ∷ rest) = (none, rest)
recv_exact (suc m) got (timeout ∷ rest) = recv_exact (suc m) got rest
recv_exact (suc m) got (bytes [] ∷ rest) = (none, rest)
recv_exact (suc m) got (bytes (x ∷ xs) ∷ rest) =
    if leb (length (x ∷ xs)) (suc m)
    then recv_exact (suc m - length (x ∷ xs)) (got ++ (x ∷ xs)) rest
    else (some (got ++ take (suc m) (x ∷ xs)), bytes (drop (suc m) (x ∷ xs)) ∷ rest)

-- `_read_frame` from the header on
unfoldable pub read_payload : ℕ → Option (List ℕ) × List Arrival → Option (List ℕ) × List Arrival
read_payload max_frame_size (none, rest) = (none, rest)
read_payload max_frame_size (some header, rest) =
    if unpack header == 0
    then (some [], rest)
    else if ltb max_frame_size (unpack header)
    then (none, rest)
    else recv_exact (unpack header) [] rest

-- `_read_frame`
unfoldable pub read_frame : ℕ → List Arrival → Option (List ℕ) × List Arrival
read_frame max_frame_size arrivals = read_payload max_frame_size (recv_exact 4 [] arrivals)

-- `self._stop_event.is_set()`
unfoldable pub stopped : List Arrival → Bool
stopped (halt ∷ rest) = true
stopped _ = false

-- `_connection_loop`, with the state that the dispatcher's handlers act on. `handle` decodes a frame and
-- dispatches it; an exception of either ends the round and no more. `none` means that the fuel ran out.
module _ {S : Type 0} (max_frame_size : ℕ) (handle : List ℕ → S → S) where
  unfoldable pub connection_loop : ℕ → List Arrival → S → Option S
  connection_loop zero arrivals s = none
  connection_loop (suc fuel) arrivals s = elim (stopped arrivals) [
    | true ↦ some s
    | false ↦ elim ((read_frame max_frame_size arrivals).0) [
      | none ↦ some s
      | some frame ↦ connection_loop fuel (read_frame max_frame_size arrivals).1 (handle frame s)
    ]
  ]
