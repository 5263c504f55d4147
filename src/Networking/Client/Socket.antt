-- ===== src/Networking/Client/Socket.antt =====
-- How a `_PeerWorker` of networking/tcp_client.py gets, watches and gives up its socket, and how it waits.
-- What the operating system and the clock answer is an argument.
pub mod Accounts
use distributed_sensor_hub.Base.{
  ℕ, zero, suc, ◌+◌, Bool, true, false, not, ◌&&◌, ◌||◌, Option, none, some, List, [], ◌∷◌, ltb,
  if◌then◌else◌,
}
use distributed_sensor_hub.Base.Result.{Result, ok, raise, type_error}
use distributed_sensor_hub.Protocol.Message.{Message, Codec, encode}
use distributed_sensor_hub.Value.{Value}

-- The socket of a worker (`_sock` is one or none), with the numbers of the sockets that were made and closed.
-- `dead` says that an exception has ended the thread.
pub record Sockets : Type 0 where
  pub held : Bool
  pub made : ℕ
  pub closed : ℕ
  pub dead : Bool

abbrev pub no_sockets : Sockets
no_sockets = record { held = false; made = 0; closed = 0; dead = false }

-- What `sock.connect` does: it returns, raises an OSError, or raises anything else, as for a port out of range.
pub data Answer : Type 0 where
  accepted refused raised : Answer

-- What one call of `_connect` meets: a stop seen before the socket is made, what `sock.connect` does, a stop
-- seen before the socket is kept.
pub record Attempt : Type 0 where
  pub stop_before : Bool
  pub answer : Answer
  pub stop_after : Bool

-- `_connect` from `sock.connect` on. Only an OSError is caught: any other exception leaves the new socket open
-- and ends the thread.
unfoldable pub after_connect : Answer → Bool → Sockets → Sockets × Bool
after_connect raised stop_after s = (record s { made = suc s.made; dead = true }, false)
after_connect refused stop_after s = (record s { made = suc s.made; closed = suc s.closed }, false)
after_connect accepted stop_after s =
    if stop_after
    then (record s { made = suc s.made; closed = suc s.closed }, false)
    else (record s { made = suc s.made; held = true }, true)

-- `_connect`: the sockets and the answer.
unfoldable pub connect : Attempt → Sockets → Sockets × Bool
unfolding after_connect
connect a s = if a.stop_before then (s, false) else after_connect a.answer a.stop_after s

-- `_close_socket`
unfoldable pub close_socket : Sockets → Sockets
close_socket s = if s.held then record s { held = false; closed = suc s.closed } else s

-- What the selector and the peek of `_detect_server_closed` give.
pub data Peek : Type 0 where
  silent : Peek
  peeked : List ℕ → Peek
  failed : Peek

-- `_detect_server_closed`
unfoldable pub detect_server_closed : Sockets → Peek → Bool
detect_server_closed s silent = not s.held
detect_server_closed s (peeked []) = true
detect_server_closed s (peeked (x ∷ data_read)) = not s.held
detect_server_closed s failed = true

-- What one round of `_run` meets, as far as the socket goes: the attempt to connect, whether the queue could be
-- drained, whether it is empty afterwards, and the peek.
pub record SocketRound : Type 0 where
  pub attempt : Attempt
  pub drained : Bool
  pub empty : Bool
  pub peek : Peek

-- The part of a round behind the connection.
unfoldable pub watch : SocketRound → Sockets → Sockets
watch r s =
    if not r.drained
    then close_socket s
    else if r.empty && detect_server_closed s r.peek
    then close_socket s
    else s

-- One round of `_run`
unfoldable pub socket_round : SocketRound → Sockets → Sockets
unfolding watch
socket_round r s =
    if s.held
    then watch r s
    else (let (s', connected) = connect r.attempt s in if connected then watch r s' else s')

-- `_run` over its rounds, until an exception ends it.
unfoldable pub socket_rounds : List SocketRound → Sockets → Sockets
socket_rounds [] s = s
socket_rounds (r ∷ rounds) s =
    let rest = socket_rounds rounds (socket_round r s) in if s.dead then s else rest

-- `_sleep_interruptible`, with the readings of the clock in milliseconds and the answers of `_should_stop`
-- in the rounds of its loop from the first on: the number of sleeps. The reading 0 is the one that `end` is
-- reckoned from, and the reading `i + 1` the one in the test of the round `i`. `none` means that
-- the fuel ran out.
unfoldable pub sleep_until : ℕ → ℕ → (ℕ → ℕ) → (ℕ → Bool) → ℕ → Option ℕ
sleep_until zero end clock should_stop i = none
sleep_until (suc fuel) end clock should_stop i =
    let rest = sleep_until fuel end clock should_stop (suc i) in
    if ltb (clock (suc i)) end && not (should_stop i) then rest else some i

unfoldable pub sleep_interruptible : ℕ → ℕ → (ℕ → ℕ) → (ℕ → Bool) → Option ℕ
sleep_interruptible fuel duration clock should_stop =
    sleep_until fuel (clock 0 + duration) clock should_stop 0
