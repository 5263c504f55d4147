-- ===== src/Networking/Link.antt =====
-- One connection from end to end: what tcp_client.py writes, tcp_server.py reads, decodes and dispatches.
use distributed_sensor_hub.Base.{ℕ, ◌<◌, ◌^◌, ◌≡◌, refl, ap, ◌∙◌, some, List, [], ◌∷◌, ◌++◌}
use distributed_sensor_hub.Base.Int.{ℤ}
use distributed_sensor_hub.Base.Lists.{length}
use distributed_sensor_hub.Base.Result.{ok, raise}
use distributed_sensor_hub.Networking.Client.{drain}
use distributed_sensor_hub.Networking.Client.Queue.{drain_all}
use distributed_sensor_hub.Networking.Server.{Arrival, connection_loop}
use distributed_sensor_hub.Networking.Server.Frames.{Fit, handle_all, connection_loop-frames}
use distributed_sensor_hub.Networking.Server.Recv.{content, Flows}
use distributed_sensor_hub.Protocol.Dispatcher.{Dispatcher, dispatch}
use distributed_sensor_hub.Protocol.Message.{Message, Codec, encode, decode}
use distributed_sensor_hub.Protocol.RoundTrip.{Reads, decode-encode}

module _ (codec : Codec) where
  -- The payloads of messages.
  unfoldable pub encode_all : List Message → List (List ℕ)
  encode_all [] = []
  encode_all (m ∷ ms) = encode codec m ∷ encode_all ms

  abbrev pub AllRead : List Message → Type 0
  AllRead [] = Unit
  AllRead (m ∷ ms) = Reads codec m × AllRead ms

-- The messages dispatched in order.
unfoldable pub dispatch_all : {S : Type 0} → Dispatcher S → List Message → S → S
dispatch_all d [] s = s
dispatch_all d (m ∷ ms) s = dispatch_all d ms (dispatch d m s).0

pub encode_all-append :
    (codec : Codec) (xs ys : List Message)
    → encode_all codec (xs ++ ys) ≡ encode_all codec xs ++ encode_all codec ys
unfolding encode_all
encode_all-append codec [] ys = refl
encode_all-append codec (x ∷ xs) ys = ap (encode codec x ∷◌) (encode_all-append codec xs ys)

pub dispatch_all-append :
    {S : Type 0} (d : Dispatcher S) (xs ys : List Message) (s : S)
    → dispatch_all d (xs ++ ys) s ≡ dispatch_all d ys (dispatch_all d xs s)
unfolding dispatch_all
dispatch_all-append d [] ys s = refl
dispatch_all-append d (x ∷ xs) ys s = dispatch_all-append d xs ys (dispatch d x s).0

module _ {S : Type 0} (codec : Codec) (time : S → ℤ) (d : Dispatcher S) where
  -- A round of `_connection_loop` with a frame: a frame that cannot be decoded is dropped, and so is an
  -- exception of the dispatcher. `time` is the clock of the node.
  unfoldable pub receive_frame : List ℕ → S → S
  receive_frame frame s = elim (decode codec frame (time s)) [
    | raise e ↦ s
    | ok m ↦ (dispatch d m s).0
  ]

  receive_frame-encode :
      (m : Message) (s : S) → Reads codec m → receive_frame (encode codec m) s ≡ (dispatch d m s).0
  unfolding receive_frame
  receive_frame-encode m s h = rw (decode-encode codec m (time s) h, receive_frame)

  handle_all-encode_all :
      (max_frame_size : ℕ) (ms : List Message) (s : S)
      → AllRead codec ms
      → handle_all max_frame_size receive_frame (encode_all codec ms) s ≡ dispatch_all d ms s
  unfolding handle_all encode_all dispatch_all
  handle_all-encode_all max_frame_size [] s h = refl
  handle_all-encode_all max_frame_size (m ∷ ms) s (reads, h) =
      ap (handle_all max_frame_size receive_frame (encode_all codec ms))
        (receive_frame-encode m s reads)
      ∙ handle_all-encode_all max_frame_size ms _ h

  -- What a client has queued for a peer, written by sends that all succeed, the peer's server dispatches:
  -- every message, once, in the order of the queue, though the network may cut the bytes into segments
  -- in any way and let any reads time out. The messages must be within both size limits, JSON must read
  -- back what it wrote, and the client then closes the connection.
  pub connection_loop-drain :
      (client_max server_max : ℕ) (ms : List Message) (fuel : ℕ) (arrivals : List Arrival) (s : S)
      → server_max < 2 ^ 32
      → Fit client_max (encode_all codec ms)
      → Fit server_max (encode_all codec ms)
      → AllRead codec ms
      → Flows arrivals
      → content arrivals ≡ (drain client_max (encode_all codec ms) [] []).1
      → length (encode_all codec ms) < fuel
      → connection_loop server_max receive_frame fuel arrivals s ≡ some (dispatch_all d ms s)
  connection_loop-drain client_max server_max ms fuel arrivals s small sent fits reads flows e
        enough =
      connection_loop-frames server_max receive_frame (encode_all codec ms) fuel arrivals s small
        fits flows (e ∙ ap (λ r. r.1) (drain_all client_max (encode_all codec ms) [] sent)) enough
      ∙ ap some (handle_all-encode_all server_max ms s reads)
