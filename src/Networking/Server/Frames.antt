-- ===== src/Networking/Server/Frames.antt =====
-- What the loop of networking/tcp_server.py handles: the frames that were sent.
use mathlib.Core.List.{append_assoc}
use distributed_sensor_hub.Base.{
  ℕ, zero, suc, ◌≤◌, ◌<◌, ◌^◌, ◌≡◌, refl, ap, ◌∙◌, inl, inr, false, Option, none, some, List, [],
  ◌∷◌, ◌++◌, arith, ltb, ◌==◌, nat_eq, Bool-cases,
}
use distributed_sensor_hub.Base.Lists.{length}
use distributed_sensor_hub.Networking.Framing.{pack, unpack, frame, unpack-pack}
use distributed_sensor_hub.Networking.Server.{
  Arrival, bytes, timeout, reset, halt, recv_exact, read_payload, read_frame, stopped,
  connection_loop,
}
use distributed_sensor_hub.Networking.Server.Recv.{content, Flows, recv_exact-first, recv_exact_end}

length-pack : (n : ℕ) → length (pack n) ≡ 4
unfolding pack
length-pack n = refl

-- A result is the first payload, and the rest waits.
abbrev pub Framed : List ℕ → List ℕ → Option (List ℕ) × List Arrival → Type 0
Framed payload later (result, rest) = (result ≡ some payload) × (content rest ≡ later) × Flows rest

read_payload-Framed :
    (max_frame_size : ℕ) (payload later : List ℕ) (header : List ℕ) (rest : List Arrival)
    → length payload ≤ max_frame_size
    → unpack header ≡ length payload
    → content rest ≡ payload ++ later
    → Flows rest
    → Framed payload later (read_payload max_frame_size (some header, rest))
unfolding read_payload
read_payload-Framed max_frame_size [] later header rest fits u e f = rw u (ground arith)
read_payload-Framed max_frame_size (x ∷ xs) later header rest fits u e f =
    elim (Bool-cases (ltb max_frame_size (length (x ∷ xs)))) [
      | inl large ↦ absurd (ground arith)
      | inr small ↦
          let nonzero : (length (x ∷ xs) == 0) ≡ false = ground arith in
          rw (u, small, nonzero) (recv_exact-first [] (x ∷ xs) later rest f e)
    ]

read_payload-some :
    (max_frame_size : ℕ) (payload later header : List ℕ) (r : Option (List ℕ) × List Arrival)
    → length payload ≤ max_frame_size
    → unpack header ≡ length payload
    → (r.0 ≡ some header) × (content r.1 ≡ payload ++ later) × Flows r.1
    → Framed payload later (read_payload max_frame_size r)
read_payload-some max_frame_size payload later header (none, rest) fits u (a, b, f) = absurd (cc)
read_payload-some max_frame_size payload later header (some other, rest) fits u (a, b, f) =
    let same : other ≡ header = cc in
    read_payload-Framed max_frame_size payload later other rest fits (ap unpack same ∙ u) b f

read_frame-Framed :
    (max_frame_size : ℕ) (payload later : List ℕ) (arrivals : List Arrival)
    → max_frame_size < 2 ^ 32
    → length payload ≤ max_frame_size
    → Flows arrivals
    → content arrivals ≡ frame payload ++ later
    → Framed payload later (read_frame max_frame_size arrivals)
unfolding read_frame frame
read_frame-Framed max_frame_size payload later arrivals small fits f e =
    let n = length payload in
    read_payload-some max_frame_size payload later (pack n) (recv_exact 4 [] arrivals) fits
      (unpack-pack n (omega arith))
      (rw (length-pack n) at (
        recv_exact-first [] (pack n) (payload ++ later) arrivals f
          (e ∙ append_assoc (pack n) payload later)))

read_payload-none :
    (max_frame_size : ℕ) (r : Option (List ℕ) × List Arrival)
    → r.0 ≡ none
    → (read_payload max_frame_size r).0 ≡ none
unfolding read_payload
read_payload-none max_frame_size (none, rest) e = refl
read_payload-none max_frame_size (some header, rest) e = absurd (cc)

read_frame_end :
    (max_frame_size : ℕ) (arrivals : List Arrival)
    → Flows arrivals
    → content arrivals ≡ []
    → (read_frame max_frame_size arrivals).0 ≡ none
unfolding read_frame
read_frame_end max_frame_size arrivals f e =
    read_payload-none max_frame_size _ (recv_exact_end 3 [] arrivals f e)

Flows-stopped : (arrivals : List Arrival) → Flows arrivals → stopped arrivals ≡ false
unfolding stopped
Flows-stopped [] f = refl
Flows-stopped (bytes xs ∷ rest) f = refl
Flows-stopped (timeout ∷ rest) f = refl
Flows-stopped (reset ∷ rest) f = absurd f
Flows-stopped (halt ∷ rest) f = absurd f

-- The payloads one after the other, as the client puts them on the wire.
unfoldable pub frames : List (List ℕ) → List ℕ
frames [] = []
frames (p ∷ ps) = frame p ++ frames ps

abbrev pub Fit : ℕ → List (List ℕ) → Type 0
Fit max_frame_size [] = Unit
Fit max_frame_size (p ∷ ps) = (length p ≤ max_frame_size) × Fit max_frame_size ps

module _ {S : Type 0} (max_frame_size : ℕ) (handle : List ℕ → S → S) where
  -- The payloads handled in order.
  unfoldable pub handle_all : List (List ℕ) → S → S
  handle_all [] s = s
  handle_all (p ∷ ps) s = handle_all ps (handle p s)

  -- If the frames of some payloads arrive, none longer than the size limit, which is below 2 ^ 32, cut into
  -- segments in any way and with any timeouts in between, and the peer then closes, the loop handles exactly
  -- these payloads, in order. Any fuel above their number is enough.
  pub connection_loop-frames :
      (payloads : List (List ℕ)) (fuel : ℕ) (arrivals : List Arrival) (s : S)
      → max_frame_size < 2 ^ 32
      → Fit max_frame_size payloads
      → Flows arrivals
      → content arrivals ≡ frames payloads
      → length payloads < fuel
      → connection_loop max_frame_size handle fuel arrivals s ≡ some (handle_all payloads s)
  unfolding connection_loop frames handle_all
  connection_loop-frames payloads zero arrivals s small fit f e h = absurd (omega arith)
  connection_loop-frames [] (suc fuel) arrivals s small fit f e h =
      rw (Flows-stopped arrivals f, read_frame_end max_frame_size arrivals f e, connection_loop)
  connection_loop-frames (p ∷ ps) (suc fuel) arrivals s small (fits, fit) f e h =
      let (a, b, g) = read_frame-Framed max_frame_size p (frames ps) arrivals small fits f e in
      rw (Flows-stopped arrivals f, a, connection_loop)
        (connection_loop-frames ps fuel _ (handle p s) small fit g b (omega arith))
