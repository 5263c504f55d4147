-- ===== src/Networking/Server/Halting.antt =====
-- The loop of networking/tcp_server.py ends: each frame takes at least the four bytes of its header.
use mathlib.Core.Path.{subst}
use distributed_sensor_hub.Base.{
  ℕ, zero, suc, ◌+◌, ◌-◌, ◌≤◌, ◌<◌, ◌≡◌, refl, inl, inr, false, Option, none, some, List, [], ◌∷◌,
  ◌++◌, arith, leb, nat_eq, Bool-cases, Option-cases,
}
use distributed_sensor_hub.Base.Lists.{length, drop, length-append, length-drop}
use distributed_sensor_hub.Networking.Framing.{unpack, frame}
use distributed_sensor_hub.Networking.Server.{
  Arrival, bytes, timeout, reset, halt, recv_exact, read_payload, read_frame, stopped,
  connection_loop,
}
use distributed_sensor_hub.Networking.Server.Recv.{content}

ltb_of_leb : (a b : ℕ) → leb a b ≡ false → b < a
ltb_of_leb a b h = ground arith

-- The bytes that a read which succeeds takes from the stream.
recv_exact-length :
    (n : ℕ) (got : List ℕ) (arrivals : List Arrival) (y : List ℕ)
    → (recv_exact n got arrivals).0 ≡ some y
    → length (content (recv_exact n got arrivals).1) + n ≤ length (content arrivals)
unfolding recv_exact content
recv_exact-length zero got arrivals y e = omega arith
recv_exact-length (suc m) got [] y e = absurd (cc)
recv_exact-length (suc m) got (halt ∷ rest) y e = absurd (cc)
recv_exact-length (suc m) got (reset ∷ rest) y e = absurd (cc)
recv_exact-length (suc m) got (timeout ∷ rest) y e = recv_exact-length (suc m) got rest y e
recv_exact-length (suc m) got (bytes [] ∷ rest) y e = absurd (cc)
recv_exact-length (suc m) got (bytes (x ∷ xs) ∷ rest) y e =
    elim (Bool-cases (leb (length (x ∷ xs)) (suc m))) [
      | inl whole ↦ rw whole (
          omega (
            arith,
            length-append (x ∷ xs) (content rest),
            recv_exact-length (suc m - length (x ∷ xs)) (got ++ (x ∷ xs)) rest y (rw whole at e),
          ))
      | inr part ↦ rw part (
          omega (
            arith,
            length-append (drop (suc m) (x ∷ xs)) (content rest),
            length-append (x ∷ xs) (content rest),
            length-drop (suc m) (x ∷ xs),
            ltb_of_leb (length (x ∷ xs)) (suc m) part,
          ))
    ]

read_payload-length :
    (max_frame_size : ℕ) (r : Option (List ℕ) × List Arrival) (x : List ℕ)
    → (read_payload max_frame_size r).0 ≡ some x
    → ((h : List ℕ) × (r.0 ≡ some h))
      × (length (content (read_payload max_frame_size r).1) ≤ length (content r.1))
unfolding read_payload
read_payload-length max_frame_size (none, rest) x e = absurd (cc)
read_payload-length max_frame_size (some header, rest) x e =
    ((header, refl), ground (arith, recv_exact-length (unpack header) [] rest x))

read_frame-length :
    (max_frame_size : ℕ) (arrivals : List Arrival) (x : List ℕ)
    → (read_frame max_frame_size arrivals).0 ≡ some x
    → length (content (read_frame max_frame_size arrivals).1) < length (content arrivals)
unfolding read_frame
read_frame-length max_frame_size arrivals x e =
    let ((h, first), le) = read_payload-length max_frame_size (recv_exact 4 [] arrivals) x e in
    omega (arith, recv_exact-length 4 [] arrivals h first)

-- Whatever arrives, the loop ends, after fewer rounds than bytes arrived and one more.
pub connection_loop_total :
    {S : Type 0} (max_frame_size : ℕ) (handle : List ℕ → S → S) (fuel : ℕ) (arrivals : List Arrival)
    (s : S)
    → length (content arrivals) < fuel
    → (s' : S) × (connection_loop max_frame_size handle fuel arrivals s ≡ some s')
unfolding connection_loop
connection_loop_total max_frame_size handle zero arrivals s h = absurd (omega arith)
connection_loop_total max_frame_size handle (suc fuel) arrivals s h =
    elim (Bool-cases (stopped arrivals)) [
      | inl halted ↦ (s, rw (halted, connection_loop))
      | inr open_yet ↦ elim (Option-cases ((read_frame max_frame_size arrivals).0)) [
        | inl closed ↦ (s, rw (open_yet, closed, connection_loop))
        | inr (frame, e) ↦
            let (s', done) =
              connection_loop_total max_frame_size handle fuel
                (read_frame max_frame_size arrivals).1 (handle frame s)
                (omega (arith, read_frame-length max_frame_size arrivals frame e)) in
            (s', rw (open_yet, e, connection_loop) done)
      ]
    ]

-- What holds of a state, and of what handling a frame leaves of it, holds of what the loop leaves.
pub connection_loop-keeps :
    {S : Type 0} (P : S → Type 0) (max_frame_size : ℕ) (handle : List ℕ → S → S)
    → ((frame : List ℕ) (s : S) → P s → P (handle frame s))
    → (fuel : ℕ) (arrivals : List Arrival) (s s' : S) → P s
    → connection_loop max_frame_size handle fuel arrivals s ≡ some s'
    → P s'
unfolding connection_loop
connection_loop-keeps P max_frame_size handle step zero arrivals s s' p e = absurd (cc)
connection_loop-keeps P max_frame_size handle step (suc fuel) arrivals s s' p e =
    elim (Bool-cases (stopped arrivals)) [
      | inl halted ↦
          let same : some s ≡ some s' = rw (halted, connection_loop) at e in subst P (cc) p
      | inr open_yet ↦ elim (Option-cases ((read_frame max_frame_size arrivals).0)) [
        | inl closed ↦
            let same : some s ≡ some s' = rw (open_yet, closed, connection_loop) at e in
            subst P (cc) p
        | inr (frame, read) ↦
            connection_loop-keeps P max_frame_size handle step fuel
              (read_frame max_frame_size arrivals).1 (handle frame s) s' (step frame s p)
              (rw (open_yet, read, connection_loop) at e)
      ]
    ]
