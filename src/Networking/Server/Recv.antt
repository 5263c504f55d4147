-- ===== src/Networking/Server/Recv.antt =====
-- `_recv_exact` of networking/tcp_server.py: it gathers the next bytes of the stream, however the network
-- cuts the stream into segments.
use mathlib.Core.List.{append-nil, append_assoc}
use distributed_sensor_hub.Base.{
  ℕ, zero, suc, ◌-◌, ◌≤◌, ◌<◌, ◌≡◌, refl, sym, ap, ◌∙◌, inl, inr, Option, none, some, List, [], ◌∷◌,
  ◌++◌, arith, leb, nat_eq, Bool-cases,
}
use distributed_sensor_hub.Base.Lists.{
  length, take, drop, length-append, append-eq_take, take-append_le, take-append_ge, drop-append_le,
  drop-append_ge,
}
use distributed_sensor_hub.Networking.Server.{Arrival, bytes, timeout, reset, halt, recv_exact}

-- The bytes of the segments.
unfoldable pub content : List Arrival → List ℕ
content [] = []
content (bytes xs ∷ rest) = xs ++ content rest
content (_ ∷ rest) = content rest

-- Only segments with bytes and timeouts.
abbrev pub Flows : List Arrival → Type 0
Flows [] = Unit
Flows (bytes [] ∷ rest) = ⊥
Flows (bytes (x ∷ xs) ∷ rest) = Flows rest
Flows (timeout ∷ rest) = Flows rest
Flows (reset ∷ rest) = ⊥
Flows (halt ∷ rest) = ⊥

-- The next `n` bytes were received after `got`, and the rest waits.
abbrev Received : ℕ → List ℕ → List ℕ → Option (List ℕ) × List Arrival → Type 0
Received n got stream (result, rest) =
    (result ≡ some (got ++ take n stream)) × (content rest ≡ drop n stream) × Flows rest

Flows-drop :
    (n : ℕ) (xs : List ℕ) (rest : List Arrival)
    → n < length xs
    → Flows rest
    → Flows (bytes (drop n xs) ∷ rest)
unfolding drop
Flows-drop n [] rest h f = absurd (omega arith)
Flows-drop zero (x ∷ xs) rest h f = f
Flows-drop (suc n) (x ∷ xs) rest h f = Flows-drop n xs rest (omega arith) f

Received-whole :
    (n : ℕ) (got seg stream : List ℕ) (r : Option (List ℕ) × List Arrival)
    → length seg ≤ n
    → Received (n - length seg) (got ++ seg) stream r
    → Received n got (seg ++ stream) r
Received-whole n got seg stream (result, rest) h (a, b, f) = (
  rw (take-append_ge n seg stream h) (a ∙ ap some (append_assoc got seg _)),
  rw (drop-append_ge n seg stream h) b,
  f,
)

Received-part :
    (n : ℕ) (got seg : List ℕ) (rest : List Arrival)
    → n < length seg
    → Flows rest
    → Received n got (seg ++ content rest) (some (got ++ take n seg), bytes (drop n seg) ∷ rest)
unfolding content
Received-part n got seg rest h f = (
  rw (take-append_le n seg (content rest) (omega arith)),
  sym (drop-append_le n seg (content rest) (omega arith)),
  Flows-drop n seg rest h f,
)

recv_exact-Received :
    (n : ℕ) (got : List ℕ) (arrivals : List Arrival)
    → Flows arrivals
    → n ≤ length (content arrivals)
    → Received n got (content arrivals) (recv_exact n got arrivals)
unfolding recv_exact content
recv_exact-Received zero got arrivals f h =
    unfold take drop in (ap some (sym (append-nil got)), refl, f)
recv_exact-Received (suc m) got [] f h = absurd (omega arith)
recv_exact-Received (suc m) got (halt ∷ rest) f h = absurd f
recv_exact-Received (suc m) got (reset ∷ rest) f h = absurd f
recv_exact-Received (suc m) got (timeout ∷ rest) f h = recv_exact-Received (suc m) got rest f h
recv_exact-Received (suc m) got (bytes [] ∷ rest) f h = absurd f
recv_exact-Received (suc m) got (bytes (x ∷ xs) ∷ rest) f h =
    elim (Bool-cases (leb (length (x ∷ xs)) (suc m))) [
      | inl whole ↦ rw whole (
          Received-whole (suc m) got (x ∷ xs) (content rest)
            (recv_exact (suc m - length (x ∷ xs)) (got ++ (x ∷ xs)) rest) (ground arith)
            (recv_exact-Received (suc m - length (x ∷ xs)) (got ++ (x ∷ xs)) rest f
              (omega (arith, length-append (x ∷ xs) (content rest)))))
      | inr part ↦ rw part (Received-part (suc m) got (x ∷ xs) rest (ground arith) f)
    ]

-- Split at its length, a stream gives back a first part.
pub recv_exact-first :
    (got first later : List ℕ) (arrivals : List Arrival)
    → Flows arrivals
    → content arrivals ≡ first ++ later
    → let (result, rest) = recv_exact (length first) got arrivals in
      (result ≡ some (got ++ first)) × (content rest ≡ later) × Flows rest
recv_exact-first got first later arrivals f e =
    let (a, b, g) =
      recv_exact-Received (length first) got arrivals f
        (omega (arith, ap length e, length-append first later)) in
    let (t, d) = append-eq_take first later (content arrivals) (sym e) in
    (a ∙ ap (λ x. some (got ++ x)) t, b ∙ d, g)

-- Where nothing is left to read there is no further frame.
pub recv_exact_end :
    (m : ℕ) (got : List ℕ) (arrivals : List Arrival)
    → Flows arrivals
    → content arrivals ≡ []
    → (recv_exact (suc m) got arrivals).0 ≡ none
unfolding recv_exact content
recv_exact_end m got [] f e = refl
recv_exact_end m got (timeout ∷ rest) f e = recv_exact_end m got rest f e
recv_exact_end m got (bytes (x ∷ xs) ∷ rest) f e = absurd (cc)
recv_exact_end m got (bytes [] ∷ rest) f e = absurd f
recv_exact_end m got (halt ∷ rest) f e = absurd f
recv_exact_end m got (reset ∷ rest) f e = absurd f
