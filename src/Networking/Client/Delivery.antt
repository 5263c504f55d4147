-- ===== src/Networking/Client/Delivery.antt =====
-- What becomes of the payloads of a peer's queue over all rounds of its thread (networking/tcp_client.py),
-- whatever its connections meet.
use mathlib.Core.Path.{subst}
use distributed_sensor_hub.Base.{
  ℕ, ◌+◌, ◌≡◌, refl, sym, ap, ◌∙◌, Bool, true, false, List, [], ◌∷◌, ◌++◌, map, arith, Bool-cases,
  inl, inr, if◌then◌else◌,
}
use distributed_sensor_hub.Networking.Client.{
  Settings, PeerWorker, drain, Round, after_drain, serve, next_backoff, run_round, run,
}
use distributed_sensor_hub.Networking.Client.Queue.{drain_all}
use distributed_sensor_hub.Networking.Server.Frames.{Fit}
use distributed_sensor_hub.Networking.Client.Fates.{
  payload_of, breaks, Fates, no-Fates, drain-Fates, Fates-chain, Fates-shift,
}

abbrev pub all_breaks : List Round → ℕ
all_breaks [] = 0
all_breaks (r ∷ rounds) = breaks r.sends + all_breaks rounds

-- The bytes of the connection that a round replaces by a new one.
abbrev closed : Round → PeerWorker → List ℕ
closed r w = if w.connected then [] else if r.connects then w.wire else []

-- The bytes of all connections, one after the other.
unfoldable pub transcript : Settings → List Round → PeerWorker → List ℕ
transcript cfg [] w = w.wire
transcript cfg (r ∷ rounds) w = closed r w ++ transcript cfg rounds (run_round cfg r w)

pub Fit-suffix : (m : ℕ) (ps qs : List (List ℕ)) → Fit m (ps ++ qs) → Fit m qs
Fit-suffix m [] qs h = h
Fit-suffix m (p ∷ ps) qs (_, h) = Fit-suffix m ps qs h

pub Fit-prefix : (m : ℕ) (ps qs : List (List ℕ)) → Fit m (ps ++ qs) → Fit m ps
Fit-prefix m [] qs h = tt
Fit-prefix m (p ∷ ps) qs (small, h) = (small, Fit-prefix m ps qs h)

after_drain_lem :
    (server_closed : Bool) (w : PeerWorker) (r : List (List ℕ) × List ℕ × Bool)
    → ((after_drain server_closed w r).queue ≡ r.0) × ((after_drain server_closed w r).wire ≡ r.1)
unfolding after_drain
after_drain_lem server_closed w (queue, wire, false) = (refl, refl)
after_drain_lem server_closed w ([], wire, true) = (refl, refl)
after_drain_lem server_closed w (p ∷ queue, wire, true) = (refl, refl)

serve-Fates :
    (m : ℕ) (r : Round) (w : PeerWorker)
    → Fit m w.queue
    → Fates w.queue (serve m r w).queue w.wire (serve m r w).wire (breaks r.sends)
unfolding serve
serve-Fates m r w fit =
    let (queue, wire) = after_drain_lem r.server_closed w (drain m w.queue r.sends w.wire) in
    rw (queue, wire) (drain-Fates m w.queue r.sends w.wire fit)

module _ (cfg : Settings) (r : Round) (w : PeerWorker) where
  RoundFates : List ℕ → PeerWorker → Type 0
  RoundFates x v = Fates w.queue v.queue w.wire (x ++ v.wire) (breaks r.sends)

  round_of :
      {v : PeerWorker} {x : List ℕ}
      → closed r w ≡ x
      → run_round cfg r w ≡ v
      → RoundFates x v
      → RoundFates (closed r w) (run_round cfg r w)
  round_of {v} e f h =
      subst (RoundFates (closed r w)) (sym f) (subst (λ x. RoundFates x v) (sym e) h)

  run_round-Fates : Fit cfg.max_frame_size w.queue → RoundFates (closed r w) (run_round cfg r w)
  unfolding run_round RoundFates
  run_round-Fates fit = elim (Bool-cases w.connected) [
    | inl up ↦
        round_of {v = serve cfg.max_frame_size r w} {x = []} (ground arith) (ground arith)
          (serve-Fates cfg.max_frame_size r w fit)
    | inr down ↦ elim (Bool-cases r.connects) [
      | inl connects ↦
          let v = record w { connected = true; wire = []; backoff = cfg.backoff_initial } in
          let v' = serve cfg.max_frame_size r v in
          round_of {v = v'} {x = w.wire} (ground arith) (ground arith) (
            Fates-shift w.queue v'.queue w.wire v'.wire (breaks r.sends)
              (serve-Fates cfg.max_frame_size r v fit))
      | inr fails ↦
          round_of {v = record w { backoff = next_backoff cfg w.backoff }} {x = []} (ground arith)
            (ground arith) (no-Fates w.queue w.wire (breaks r.sends))
    ]
  ]

run-Fates :
    (cfg : Settings) (rounds : List Round) (w : PeerWorker)
    → Fit cfg.max_frame_size w.queue
    → Fates w.queue (run cfg rounds w).queue w.wire (transcript cfg rounds w) (all_breaks rounds)
unfolding run transcript RoundFates
run-Fates cfg [] w fit = no-Fates w.queue w.wire 0
run-Fates cfg (r ∷ rounds) w fit =
    let first = run_round-Fates cfg r w fit in
    let w' = run_round cfg r w in
    let fit' =
      Fit-suffix cfg.max_frame_size (map payload_of first.fates) w'.queue
        (subst (Fit cfg.max_frame_size) first.order fit) in
    Fates-chain w.queue w'.queue (run cfg rounds w').queue (closed r w) w.wire w'.wire
      (transcript cfg rounds w') (breaks r.sends) (all_breaks rounds) first
      (run-Fates cfg rounds w' fit')

-- A round in which the peer can be reached and takes everything.
abbrev pub good : Round
good = record { connects = true; sends = []; server_closed = false }

good-empties :
    (cfg : Settings) (w : PeerWorker)
    → Fit cfg.max_frame_size w.queue
    → ((run_round cfg good w).queue ≡ []) × ((run_round cfg good w).connected ≡ true)
unfolding run_round serve after_drain
good-empties cfg w fit = elim (Bool-cases w.connected) [
  | inl up ↦ ground (arith, drain_all cfg.max_frame_size w.queue w.wire fit)
  | inr down ↦ ground (arith, drain_all cfg.max_frame_size w.queue [] fit)
]

run-append :
    (cfg : Settings) (rounds : List Round) (r : Round) (w : PeerWorker)
    → run cfg (rounds ++ (r ∷ [])) w ≡ run_round cfg r (run cfg rounds w)
unfolding run
run-append cfg [] r w = refl
run-append cfg (x ∷ rounds) r w = run-append cfg rounds r (run_round cfg x w)

-- Whatever the rounds of a peer's thread meet (failed attempts to connect, sends that break after some
-- bytes, connections that the server closes), after one more round in which the peer can be reached and
-- takes everything, no payload of the queue is left: each was written as a whole frame or, at most one for
-- each failed send, torn, in the order of the queue, over one connection after another. No payload
-- is over the size limit.
pub run_delivers :
    (cfg : Settings) (rounds : List Round) (w : PeerWorker)
    → Fit cfg.max_frame_size w.queue
    → let all = rounds ++ (good ∷ []) in
      ((run cfg all w).queue ≡ [])
      × ((run cfg all w).connected ≡ true)
      × Fates w.queue [] w.wire (transcript cfg all w) (all_breaks all)
run_delivers cfg rounds w fit =
    let all = rounds ++ (good ∷ []) in
    let before = run-Fates cfg rounds w fit in
    let left = run cfg rounds w in
    let fit' =
      Fit-suffix cfg.max_frame_size (map payload_of before.fates) left.queue
        (subst (Fit cfg.max_frame_size) before.order fit) in
    let (empties, up) = good-empties cfg left fit' in
    let last = run-append cfg rounds good w in
    let none_left = ap (λ v. v.queue) last ∙ empties in
    (
      none_left,
      ap (λ v. v.connected) last ∙ up,
      subst (λ q. Fates w.queue q w.wire (transcript cfg all w) (all_breaks all)) none_left
          (run-Fates cfg all w fit),
    )
