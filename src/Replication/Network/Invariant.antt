-- ===== src/Replication/Network/Invariant.antt =====
-- What holds of a network of nodes at all times, in whatever order its nodes read sensors, publish and receive.
use mathlib.Core.List.{Memᴰ}
use mathlib.Core.Path.{subst}
use distributed_sensor_hub.Base.{
  ◌≡◌, ◌⊎◌, refl, sym, ◌∙◌, inl, inr, String, some, List, arith, string_eq,
}
use distributed_sensor_hub.Base.Dict
use distributed_sensor_hub.Base.Dict.{lookup-nil}
use distributed_sensor_hub.Protocol.Message.{Message}
use distributed_sensor_hub.Replication.Messages.{Carries}
use distributed_sensor_hub.Replication.Network.{Network, put, start}
use distributed_sensor_hub.Replication.Network.Moves.{Moves}
use distributed_sensor_hub.State.Convergence.{Covers, Writes}
use distributed_sensor_hub.State.Invariant.{IsValid, init-IsValid}
use distributed_sensor_hub.State.Record.{Record}
use distributed_sensor_hub.State.Worker.{Worker, Update}

-- What became of the record of its own that a node holds: it waits for the publisher, or a message with it was
-- sent, or was lost in a round without peers.
abbrev pub Announced : List Message → List Message → Worker → String → Record → Type 0
Announced sent unsent w k r =
    (Dict.lookup k w.updates_replication ≡ some r)
    ⊎ ((m : Message) × (Memᴰ m sent ⊎ Memᴰ m unsent) × Carries m k r)

-- `known`: every record that a node holds was written by an event. `origin`, `kept`: an event
-- is of one of the nodes, which holds a record not older. `own`: what a node holds of its own waits, was sent, or was lost
-- for want of peers. `sound`: a message carries the record of an event, from its origin. `got`: a node that received
-- a record holds one not older.
pub record IsSound (nodes : List String) (net : Network) : Type 0 where
  pub valid : (i : String) → IsValid (net.workers i)
  pub id : (i : String) → (net.workers i).node_id ≡ i
  pub known :
      (i k : String) (r : Record)
      → Dict.lookup k (net.workers i).state ≡ some r
      → Writes net.events k r
  pub origin : (k : String) (r : Record) → Writes net.events k r → Memᴰ r.origin nodes
  pub kept :
      (k : String) (r : Record)
      → Writes net.events k r
      → Covers r (Dict.lookup k (net.workers r.origin).state)
  pub own :
      (i k : String) (r : Record)
      → Dict.lookup k (net.workers i).state ≡ some r
      → r.origin ≡ i
      → Announced net.sent net.unsent (net.workers i) k r
  pub sound :
      (m : Message)
      → Memᴰ m net.sent
      → (k : String) × (r : Record) × Carries m k r
        × Writes net.events k r
        × (m.sender_id ≡ r.origin)
  pub got :
      (i k : String) (m : Message) (r : Record)
      → Memᴰ m (net.received i)
      → Carries m k r
      → Covers r (Dict.lookup k (net.workers i).state)

pub start-IsSound : (nodes : List String) → IsSound nodes start
start-IsSound nodes = record {
  valid = init-IsValid;
  id = λ i. refl;
  known = λ i k r h. absurd (ground (arith, lookup-nil {V = Record} k));
  origin = λ k r (u, m, e). elim m [ ];
  kept = λ k r (u, m, e). elim m [ ];
  own = λ i k r h o. absurd (ground (arith, lookup-nil {V = Record} k));
  sound = λ m h. elim h [ ];
  got = λ i k m r h c. elim h [ ];
}

-- What holds of the new value and of all others holds after `put`.
pub put_elim {ℓ κ} :
    {A : Type ℓ} (P : String → A → Type κ) (i : String) (x : A) (f : String → A)
    → P i x
    → ((j : String) → P j (f j))
    → (j : String) → P j (put i x f j)
put_elim P i x f now others j = elim (string_eq.dec j i) [
  | yes here ↦
      let e : put i x f j ≡ x = ground arith in
      subst (P j) (sym e) (subst (λ n. P n x) (sym here) now)
  | no other ↦ let e : put i x f j ≡ f j = ground arith in subst (P j) (sym e) (others j)
]

-- A step that moves one worker by calls `us`, all of which events led to.
module _ (nodes : List String) (net : Network) (i : String) (us : List Update) (w : Worker)
    (events : List Update) (received : String → List Message) where
  abbrev moved : Network
  moved = record {
    workers = put i w net.workers;
    sent = net.sent;
    unsent = net.unsent;
    received = received;
    events = events;
  }

  still :
      Moves us (net.workers i) w
      → (k : String) (r : Record) (j : String) → Covers r (Dict.lookup k (net.workers j).state)
      → Covers r (Dict.lookup k (moved.workers j).state)
  still moves k r =
      put_elim
        (λ n x. Covers r (Dict.lookup k (net.workers n).state) → Covers r (Dict.lookup k x.state)) i
        w net.workers (moves.keeps k r) (λ n c. c)

  fresh :
      Moves us (net.workers i) w
      → (k : String) (r : Record) (j : String) → j ≡ i
      → Writes us k r
      → Covers r (Dict.lookup k (moved.workers j).state)
  fresh moves k r j here written =
      let e : moved.workers j ≡ w = ground arith in
      subst (λ x. Covers r (Dict.lookup k x.state)) (sym e) (moves.takes k r written)

  pub moved-IsSound :
      IsSound nodes net
      → Memᴰ i nodes
      → Moves us (net.workers i) w
      → ((k : String) (r : Record) → Writes net.events k r → Writes events k r)
      → ((k : String) (r : Record) → Writes us k r → Writes events k r)
      → ((k : String) (r : Record)
          → Writes events k r
          → Writes net.events k r ⊎ ((r.origin ≡ i) × Writes us k r))
      → ((j : String) (m : Message)
          → Memᴰ m (received j)
          → Memᴰ m (net.received j)
            ⊎ ((j ≡ i) × ((k : String) (r : Record) → Carries m k r → Writes us k r)))
      → IsSound nodes moved
  moved-IsSound h member moves older newer recent arrived = record {
    valid = put_elim (λ _ x. IsValid x) i w net.workers (moves.valid (h.valid i)) h.valid;
    id = put_elim (λ j x. x.node_id ≡ j) i w net.workers (moves.id ∙ h.id i) h.id;
    known = λ j k r.
        put_elim (λ _ x. Dict.lookup k x.state ≡ some r → Writes events k r) i w net.workers
          (λ e. elim (moves.known k r e) [
            | inl before ↦ older k r (h.known i k r before)
            | inr written ↦ newer k r written
          ])
          (λ n e. older k r (h.known n k r e)) j;
    origin = λ k r e. elim (recent k r e) [
      | inl before ↦ h.origin k r before
      | inr (here, _) ↦ subst (λ n. Memᴰ n nodes) (sym here) member
    ];
    kept = λ k r e. elim (recent k r e) [
      | inl before ↦ still moves k r r.origin (h.kept k r before)
      | inr (here, written) ↦ fresh moves k r r.origin here written
    ];
    own = λ j k r.
        put_elim
          (λ n x.
            Dict.lookup k x.state ≡ some r → r.origin ≡ n → Announced net.sent net.unsent x k r)
          i w net.workers
          (λ e o. elim (moves.waits k r e) [
            | inl waits ↦ inl waits
            | inr (before, same) ↦ elim (h.own i k r before o) [
              | inl waits ↦ inl (same ∙ waits)
              | inr sent ↦ inr sent
            ]
          ])
          (λ n. h.own n k r) j;
    sound = λ m there.
        let (k, r, carries, written, from) = h.sound m there in
        (k, r, carries, older k r written, from);
    got = λ j k m r there carries. elim (arrived j m there) [
      | inl before ↦ still moves k r j (h.got j k m r before carries)
      | inr (here, written) ↦ fresh moves k r j here (written k r carries)
    ];
  }
