-- ===== src/State/Convergence.antt =====
-- Convergence of the replicated state: what a worker of state/node_state_worker.py holds for a
-- sensor after any series of `merge_update` calls.
use mathlib.Core.List.{Memᴰ}
use distributed_sensor_hub.Base.{
  ◌≡◌, refl, sym, ◌∙◌, ap, ◌⊎◌, inl, inr, String, false, Option, none, some, List, [], ◌∷◌, arith,
  string_eq, Option-cases,
}
use distributed_sensor_hub.Base.Dict
use distributed_sensor_hub.Base.Dict.{lookup-nil}
use distributed_sensor_hub.State.Record.{
  Record, stamp, newer, newer_irrefl, newer_trans, newer_connected,
}
use distributed_sensor_hub.State.Worker.{Worker, init, Update, check_update, merge_update}
use distributed_sensor_hub.State.Lww.{wins, register, receive, lookup-merge_update}

-- A worker after a series of calls.
unfoldable pub deliver : Worker → List Update → Worker
deliver w [] = w
deliver w (u ∷ us) = deliver (merge_update w u).0 us

-- One sensor's register after a series of calls.
unfoldable pub receive_all : String → Option Record → List Update → Option Record
receive_all k old [] = old
receive_all k old (u ∷ us) = receive_all k (receive k old u) us

pub lookup-deliver :
    (k : String) (w : Worker) (us : List Update)
    → Dict.lookup k (deliver w us).state ≡ receive_all k (Dict.lookup k w.state) us
unfolding deliver receive_all
lookup-deliver k w [] = refl
lookup-deliver k w (u ∷ us) =
    lookup-deliver k (merge_update w u).0 us
    ∙ ap (λ o. receive_all k o us) (lookup-merge_update w k u)

-- The record in the register is not older than `r`.
abbrev pub Covers : Record → Option Record → Type 0
Covers r none = ⊥
Covers r (some s) = newer (stamp r) (stamp s) ≡ false

register-Covers : (r s : Record) (old : Option Record) → Covers r old → Covers r (register old s)
unfolding register wins
register-Covers r s none h = elim h [ ]
register-Covers r s (some t) h = ground (arith, newer_trans (stamp r) (stamp s) (stamp t))

register-Covers_self : (r : Record) (old : Option Record) → Covers r (register old r)
unfolding register wins
register-Covers_self r none = newer_irrefl (stamp r)
register-Covers_self r (some t) = ground (arith, newer_irrefl (stamp r))

-- `us` holds a valid call that writes `r` to the sensor `k`.
abbrev pub Writes : List Update → String → Record → Type 0
Writes us k r = (u : Update) × Memᴰ u us × (check_update u ≡ some (k, r))

pub receive-Covers :
    (k : String) (r : Record) (old : Option Record) (u : Update)
    → Covers r old
    → Covers r (receive k old u)
unfolding receive
receive-Covers k r old u h = elim (Option-cases (check_update u)) [
  | inl e ↦ ground arith
  | inr ((j, s), e) ↦ ground (arith, register-Covers r s old h)
]

pub receive-Covers_self :
    (k : String) (r : Record) (old : Option Record) (u : Update)
    → check_update u ≡ some (k, r)
    → Covers r (receive k old u)
unfolding receive
receive-Covers_self k r old u e = ground (arith, register-Covers_self r old)

receive_all-Covers_old :
    (k : String) (r : Record) (old : Option Record) (us : List Update)
    → Covers r old
    → Covers r (receive_all k old us)
unfolding receive_all
receive_all-Covers_old k r old [] h = h
receive_all-Covers_old k r old (u ∷ us) h =
    receive_all-Covers_old k r (receive k old u) us (receive-Covers k r old u h)

-- No call is forgotten: the final record is at least as new as every record written.
receive_all-Covers :
    (k : String) (r : Record) {u : Update} (old : Option Record) {us : List Update}
    → Memᴰ u us
    → check_update u ≡ some (k, r)
    → Covers r (receive_all k old us)
unfolding receive_all
receive_all-Covers k r {u} old (Memᴰ.head {x = v} {xs = us} p) e =
    receive_all-Covers_old k r (receive k old v) us
      (receive-Covers_self k r old v (ap check_update (sym p) ∙ e))
receive_all-Covers k r old (Memᴰ.tail {x = v} m) e = receive_all-Covers k r (receive k old v) m e

pub receive-Writes :
    (k : String) (r : Record) (old : Option Record) (u : Update)
    → receive k old u ≡ some r
    → (old ≡ some r) ⊎ (check_update u ≡ some (k, r))
unfolding receive register
receive-Writes k r old u h = elim (Option-cases (check_update u)) [
  | inl e ↦ inl (ground arith)
  | inr ((j, s), e) ↦ ground arith
]

-- Nothing is made up: the final record is the old one, or one that a call wrote.
receive_all-Writes :
    (k : String) (r : Record) (old : Option Record) (us : List Update)
    → receive_all k old us ≡ some r
    → (old ≡ some r) ⊎ Writes us k r
unfolding receive_all
receive_all-Writes k r old [] e = inl e
receive_all-Writes k r old (u ∷ us) e = elim (receive_all-Writes k r (receive k old u) us e) [
  | inl now ↦ elim (receive-Writes k r old u now) [
    | inl before ↦ inl before
    | inr valid ↦ inr (u, Memᴰ.head refl, valid)
  ]
  | inr (v, m, valid) ↦ inr (v, Memᴰ.tail m, valid)
]

-- Two calls that write one sensor under one stamp write the same record.
abbrev pub Consistent : List Update → Type 0
Consistent us =
    (k : String) (r s : Record) → Writes us k r → Writes us k s → stamp r ≡ stamp s → r ≡ s

abbrev pub Includes : List Update → List Update → Type 0
Includes us vs = (u : Update) → Memᴰ u us → Memᴰ u vs

-- From an empty register every final record was written by a call.
pub final-Writes :
    (us : List Update) (k : String) (r : Record) → receive_all k none us ≡ some r → Writes us k r
final-Writes us k r e = elim (receive_all-Writes k r none us e) [ inl p ↦ cc | inr w ↦ w ]

pub Writes-Covers :
    (us : List Update) (k : String) (r : Record) → Writes us k r → Covers r (receive_all k none us)
Writes-Covers us k r (u, m, valid) = receive_all-Covers k r none m valid

Includes-Writes :
    {us vs : List Update} (k : String) (r : Record) → Includes us vs → Writes us k r → Writes vs k r
Includes-Writes k r there (u, m, valid) = (u, there u m, valid)

module _ (us vs : List Update) (there : Includes us vs) (back : Includes vs us)
    (same : Consistent us) where
  finals_agree :
      (k : String) (a b : Option Record)
      → receive_all k none us ≡ a
      → receive_all k none vs ≡ b
      → a ≡ b
  finals_agree k none none h g = refl
  finals_agree k none (some s) h g =
      absurd (rw h at (Writes-Covers us k s (Includes-Writes k s back (final-Writes vs k s g))))
  finals_agree k (some r) none h g =
      absurd (rw g at (Writes-Covers vs k r (Includes-Writes k r there (final-Writes us k r h))))
  finals_agree k (some r) (some s) h g =
      let wr = final-Writes us k r h in
      let ws = Includes-Writes k s back (final-Writes vs k s g) in
      let le : Covers r (some s) = rw g at (Writes-Covers vs k r (Includes-Writes k r there wr)) in
      let ge : Covers s (some r) = rw h at (Writes-Covers us k s ws) in
      ap some (same k r s wr ws (newer_connected (stamp r) (stamp s) le ge))

  registers_agree : (k : String) → receive_all k none us ≡ receive_all k none vs
  registers_agree k = finals_agree k _ _ refl refl

  -- Strong convergence: two fresh workers, of any node ids, that have handled the same calls in any
  -- order and with any repetitions hold the same record of every sensor, provided that two calls
  -- for one sensor with one timestamp and one origin carry the same record.
  pub deliver_converges :
      (a b k : String)
      → Dict.lookup k (deliver (init a) us).state ≡ Dict.lookup k (deliver (init b) vs).state
  deliver_converges a b k =
      lookup-deliver k (init a) us
      ∙ ap (λ o. receive_all k o us) (lookup-nil k)
      ∙ registers_agree k
      ∙ sym (ap (λ o. receive_all k o vs) (lookup-nil k))
      ∙ sym (lookup-deliver k (init b) vs)

-- Of all records that the calls write to the sensor `k`, `r` is one with the greatest stamp.
abbrev pub Newest : List Update → String → Record → Type 0
Newest us k r = Writes us k r × ((t : Record) → Writes us k t → newer (stamp t) (stamp r) ≡ false)

-- If a call wrote a sensor, a fresh worker that has handled the calls holds a record for it that
-- some call wrote, and no call wrote a newer one.
pub deliver-Newest :
    (a k : String) (us : List Update) {s : Record}
    → Writes us k s
    → (r : Record) × (Dict.lookup k (deliver (init a) us).state ≡ some r) × Newest us k r
deliver-Newest a k us {s} w = elim (Option-cases (receive_all k none us)) [
  | inl e ↦ absurd (rw e at (Writes-Covers us k s w))
  | inr (r, e) ↦ (
    r,
    lookup-deliver k (init a) us ∙ ap (λ o. receive_all k o us) (lookup-nil k) ∙ e,
    (final-Writes us k r e, λ t v. rw e at (Writes-Covers us k t v)),
  )
]
