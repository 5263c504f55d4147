-- ===== src/State/Single.antt =====
-- Calls of `merge_update` (state/node_state_worker.py) that all bring one record of a sensor.
use mathlib.Core.List.{Memᴰ}
use distributed_sensor_hub.Base.{
  ◌≡◌, ◌⊎◌, refl, sym, ap, ◌∙◌, inl, inr, String, Option, none, some, List, [], ◌∷◌, arith,
  string_eq, Option-cases,
}
use distributed_sensor_hub.Base.Lists.{Memᴰ-cases}
use distributed_sensor_hub.State.Convergence.{receive_all, Writes}
use distributed_sensor_hub.State.Lww.{register, receive, wins}
use distributed_sensor_hub.State.Record.{Record, stamp, newer_irrefl}
use distributed_sensor_hub.State.Worker.{Update, check_update}

register_again : (old : Option Record) (r : Record) → register (register old r) r ≡ register old r
unfolding register wins
register_again none r = ground (arith, newer_irrefl (stamp r))
register_again (some s) r = ground (arith, newer_irrefl (stamp r))

receive_hit :
    (j : String) (old : Option Record) (u : Update) (r : Record)
    → check_update u ≡ some (j, r)
    → receive j old u ≡ register old r
unfolding receive
receive_hit j old u r valid = ground arith

receive_cases :
    (j : String) (old : Option Record) (u : Update)
    → (receive j old u ≡ old) ⊎ ((r : Record) × (check_update u ≡ some (j, r)))
unfolding receive
receive_cases j old u = elim (Option-cases (check_update u)) [
  | inl bad ↦ inl (ground arith)
  | inr ((k, r), valid) ↦ elim (string_eq.dec j k) [
    | yes here ↦ inr (r, valid ∙ ap (λ i. some (i, r)) (sym here))
    | no other ↦ inl (ground arith)
  ]
]

-- Calls that do not beat the register leave it.
pub receive_all-stays :
    (j : String) (old : Option Record) (us : List Update)
    → ((s : Record) → Writes us j s → register old s ≡ old)
    → receive_all j old us ≡ old
unfolding receive_all
receive_all-stays j old [] h = refl
receive_all-stays j old (u ∷ us) h =
    let rest = receive_all-stays j old us (λ s w. h s (w.0, Memᴰ.tail w.1, w.2)) in
    elim (receive_cases j old u) [
      | inl stays ↦ ap (λ o. receive_all j o us) stays ∙ rest
      | inr (r, valid) ↦
          ap (λ o. receive_all j o us)
            (receive_hit j old u r valid ∙ h r (u, Memᴰ.head refl, valid))
          ∙ rest
    ]

-- Calls of which at least one writes the sensor, and all that do write the same record.
pub receive_all-one :
    (j : String) (r : Record) (old : Option Record) (us : List Update)
    → ((s : Record) → Writes us j s → s ≡ r)
    → Writes us j r
    → receive_all j old us ≡ register old r
unfolding receive_all
receive_all-one j r old [] only (u, m, valid) = elim m [ ]
receive_all-one j r old (u ∷ us) only (v, m, valid) =
    let later : (s : Record) → Writes us j s → s ≡ r = λ s w. only s (w.0, Memᴰ.tail w.1, w.2) in
    let hit : check_update u ≡ some (j, r) → receive_all j old (u ∷ us) ≡ register old r = λ e.
      ap (λ o. receive_all j o us) (receive_hit j old u r e)
      ∙ receive_all-stays j (register old r) us
          (λ s w. ap (register (register old r)) (later s w) ∙ register_again old r) in
    elim (Memᴰ-cases m) [
      | inl here ↦ hit (ap check_update (sym here) ∙ valid)
      | inr there ↦ elim (receive_cases j old u) [
        | inl stays ↦
            ap (λ o. receive_all j o us) stays ∙ receive_all-one j r old us later (v, there, valid)
        | inr (s, also) ↦ hit (also ∙ ap (λ t. some (j, t)) (only s (u, Memᴰ.head refl, also)))
      ]
    ]
