-- ===== src/Replication/Network/Steps.antt =====
-- Each step of a network keeps what Invariant states of it.
use mathlib.Core.List.Memᴰ
use mathlib.Core.List.{Memᴰ}
use mathlib.Core.Path.{subst}
use distributed_sensor_hub.Base.{
  ◌≡◌, ◌⊎◌, refl, sym, ap, ◌∙◌, inl, inr, String, Option, none, some, List, [], ◌∷◌, ◌++◌, arith,
  string_eq, Option-cases,
}
use distributed_sensor_hub.Base.Lists.{Memᴰ-cases}
use distributed_sensor_hub.Base.Text.{Free}
use distributed_sensor_hub.Protocol.Handlers.{sensor_update_args, handle_sensor_update}
use distributed_sensor_hub.Protocol.Message.{Message}
use distributed_sensor_hub.Replication.Messages.{Carries}
use distributed_sensor_hub.Replication.Network.{
  Network, put, event_calls, start, sense, receive, view, Step, senses, publishes, receives, views,
  Reach, begin, start, next,
}
use distributed_sensor_hub.Replication.Network.Invariant.{
  IsSound, start-IsSound, put_elim, moved-IsSound,
}
use distributed_sensor_hub.Replication.Network.Publishing.{publish-IsSound}
use distributed_sensor_hub.Replication.Network.Moves.{
  get_updates_snapshot-Moves, handle_sensor_update-Moves, run_once-Moves,
}
use distributed_sensor_hub.State.Convergence.{Writes}
use distributed_sensor_hub.State.Record.{Record}
use distributed_sensor_hub.State.Worker.{
  Update, check_update, event_update, run_once, get_updates_snapshot,
}
use distributed_sensor_hub.Value.{Fields, str}

Writes-append_left :
    (us vs : List Update) (k : String) (r : Record) → Writes us k r → Writes (us ++ vs) k r
Writes-append_left us vs k r (u, m, e) = (u, Memᴰ.append_left vs m, e)

Writes-append_right :
    (us vs : List Update) (k : String) (r : Record) → Writes vs k r → Writes (us ++ vs) k r
Writes-append_right us vs k r (u, m, e) = (u, Memᴰ.append_right us m, e)

Writes-append_cases :
    (us vs : List Update) (k : String) (r : Record)
    → Writes (us ++ vs) k r
    → Writes us k r ⊎ Writes vs k r
Writes-append_cases us vs k r (u, m, e) = elim (Memᴰ.append_cases us m) [
  | inl l ↦ inl (u, l, e)
  | inr l ↦ inr (u, l, e)
]

event_update-origin :
    (i : String) (e : Fields) (u : Update) → event_update i e ≡ some u → u.origin ≡ str i
unfolding event_update
event_update-origin i e u h = ground arith

check_update-origin :
    (u : Update) (i k : String) (r : Record)
    → u.origin ≡ str i
    → check_update u ≡ some (k, r)
    → r.origin ≡ i
unfolding check_update
check_update-origin u i k r from valid = ground arith

event_calls-origin :
    (i : String) (e : Option Fields) (k : String) (r : Record)
    → Writes (event_calls i e) k r
    → r.origin ≡ i
unfolding event_calls
event_calls-origin i none k r (u, m, valid) = elim m [ ]
event_calls-origin i (some e) k r (u, m, valid) = elim (Option-cases (event_update i e)) [
  | inl bad ↦ absurd (elim (rw (bad, event_calls) at m) [ ])
  | inr (v, read) ↦ elim (Memᴰ-cases (rw (read, event_calls) at m)) [
    | inl here ↦
        check_update-origin v i k r (event_update-origin i e v read)
          (ap check_update (sym here) ∙ valid)
    | inr later ↦ elim later [ ]
  ]
]

module _ (nodes : List String) (net : Network) (h : IsSound nodes net) (i : String)
    (member : Memᴰ i nodes) where
  sense-IsSound : (e : Option Fields) → IsSound nodes (sense i e net)
  sense-IsSound e =
      let us = event_calls (net.workers i).node_id e in
      moved-IsSound nodes net i us (run_once (net.workers i) e) (us ++ net.events) net.received h
        member (run_once-Moves (net.workers i) e) (Writes-append_right us net.events)
        (Writes-append_left us net.events)
        (λ k r w. elim (Writes-append_cases us net.events k r w) [
          | inl new ↦ inr (event_calls-origin _ e k r new ∙ h.id i, new)
          | inr old ↦ inl old
        ])
        (λ j m there. inl there)

  view-IsSound : IsSound nodes (view i net)
  view-IsSound =
      moved-IsSound nodes net i [] (get_updates_snapshot (net.workers i)).0 net.events net.received
        h member (get_updates_snapshot-Moves (net.workers i)) (λ k r w. w)
        (λ k r (u, m, e). elim m [ ]) (λ k r w. inl w) (λ j m there. inl there)

  pub receive-IsSound : (m : Message) → Memᴰ m net.sent → IsSound nodes (receive i m net)
  receive-IsSound m there =
      let (k, r, carries, written, from) = h.sound m there in
      moved-IsSound nodes net i (sensor_update_args m ∷ []) (handle_sensor_update (net.workers i) m)
        net.events (put i (m ∷ net.received i) net.received) h member
        (handle_sensor_update-Moves (net.workers i) m) (λ k r w. w)
        (λ j s (u, here, valid). elim (Memᴰ-cases here) [
          | inl same ↦
              let e : ◌≡◌ {A = Option (String × Record)} (some (k, r)) (some (j, s)) =
                sym carries ∙ ap check_update (sym same) ∙ valid in
              let key : k ≡ j = cc in
              let rec : r ≡ s = cc in
              subst (λ x. Writes net.events j x) rec
                (subst (λ x. Writes net.events x r) key written)
          | inr later ↦ elim later [ ]
        ])
        (λ k r w. inl w)
        (put_elim
          (λ j ms.
            (x : Message)
            → Memᴰ x ms
            → Memᴰ x (net.received j)
              ⊎ ((j ≡ i)
                  × ((k : String) (r : Record)
                      → Carries x k r
                      → Writes (sensor_update_args m ∷ []) k r)))
          i _ net.received
          (λ x y. elim (Memᴰ-cases y) [
            | inl here ↦ inr (
              refl,
              λ k r c. (
                sensor_update_args m,
                Memᴰ.head refl,
                ap (λ z. check_update (sensor_update_args z)) (sym here) ∙ c,
              ),
            )
            | inr before ↦ inl before
          ])
          (λ j x y. inl y))

pub Step-IsSound :
    (nodes : List String)
    → ((j : String) → Memᴰ j nodes → Free b':' j)
    → {net net' : Network} → IsSound nodes net
    → Step nodes net net'
    → IsSound nodes net'
Step-IsSound nodes names {net} h (senses i e member) = sense-IsSound nodes net h i member e
Step-IsSound nodes names {net} h (publishes i peers tick member) =
    publish-IsSound nodes net h i member names peers tick
Step-IsSound nodes names {net} h (receives i m member there) =
    receive-IsSound nodes net h i member m there
Step-IsSound nodes names {net} h (views i member) = view-IsSound nodes net h i member

Reach-IsSound_from :
    (nodes : List String)
    → ((j : String) → Memᴰ j nodes → Free b':' j)
    → {net net' : Network} → IsSound nodes net
    → Reach nodes net net'
    → IsSound nodes net'
Reach-IsSound_from nodes names h begin = h
Reach-IsSound_from nodes names h (next r s) =
    Step-IsSound nodes names (Reach-IsSound_from nodes names h r) s

-- In every state that a network reaches from its start, a node holds only records that events of their
-- origins wrote, no event's record gives way to an older one at its origin nor at a node that received
-- it, and what a node holds of its own waits for its publisher, was passed to the sending to the peers of its
-- table, or was lost in a round of the publisher that found no peers. No id of a node has a colon.
pub Reach-IsSound :
    (nodes : List String)
    → ((j : String) → Memᴰ j nodes → Free b':' j)
    → {net : Network} → Reach nodes start net
    → IsSound nodes net
Reach-IsSound nodes names = Reach-IsSound_from nodes names (start-IsSound nodes)
