-- ===== src/Tests/Network.antt =====
-- Two nodes, one reading, one round of the publisher and one arrival (state/, protocol/handlers.py), and the
-- theorems on networks at them.
use mathlib.Core.List.{Memᴰ}
use mathlib.Core.Path.{subst}
use distributed_sensor_hub.Base.{
  ℕ, ◌≡◌, ◌≢◌, ◌⊎◌, refl, sym, ap, ◌∙◌, inl, inr, String, true, false, Option, some, List, [], ◌∷◌,
  arith, ◌==◌, string_eq, ℕ_discrete,
}
use distributed_sensor_hub.Base.Int.{ℤ, pos}
use distributed_sensor_hub.Base.Dict
use distributed_sensor_hub.Base.Dict.{lookup_cases, lookup-nil}
use distributed_sensor_hub.Base.Lists.{Memᴰ-cases}
use distributed_sensor_hub.Base.Text.{Free, split_first}
use distributed_sensor_hub.Protocol.Handlers.{
  handle_sensor_update, merge_if_valid, sensor_update_args,
}
use distributed_sensor_hub.Protocol.Message.{Message}
use distributed_sensor_hub.Replication.Network.{
  Network, start, sense, publish, sent_to, lost_without, receive, senses, publishes, receives,
  Reach, begin, next, event_calls,
}
use distributed_sensor_hub.Replication.Messages.{local_messages, round_messages}
use distributed_sensor_hub.Replication.Network.Agreement.{IsSettled, settled_as_one}
use distributed_sensor_hub.Replication.Network.Invariant.{IsSound}
use distributed_sensor_hub.Replication.Network.Steps.{Reach-IsSound}
use distributed_sensor_hub.State.Convergence.{deliver, Consistent}
use distributed_sensor_hub.State.Publisher.{update_message}
use distributed_sensor_hub.State.Record.{Record}
use distributed_sensor_hub.State.Worker.{
  Update, init, global_id, group, run_once, handle_sensor_event, event_update, merge_update,
  check_update, merge_record, store, shown_origin, normalize_meta, pop_replication_updates,
}
use distributed_sensor_hub.Value.{Fields, str, int, obj, truthy, field, end, index, get_or}
use distributed_sensor_hub.Tests.Membership.{peer_b}
use distributed_sensor_hub.Tests.State.{first_record}

abbrev nodes : List String
nodes = "a" ∷ "b" ∷ []

abbrev reading : Fields
reading =
    field "sensor_id" (str "temp") (field "value" (int (pos 20)) (field "ts_ms" (int (pos 5)) end))

-- The call that the reading leads to.
abbrev reading_update : Update
reading_update = record {
  sensor_id = str "temp";
  value = int (pos 20);
  ts_ms = int (pos 5);
  origin = str "a";
  meta = obj end;
}

abbrev tick : ℕ → ℤ
tick i = pos 5

abbrev sensed : Network
sensed = sense "a" (some reading) start

abbrev announced : Network
announced = publish "a" (peer_b ∷ []) tick sensed

abbrev the_message : Message
the_message = update_message "a" (global_id "a" "temp") first_record (pos 5)

abbrev settled : Network
settled = receive "b" the_message announced

a-member : Memᴰ "a" nodes
a-member = Memᴰ.head refl

b-member : Memᴰ "b" nodes
b-member = Memᴰ.tail (Memᴰ.head refl)

announced-sent : announced.sent ≡ the_message ∷ []
unfolding sent_to round_messages local_messages group string_eq run_once handle_sensor_event
    event_update index merge_update check_update merge_record Dict.lookup store Dict.insert
    shown_origin normalize_meta get_or
announced-sent = refl

a-pending : (settled.workers "a").updates_replication ≡ []
unfolding string_eq pop_replication_updates
a-pending = refl

b-pending : (settled.workers "b").updates_replication ≡ ("temp", first_record) ∷ []
unfolding handle_sensor_update string_eq merge_if_valid sensor_update_args get_or update_message
    split_first global_id ℕ_discrete truthy merge_update check_update merge_record Dict.lookup store
    Dict.insert normalize_meta
b-pending = refl

settled-events : settled.events ≡ reading_update ∷ []
unfolding event_calls event_update index get_or string_eq
settled-events = refl

settled-reached : Reach nodes start settled
settled-reached =
    next
      (next (next begin (senses "a" (some reading) a-member))
        (publishes "a" (peer_b ∷ []) tick a-member))
      (receives "b" the_message b-member (rw announced-sent (Memᴰ.head refl)))

-- Calls of which there is one.
one_call-Consistent : (u : Update) → Consistent (u ∷ [])
one_call-Consistent u k r s (v, m, x) (w, n, y) same = elim (Memᴰ-cases m) [
  | inl e ↦ elim (Memᴰ-cases n) [
    | inl f ↦
        let both : ◌≡◌ {A = Option (String × Record)} (some (k, r)) (some (k, s)) =
          sym x ∙ ap check_update (e ∙ sym f) ∙ y in
        cc
    | inr later ↦ elim later [ ]
  ]
  | inr later ↦ elim later [ ]
]

settled-Consistent : Consistent settled.events
settled-Consistent = rw settled-events (one_call-Consistent reading_update)

a-ne-b : ◌≢◌ {A = String} "a" "b"
unfolding string_eq
a-ne-b h = let e : true ≡ false = ap (λ s. s == "a") h in absurd (cc)

the_message-sender : the_message.sender_id ≡ "a"
unfolding update_message
the_message-sender = refl

b-received : settled.received "b" ≡ the_message ∷ []
unfolding string_eq
b-received = refl

waiting_at :
    (i j k : String) (d : Dict.Dict String Record) (r : Record)
    → i ≡ j
    → (settled.workers j).updates_replication ≡ d
    → Dict.lookup k (settled.workers i).updates_replication ≡ some r
    → Dict.lookup k d ≡ some r
waiting_at i j k d r same held h =
    ap (Dict.lookup k) (sym held)
    ∙ ap (λ n. Dict.lookup k (settled.workers n).updates_replication) (sym same)
    ∙ h

settled-none_lost : settled.unsent ≡ []
unfolding lost_without
settled-none_lost = refl

settled-IsSettled : IsSettled nodes settled
settled-IsSettled = record {
  published = published;
  none_lost = settled-none_lost;
  arrived = arrived;
}
  where
    published :
        (i k : String) (r : Record)
        → Memᴰ i nodes
        → Dict.lookup k (settled.workers i).updates_replication ≡ some r
        → r.origin ≢ i
    published i k r (Memᴰ.head e) h =
        let there = waiting_at i "a" k [] r e a-pending h in
        absurd (ground (arith, lookup-nil {V = Record} k))
    published i k r (Memᴰ.tail (Memᴰ.head e)) h =
        let there = waiting_at i "b" k (("temp", first_record) ∷ []) r e b-pending h in
        elim (lookup_cases "temp" k r first_record [] there) [
          | inl (_, same) ↦ λ own. a-ne-b (ap (λ x. x.origin) same ∙ own ∙ e)
          | inr (_, later) ↦ absurd (ground (arith, lookup-nil {V = Record} k))
        ]
    published i k r (Memᴰ.tail (Memᴰ.tail m)) h = elim m [ ]

    only : (m : Message) → Memᴰ m settled.sent → m ≡ the_message
    only m q = elim (Memᴰ-cases (rw announced-sent at q)) [ inl e ↦ e | inr later ↦ elim later [ ] ]

    arrived :
        (i : String) (m : Message)
        → Memᴰ i nodes
        → Memᴰ m settled.sent
        → Memᴰ m (settled.received i) ⊎ (m.sender_id ≡ i)
    arrived i m (Memᴰ.head e) q =
        inr (ap (λ x. x.sender_id) (only m q) ∙ the_message-sender ∙ sym e)
    arrived i m (Memᴰ.tail (Memᴰ.head e)) q =
        inl (subst (Memᴰ m) (sym (ap settled.received e ∙ b-received)) (Memᴰ.head (only m q)))
    arrived i m (Memᴰ.tail (Memᴰ.tail n)) q = elim n [ ]

nodes-Free : (i : String) → Memᴰ i nodes → Free b':' i
nodes-Free i (Memᴰ.head e) = subst (Free b':') (sym e) ((λ x. absurd (omega arith)), tt)
nodes-Free i (Memᴰ.tail (Memᴰ.head e)) = subst (Free b':') (sym e) ((λ x. absurd (omega arith)), tt)
nodes-Free i (Memᴰ.tail (Memᴰ.tail m)) = elim m [ ]

settled_as_one_example :
    Dict.lookup "temp" (settled.workers "b").state
    ≡ Dict.lookup "temp" (deliver (init "one") settled.events).state
settled_as_one_example =
    settled_as_one nodes nodes-Free settled-reached settled-Consistent settled-IsSettled "b" "one"
      "temp" b-member

Reach-IsSound_example : IsSound nodes settled
Reach-IsSound_example = Reach-IsSound nodes nodes-Free settled-reached
