-- ===== src/Tests/State.antt =====
-- Runs of the state worker (state/node_state_worker.py) on readings of two nodes, and its theorems at
-- them.
use mathlib.Core.List.{Memᴰ}
use distributed_sensor_hub.Base.{
  ◌≡◌, ◌≢◌, ◌⊎◌, inl, inr, refl, sym, ap, ◌∙◌, String, true, false, some, List, [], ◌∷◌, arith,
  string_eq, ◌==◌,
}
use distributed_sensor_hub.Base.Int.{pos}
use distributed_sensor_hub.Base.Dict
use distributed_sensor_hub.State.Record.{Record}
use distributed_sensor_hub.State.Worker.{
  Worker, init, Update, check_update, normalize_meta, merge_record, merge_update, store,
  get_state_snapshot, get_updates_snapshot,
}
use distributed_sensor_hub.State.Lww.{receive, applies, pending, merge_update_lem}
use distributed_sensor_hub.State.Convergence.{
  deliver, Writes, Newest, Consistent, Includes, deliver_converges, deliver-Newest,
}
use distributed_sensor_hub.State.Invariant.{
  IsValid, IsCurrent, Reach, Step, Reach-IsValid, init-IsValid, merge_update-IsValid,
}
use distributed_sensor_hub.State.Snapshot.{
  Shows, ColonFreeOrigins, get_state_snapshot-Shows, get_updates_snapshot-Shows,
}
use distributed_sensor_hub.Value.{Value, null, int, str, bool, whole, get_or}
use distributed_sensor_hub.Base.Text.{Free}
use distributed_sensor_hub.Base.Dict.{lookup_cases, lookup-nil}

abbrev reading : String → Value → Value → Update
reading origin ts_ms value = record {
  sensor_id = str "temp";
  value = value;
  ts_ms = ts_ms;
  origin = str origin;
  meta = null;
}

abbrev pub first : Update
first = reading "a" (int (pos 5)) (int (pos 20))

abbrev pub second : Update
second = reading "b" (int (pos 5)) (int (pos 21))

abbrev pub first_record : Record
first_record = record {
  value = int (pos 20);
  ts_ms = whole (pos 5);
  origin = "a";
  meta = record { unit = null; period_ms = null };
}

abbrev pub second_record : Record
second_record = record {
  value = int (pos 21);
  ts_ms = whole (pos 5);
  origin = "b";
  meta = record { unit = null; period_ms = null };
}

abbrev one_way : List Update
one_way = first ∷ second ∷ []

abbrev other_way : List Update
other_way = second ∷ first ∷ second ∷ []

pub first_valid : check_update first ≡ some ("temp", first_record)
unfolding check_update string_eq normalize_meta get_or
first_valid = refl

second_valid : check_update second ≡ some ("temp", second_record)
unfolding check_update string_eq normalize_meta get_or
second_valid = refl

written : (k : String) (r : Record) → Writes one_way k r → (r ≡ first_record) ⊎ (r ≡ second_record)
written k r (u, Memᴰ.head e, valid) = inl (ground (arith, first_valid))
written k r (u, Memᴰ.tail (Memᴰ.head e), valid) = inr (ground (arith, second_valid))
written k r (u, Memᴰ.tail (Memᴰ.tail m), valid) = elim m [ ]

a-ne-b : ◌≢◌ {A = String} "a" "b"
unfolding string_eq
a-ne-b h = let e : true ≡ false = ap (λ s. s == "a") h in absurd (cc)

one_way-Consistent : Consistent one_way
one_way-Consistent k r s x y same = elim (written k r x) [
  | inl p ↦ elim (written k s y) [
    | inl q ↦ p ∙ sym q
    | inr q ↦ absurd (a-ne-b (ap origin_of (sym p) ∙ ap (λ t. t.origin) same ∙ ap origin_of q))
  ]
  | inr p ↦ elim (written k s y) [
    | inl q ↦
        absurd (a-ne-b (ap origin_of (sym q) ∙ sym (ap (λ t. t.origin) same) ∙ ap origin_of p))
    | inr q ↦ p ∙ sym q
  ]
]
  where
    origin_of : Record → String
    origin_of r = r.origin

there : Includes one_way other_way
there u (Memᴰ.head e) = Memᴰ.tail (Memᴰ.head e)
there u (Memᴰ.tail (Memᴰ.head e)) = Memᴰ.head e
there u (Memᴰ.tail (Memᴰ.tail m)) = elim m [ ]

back : Includes other_way one_way
back u (Memᴰ.head e) = Memᴰ.tail (Memᴰ.head e)
back u (Memᴰ.tail (Memᴰ.head e)) = Memᴰ.head e
back u (Memᴰ.tail (Memᴰ.tail (Memᴰ.head e))) = Memᴰ.tail (Memᴰ.head e)
back u (Memᴰ.tail (Memᴰ.tail (Memᴰ.tail m))) = elim m [ ]

deliver_converges_example :
    Dict.lookup "temp" (deliver (init "a") one_way).state
    ≡ Dict.lookup "temp" (deliver (init "b") other_way).state
deliver_converges_example =
    deliver_converges one_way other_way there back one_way-Consistent "a" "b" "temp"

second_wins : Dict.lookup "temp" (deliver (init "b") other_way).state ≡ some second_record
unfolding deliver merge_update merge_record check_update store string_eq normalize_meta get_or
    Dict.lookup Dict.insert
second_wins = refl

first_written : Writes one_way "temp" first_record
first_written = (first, Memᴰ.head refl, first_valid)

deliver-Newest_example :
    (r : Record) × (Dict.lookup "temp" (deliver (init "a") one_way).state ≡ some r)
    × Newest one_way "temp" r
deliver-Newest_example = deliver-Newest "a" "temp" one_way first_written

abbrev pub holding : Worker
holding = (merge_update (init "a") second).0

merge_update_lem_example :
    let (w', applied) = merge_update holding first in
    (applied ≡ applies holding first)
    × (Dict.lookup "temp" w'.state ≡ receive "temp" (Dict.lookup "temp" holding.state) first)
    × (Dict.lookup "temp" w'.updates_ui
        ≡ pending "temp"
            (Dict.lookup "temp" holding.state)
            (Dict.lookup "temp" holding.updates_ui)
            first)
    × (Dict.lookup "temp" w'.updates_replication
        ≡ pending "temp"
            (Dict.lookup "temp" holding.state)
            (Dict.lookup "temp" holding.updates_replication)
            first)
merge_update_lem_example = merge_update_lem holding "temp" first

first_loses : (merge_update holding first).1 ≡ false
unfolding merge_update merge_record check_update store string_eq normalize_meta get_or Dict.lookup
    Dict.insert
first_loses = refl

-- A flag is no text, so the call is refused; as a time it counts as a number.
flag_accepted : (merge_update (init "a") (reading "a" (bool true) null)).1 ≡ true
unfolding merge_update merge_record check_update store string_eq normalize_meta get_or Dict.lookup
    Dict.insert
flag_accepted = refl

abbrev reached : Reach (init "a") holding
reached = Reach.next Reach.here (Step.merge second)

pub holding-IsValid : IsValid holding
holding-IsValid = merge_update-IsValid second (init-IsValid "a")

Reach-IsValid_example : IsValid holding
Reach-IsValid_example = Reach-IsValid "a" reached

holding_state : holding.state ≡ ("temp", second_record) ∷ []
unfolding merge_update merge_record check_update store string_eq normalize_meta get_or Dict.lookup
    Dict.insert
holding_state = refl

b-Free : Free b':' second_record.origin
b-Free = ((λ e. absurd (omega arith)), tt)

pub second-ColonFree :
    (d : Dict.Dict String Record) → d ≡ ("temp", second_record) ∷ [] → ColonFreeOrigins d
second-ColonFree d e k r h =
    elim (lookup_cases "temp" k r second_record [] (ap (Dict.lookup k) (sym e) ∙ h)) [
      | inl (_, same) ↦ rw (← same) b-Free
      | inr (_, later) ↦ absurd (ground (arith, lookup-nil {V = Record} k))
    ]

holding-ColonFree : ColonFreeOrigins holding.state
holding-ColonFree = second-ColonFree holding.state holding_state

get_state_snapshot-Shows_example : Shows holding.node_id (get_state_snapshot holding) holding.state
get_state_snapshot-Shows_example =
    get_state_snapshot-Shows holding holding-IsValid holding-ColonFree

get_updates_snapshot-Shows_example :
    let (w', view) = get_updates_snapshot holding in
    Shows holding.node_id view holding.updates_ui
    × IsCurrent holding.updates_ui holding.state
    × (w'.updates_ui ≡ [])
    × (w'.state ≡ holding.state)
    × (w'.updates_replication ≡ holding.updates_replication)
get_updates_snapshot-Shows_example =
    get_updates_snapshot-Shows holding holding-IsValid holding-ColonFree
