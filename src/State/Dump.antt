-- ===== src/State/Dump.antt =====
-- `dump_full_state` of state/node_state_worker.py: the records of the state by their origins.
pub mod Listing
use distributed_sensor_hub.Base.{
  ℕ, zero, suc, ◌+◌, ◌≡◌, refl, sym, ap, ◌∙◌, String, true, false, Option, none, some, List, [],
  ◌∷◌, ◌++◌, map, arith, ◌==◌, string_eq, Option-cases, Bool-cases, inl, inr, if◌then◌else◌,
}
use distributed_sensor_hub.Base.Dict
use distributed_sensor_hub.Base.Dict.{Dict}
use distributed_sensor_hub.Base.Lists.{length, length-append}
use distributed_sensor_hub.Base.Sorting.{
  sort_by, IsSorted, sort_by-Permᴰ, sort_by-IsSorted, length-Permᴰ, Permᴰ-Memᴰ, swap_blocks,
}
use distributed_sensor_hub.State.Record.{Record}
use distributed_sensor_hub.State.Worker.{Worker}
use distributed_sensor_hub.Value.{Value, PyInt}

pub record Item : Type 0 where
  pub sensor_id : String
  pub ts_ms : PyInt
  pub value : Value
  pub unit : Value
  pub period_ms : Value

pub record Bucket : Type 0 where
  pub count : ℕ
  pub sensors : List Item

pub record FullState : Type 0 where
  pub by_origin : Dict String Bucket
  pub total : ℕ

-- The origin under which a record is listed.
abbrev pub listed_origin : Record → String
listed_origin r = if r.origin == "" then "UNKNOWN" else r.origin

abbrev pub item : String → Record → Item
item sensor_id r = record {
  sensor_id = sensor_id;
  ts_ms = r.ts_ms;
  value = r.value;
  unit = r.meta.unit;
  period_ms = r.meta.period_ms;
}

-- The bucket with one item more; a new one where there is none.
abbrev pub add_item : Option Bucket → Item → Bucket
add_item none i = record { count = 1; sensors = i ∷ [] }
add_item (some b) i = record { count = suc b.count; sensors = b.sensors ++ (i ∷ []) }

-- A round of the loop: the item goes to the bucket of its origin.
unfoldable pub put : String → Item → Dict String Bucket → Dict String Bucket
put origin i by_origin = Dict.insert origin (add_item (Dict.lookup origin by_origin) i) by_origin

-- The loop over the records.
unfoldable pub collect : Dict String Record → Dict String Bucket → Dict String Bucket
collect [] by_origin = by_origin
collect ((sensor_id, r) ∷ rest) by_origin =
    collect rest (put (listed_origin r) (item sensor_id r) by_origin)

-- The loop that sorts the items of every bucket by their ids.
unfoldable pub sort_items : Dict String Bucket → Dict String Bucket
sort_items [] = []
sort_items ((origin, b) ∷ rest) =
    (origin, record b { sensors = sort_by (λ i. i.sensor_id) b.sensors }) ∷ sort_items rest

-- `dump_full_state`
unfoldable pub dump_full_state : Worker → FullState
dump_full_state w = record {
  by_origin = sort_by (λ entry. entry.0) (sort_items (collect w.state []));
  total = length w.state;
}
