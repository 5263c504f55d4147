-- ===== src/State/Log/Lines.antt =====
-- What `log_full_state` of state/node_state_worker.py writes.
use mathlib.Core.List.{Permᴰ}
use distributed_sensor_hub.Base.{
  ℕ, suc, ◌+◌, ◌≡◌, refl, ap, ◌∙◌, String, ◌<>◌, Bool, true, false, Option, some, none, [], ◌∷◌,
  ◌++◌, map, arith, ◌==◌, ◌&&◌, ltb, leb, string_eq, if◌then◌else◌,
}
use distributed_sensor_hub.Base.Dict
use distributed_sensor_hub.Base.Dict.{
  Dict, NodupKeys, lookup-nil, lookup-insert, lookup_absent, insert-NodupKeys,
}
use distributed_sensor_hub.Base.Decimal.{show}
use distributed_sensor_hub.Base.Lists.{length}
use distributed_sensor_hub.Base.Sorting.{
  IsOrdered, IsSorted, after, after_pair, after_pair_asym, insert_with, sort_with, sort_by,
  sort_with-Permᴰ, sort_with-IsOrdered, sort_by-IsSorted, length-Permᴰ,
}
use distributed_sensor_hub.State.Dump.{listed_origin}
use distributed_sensor_hub.State.Log.{
  Format, Line, Log, Schedule, new_schedule, dump_now, maybe_log_periodic_dump, log_msg,
  format_record_line, sort_key, sort_records, count_of, count_by_origin, header, method_of,
  log_records, log_full_state,
}
use distributed_sensor_hub.State.Record.{Record}
use distributed_sensor_hub.State.Worker.{Worker}
use distributed_sensor_hub.Value.{of_int}

-- How many records are listed under an origin.
unfoldable pub occurrences : String → Dict String Record → ℕ
occurrences origin [] = 0
occurrences origin ((sensor_id, r) ∷ items) =
    let rest = occurrences origin items in if origin == listed_origin r then suc rest else rest

abbrev is_listed : String → String × Record → Bool
is_listed o (sensor_id, r) = o == listed_origin r

occurrences-Permᴰ :
    (o : String) {d e : Dict String Record} → Permᴰ d e → occurrences o d ≡ occurrences o e
unfolding occurrences
occurrences-Permᴰ o Permᴰ.nil = refl
occurrences-Permᴰ o (Permᴰ.cons {a = x} {l₁ = d} {l₂ = e} same p) =
    let rest = occurrences-Permᴰ o p in ap (λ y. occurrences o (y ∷ d)) same ∙ ground arith
occurrences-Permᴰ o (Permᴰ.swap {a = x} {b = y} {a' = y'} {b' = x'} {l = d} e f) =
    let first : is_listed o x ≡ is_listed o x' = ap (is_listed o) e in
    let second : is_listed o y ≡ is_listed o y' = ap (is_listed o) f in ground arith
occurrences-Permᴰ o (Permᴰ.trans p q) = occurrences-Permᴰ o p ∙ occurrences-Permᴰ o q

count_of-insert :
    (o p : String) (n : ℕ) (counts : Dict String ℕ)
    → count_of o (Dict.insert p n counts) ≡ (if o == p then n else count_of o counts)
unfolding count_of
count_of-insert o p n counts = ground (arith, lookup-insert o p n counts)

count_of-nil : (o : String) → count_of o [] ≡ 0
unfolding count_of
count_of-nil o = ground (arith, lookup-nil {V = ℕ} o)

count_of-count_by_origin :
    (o : String) (items : Dict String Record) (counts : Dict String ℕ)
    → count_of o (count_by_origin items counts) ≡ occurrences o items + count_of o counts
unfolding count_by_origin occurrences
count_of-count_by_origin o [] counts = omega arith
count_of-count_by_origin o ((k, r) ∷ items) counts =
    let p = listed_origin r in
    let counts' = Dict.insert p (suc (count_of p counts)) counts in
    let rest = count_of-count_by_origin o items counts' in
    ground (arith, count_of-insert o p (suc (count_of p counts)) counts)

count_by_origin-NodupKeys :
    (items : Dict String Record) (counts : Dict String ℕ)
    → NodupKeys counts
    → NodupKeys (count_by_origin items counts)
unfolding count_by_origin
count_by_origin-NodupKeys [] counts u = u
count_by_origin-NodupKeys ((k, r) ∷ items) counts u =
    let p = listed_origin r in
    count_by_origin-NodupKeys items _ (insert-NodupKeys p (suc (count_of p counts)) counts u)

-- Sorting the entries of a dict changes no look-up.
module _ (late : String × ℕ → String × ℕ → Bool) where
  lookup-insert_with :
      (k j : String) (n : ℕ) (d : Dict String ℕ)
      → Dict.lookup j d ≡ none
      → Dict.lookup k (insert_with late (j, n) d) ≡ (if k == j then some n else Dict.lookup k d)
  unfolding insert_with Dict.lookup
  lookup-insert_with k j n [] fresh = refl
  lookup-insert_with k j n ((i, m) ∷ d) fresh =
      let (other, absent) = lookup_absent i j m d fresh in
      let rest = lookup-insert_with k j n d absent in ground arith

  insert_with-NodupKeys :
      (j : String) (n : ℕ) (d : Dict String ℕ)
      → Dict.lookup j d ≡ none
      → NodupKeys d
      → NodupKeys (insert_with late (j, n) d)
  unfolding insert_with
  insert_with-NodupKeys j n [] fresh u = (fresh, tt)
  insert_with-NodupKeys j n ((i, m) ∷ d) fresh (first, u) =
      let (other, absent) = lookup_absent i j m d fresh in
      let rest = insert_with-NodupKeys j n d absent u in
      let there = lookup-insert_with i j n d absent in ground arith

  sort_with-NodupKeys :
      (d : Dict String ℕ)
      → NodupKeys d
      → NodupKeys (sort_with late d)
        × ((k : String) → Dict.lookup k (sort_with late d) ≡ Dict.lookup k d)
  unfolding sort_with Dict.lookup
  sort_with-NodupKeys [] u = (tt, λ k. refl)
  sort_with-NodupKeys ((j, n) ∷ d) (fresh, u) =
      let (rest, same) = sort_with-NodupKeys d u in
      let absent = same j ∙ fresh in
      (
        insert_with-NodupKeys j n (sort_with late d) absent rest,
        λ k. lookup-insert_with k j n (sort_with late d) absent ∙ ground (arith, same k),
      )

log_msg-has :
    (has : String → Bool) (level text : String)
    → has level ≡ true
    → log_msg (some has) level text ≡ record { level = level; text = text } ∷ []
unfolding log_msg
log_msg-has has level text h = ground arith

-- The line of one record.
abbrev pub record_line : Format → String → String × Record → Line
record_line fmt level (sensor_id, r) = record {
  level = level;
  text =
      "sensor_id="
      <> (sensor_id
          <> (" winner_origin="
              <> (r.origin
                  <> (" ts_ms="
                      <> (fmt.value (of_int r.ts_ms)
                          <> (" value="
                              <> (fmt.value r.value
                                  <> (" unit="
                                      <> (fmt.value r.meta.unit
                                          <> (" period_ms=" <> fmt.value r.meta.period_ms))))))))));
}

-- The first line of a dump of `total` records.
abbrev pub first_line : Format → String → String → ℕ → Dict String ℕ → Line
first_line fmt level node_id total counts = record {
  level = level;
  text =
      "FULL_STATE_DUMP node="
      <> (node_id <> (" total=" <> (show total <> (" by_origin=" <> fmt.counts counts))));
}

log_records-has :
    (fmt : Format) (has : String → Bool) (level : String) (items : Dict String Record)
    → has level ≡ true
    → log_records fmt (some has) level items ≡ map (record_line fmt level) items
unfolding log_records format_record_line
log_records-has fmt has level [] h = refl
log_records-has fmt has level ((k, r) ∷ items) h =
    ap (λ l. l ++ log_records fmt (some has) level items) (log_msg-has has level _ h)
    ∙ ap (record_line fmt level (k, r) ∷◌) (log_records-has fmt has level items h)

-- A dump to a logger that has the method of the level: a line with the number of all records and with
-- the counts, and one line for every record of the state with its six fields, each once, in the order
-- of their origins and then of their sensors. The counts stand in the order of the origins, each origin once,
-- and the count of an origin is the number of the records that the state has under it.
pub log_full_state_lem :
    (fmt : Format) (has : String → Bool) (level : String) (w : Worker)
    → has (method_of level) ≡ true
    → (items : Dict String Record) × (counts : Dict String ℕ) × Permᴰ items w.state
      × IsOrdered (after_pair sort_key) items
      × IsSorted (λ e. e.0) counts
      × NodupKeys counts
      × ((o : String) → count_of o counts ≡ occurrences o w.state)
      × (log_full_state fmt (some has) level w
          ≡ first_line fmt (method_of level) w.node_id (length w.state) counts
            ∷ map (record_line fmt (method_of level)) items)
unfolding log_full_state header count_of
log_full_state_lem fmt has level w h =
    let items = sort_records w.state in
    let order = sort_with-Permᴰ (after_pair sort_key) w.state in
    let m = method_of level in
    let raw = count_by_origin items [] in
    let counts = sort_by (λ e. e.0) raw in
    let (once, same) =
      sort_with-NodupKeys (after (λ e. e.0)) raw (count_by_origin-NodupKeys items [] tt) in
    (
      items,
      counts,
      order,
      sort_with-IsOrdered (after_pair sort_key) (after_pair_asym sort_key) w.state,
      sort_by-IsSorted (λ e. e.0) raw,
      once,
      λ o.
          let total = count_of-count_by_origin o items [] in
          let empty = count_of-nil o in
          let all = occurrences-Permᴰ o order in
          let sorted = same o in ap (λ x. elim x [ none ↦ 0 | some n ↦ n ]) sorted ∙ omega arith,
      ap (λ l. l ++ log_records fmt (some has) m items) (log_msg-has has m _ h)
          ∙ ap (λ n. first_line fmt m w.node_id n counts ∷ log_records fmt (some has) m items)
              (length-Permᴰ order)
          ∙ ap (first_line fmt m w.node_id (length w.state) counts ∷◌)
              (log_records-has fmt has m items h),
    )

-- Whether a dump is due at `now` by a schedule made at `start`.
abbrev due : Option ℕ → ℕ → ℕ → Bool
due none start now = false
due (some every) start now = ltb 0 every && leb (start + every) now

-- The schedule after a dump at `now`.
abbrev dumped : Option ℕ → ℕ → Schedule
dumped none now = new_schedule none now
dumped (some every) now = record { debug_dump_every = some every; next_dump = some (now + every) }

-- A schedule that `__init__` makes dumps no earlier than a whole period after the start, and has the next
-- dump a whole period after that one; without a period it never does.
maybe_log_periodic_dump_lem :
    (fmt : Format) (log : Log) (every : Option ℕ) (start now : ℕ) (w : Worker)
    → maybe_log_periodic_dump fmt log now w (new_schedule every start) ≡ (
        if due every start now
        then (dumped every now, log_full_state fmt log "INFO" w)
        else (new_schedule every start, []))
unfolding maybe_log_periodic_dump new_schedule dump_now
maybe_log_periodic_dump_lem fmt log none start now w = refl
maybe_log_periodic_dump_lem fmt log (some n) start now w = ground arith
