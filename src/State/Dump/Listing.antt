-- ===== src/State/Dump/Listing.antt =====
-- What `dump_full_state` of state/node_state_worker.py lists.
use mathlib.Core.List.Permᴰ
use mathlib.Core.List.{Memᴰ, Permᴰ}
use mathlib.Core.Path.{subst}
use distributed_sensor_hub.Base.{
  ℕ, suc, ◌+◌, ◌≡◌, refl, sym, ap, ◌∙◌, String, true, false, some, List, [], ◌∷◌, ◌++◌, map, arith,
  ◌==◌, string_eq, Bool-cases, inl, inr,
}
use distributed_sensor_hub.Base.Dict
use distributed_sensor_hub.Base.Dict.{Dict}
use distributed_sensor_hub.Base.Lists.{length, length-append, Memᴰ-cases}
use distributed_sensor_hub.Base.Sorting.{
  sort_by, IsSorted, sort_by-Permᴰ, sort_by-IsSorted, length-Permᴰ, Permᴰ-Memᴰ, swap_blocks,
}
use distributed_sensor_hub.State.Record.{Record}
use distributed_sensor_hub.State.Worker.{Worker}
use distributed_sensor_hub.State.Dump.{
  Item, Bucket, listed_origin, item, add_item, put, collect, sort_items, dump_full_state,
}

-- The items of a bucket, each with the origin.
abbrev pub tagged : String → List Item → List (String × Item)
tagged origin = map (λ i. (origin, i))

-- All items of the buckets, each with the origin that its bucket stands under.
unfoldable pub listed : Dict String Bucket → List (String × Item)
listed [] = []
listed ((origin, b) ∷ rest) = tagged origin b.sensors ++ listed rest

-- The items of the records themselves.
unfoldable pub entries : Dict String Record → List (String × Item)
entries [] = []
entries ((sensor_id, r) ∷ rest) = (listed_origin r, item sensor_id r) ∷ entries rest

tagged-append :
    (o : String) (xs : List Item) (i : Item) (ys : List (String × Item))
    → Permᴰ (tagged o (xs ++ (i ∷ [])) ++ ys) ((o, i) ∷ (tagged o xs ++ ys))
tagged-append o [] i ys = Permᴰ.refl _
tagged-append o (x ∷ xs) i ys =
    Permᴰ.trans (Permᴰ.cons refl (tagged-append o xs i ys)) (Permᴰ.swap refl refl)

insert_here :
    (o : String) (i : Item) (j : String) (b : Bucket) (d : Dict String Bucket)
    → (o == j) ≡ true
    → put o i ((j, b) ∷ d) ≡ (j, add_item (some b) i) ∷ d
unfolding put Dict.insert Dict.lookup
insert_here o i j b d same = ground arith

insert_later :
    (o : String) (i : Item) (j : String) (b : Bucket) (d : Dict String Bucket)
    → (o == j) ≡ false
    → put o i ((j, b) ∷ d) ≡ (j, b) ∷ put o i d
unfolding put Dict.insert Dict.lookup
insert_later o i j b d other = ground arith

listed-insert :
    (o : String) (i : Item) (d : Dict String Bucket)
    → Permᴰ (listed (put o i d)) ((o, i) ∷ listed d)
unfolding listed put Dict.insert Dict.lookup
listed-insert o i [] = Permᴰ.refl _
listed-insert o i ((j, b) ∷ d) = elim (Bool-cases (o == j)) [
  | inl same ↦
      let here : j ≡ o = ground arith in
      subst (λ e. Permᴰ (listed e) ((o, i) ∷ (tagged j b.sensors ++ listed d)))
        (sym (insert_here o i j b d same))
        (subst
          (λ k.
            Permᴰ (tagged j (b.sensors ++ (i ∷ [])) ++ listed d)
              ((k, i) ∷ (tagged j b.sensors ++ listed d)))
          here (tagged-append j b.sensors i (listed d)))
  | inr other ↦
      subst (λ e. Permᴰ (listed e) ((o, i) ∷ (tagged j b.sensors ++ listed d)))
        (sym (insert_later o i j b d other))
        (Permᴰ.trans (Permᴰ.append_left (tagged j b.sensors) (listed-insert o i d))
          (Permᴰ.middle (o, i) (tagged j b.sensors) (listed d)))
]

listed-collect :
    (state : Dict String Record) (d : Dict String Bucket)
    → Permᴰ (listed (collect state d)) (entries state ++ listed d)
unfolding collect entries
listed-collect [] d = Permᴰ.refl _
listed-collect ((k, r) ∷ rest) d =
    let d' = put (listed_origin r) (item k r) d in
    Permᴰ.trans (listed-collect rest d') (
      Permᴰ.trans (Permᴰ.append_left (entries rest) (listed-insert (listed_origin r) (item k r) d))
        (Permᴰ.middle (listed_origin r, item k r) (entries rest) (listed d)))

listed-sort_items : (d : Dict String Bucket) → Permᴰ (listed (sort_items d)) (listed d)
unfolding listed sort_items
listed-sort_items [] = Permᴰ.nil
listed-sort_items ((o, b) ∷ d) =
    Permᴰ.trans
      (Permᴰ.append_right (listed (sort_items d))
        (Permᴰ.map (λ i. (o, i)) (sort_by-Permᴰ (λ i. i.sensor_id) b.sensors)))
      (Permᴰ.append_left (tagged o b.sensors) (listed-sort_items d))

-- Buckets in another order list the same items.
listed-Permᴰ : {d e : Dict String Bucket} → Permᴰ d e → Permᴰ (listed d) (listed e)
unfolding listed
listed-Permᴰ Permᴰ.nil = Permᴰ.nil
listed-Permᴰ (Permᴰ.cons {a = x} {l₁ = d} {l₂ = e} same p) =
    subst (λ y. Permᴰ (tagged x.0 x.1.sensors ++ listed d) (tagged y.0 y.1.sensors ++ listed e))
      same (Permᴰ.append_left (tagged x.0 x.1.sensors) (listed-Permᴰ p))
listed-Permᴰ (Permᴰ.swap {a = x} {b = y} {b' = z} {l = d} e f) =
    let start = tagged x.0 x.1.sensors ++ (tagged y.0 y.1.sensors ++ listed d) in
    subst (λ p. Permᴰ start (tagged p.0 p.1.sensors ++ (tagged z.0 z.1.sensors ++ listed d))) f
      (subst (λ q. Permᴰ start (tagged y.0 y.1.sensors ++ (tagged q.0 q.1.sensors ++ listed d))) e
        (swap_blocks (tagged x.0 x.1.sensors) (tagged y.0 y.1.sensors) (listed d)))
listed-Permᴰ (Permᴰ.trans p q) = Permᴰ.trans (listed-Permᴰ p) (listed-Permᴰ q)

length-sort_by : (xs : List Item) → length (sort_by (λ i. i.sensor_id) xs) ≡ length xs
length-sort_by xs = length-Permᴰ (sort_by-Permᴰ (λ i. i.sensor_id) xs)

-- The counts of the loop are right.
Counted : Dict String Bucket → Type 0
Counted [] = Unit
Counted ((o, b) ∷ d) = (b.count ≡ length b.sensors) × Counted d

put-Counted : (o : String) (i : Item) (d : Dict String Bucket) → Counted d → Counted (put o i d)
unfolding Counted put Dict.insert Dict.lookup
put-Counted o i [] h = (refl, tt)
put-Counted o i ((j, b) ∷ d) (h, hs) = elim (Bool-cases (o == j)) [
  | inl same ↦
      subst Counted (sym (insert_here o i j b d same))
        (ap suc h ∙ omega arith ∙ sym (length-append b.sensors (i ∷ [])), hs)
  | inr other ↦ subst Counted (sym (insert_later o i j b d other)) (h, put-Counted o i d hs)
]

collect-Counted :
    (state : Dict String Record) (d : Dict String Bucket) → Counted d → Counted (collect state d)
unfolding collect
collect-Counted [] d h = h
collect-Counted ((k, r) ∷ rest) d h =
    collect-Counted rest (put (listed_origin r) (item k r) d)
      (put-Counted (listed_origin r) (item k r) d h)

-- The count of a bucket is the number of its items, which stand in the order of their ids.
abbrev pub IsBucket : Bucket → Type 0
IsBucket b = (b.count ≡ length b.sensors) × IsSorted (λ i. i.sensor_id) b.sensors

sort_items-IsBucket :
    (d : Dict String Bucket) (o : String) (b : Bucket)
    → Counted d
    → Memᴰ (o, b) (sort_items d)
    → IsBucket b
unfolding Counted sort_items
sort_items-IsBucket [] o b h m = elim m [ ]
sort_items-IsBucket ((j, c) ∷ d) o b (h, hs) m = elim (Memᴰ-cases m) [
  | inl here ↦
      subst IsBucket (sym (ap (λ e. e.1) here))
        (h ∙ sym (length-sort_by c.sensors), sort_by-IsSorted (λ i. i.sensor_id) c.sensors)
  | inr later ↦ sort_items-IsBucket d o b hs later
]

-- The sum of all counts.
unfoldable pub counts : Dict String Bucket → ℕ
counts [] = 0
counts ((o, b) ∷ d) = b.count + counts d

length-tagged : (o : String) (xs : List Item) → length (tagged o xs) ≡ length xs
length-tagged o [] = refl
length-tagged o (x ∷ xs) = ap suc (length-tagged o xs)

counts-listed :
    (d : Dict String Bucket)
    → ((o : String) (b : Bucket) → Memᴰ (o, b) d → b.count ≡ length b.sensors)
    → counts d ≡ length (listed d)
unfolding counts listed
counts-listed [] h = refl
counts-listed ((o, b) ∷ d) h =
    let here = h o b (Memᴰ.head refl) in
    let rest = counts-listed d (λ p c m. h p c (Memᴰ.tail m)) in
    let both = length-append (tagged o b.sensors) (listed d) in
    let tags = length-tagged o b.sensors in omega arith

length-entries : (state : Dict String Record) → length (entries state) ≡ length state
unfolding entries
length-entries [] = refl
length-entries ((k, r) ∷ state) = ap suc (length-entries state)

listed-collect_nil :
    (state : Dict String Record) → Permᴰ (listed (collect state [])) (entries state)
unfolding listed
listed-collect_nil state = Permᴰ.trans (listed-collect state []) (Permᴰ.append-nil (entries state))

collect-Counted_nil : (state : Dict String Record) → Counted (collect state [])
unfolding Counted
collect-Counted_nil state = collect-Counted state [] tt

-- The dump of a state lists every record exactly once, under its origin, or under UNKNOWN where it has
-- none. The origins stand in order, and in each bucket the sensor ids; the count of a bucket is the number
-- of its items, and the total is the sum of the counts.
pub dump_full_state_lem :
    (w : Worker)
    → let full = dump_full_state w in
      Permᴰ (listed full.by_origin) (entries w.state)
      × IsSorted (λ e. e.0) full.by_origin
      × ((o : String) (b : Bucket) → Memᴰ (o, b) full.by_origin → IsBucket b)
      × (full.total ≡ counts full.by_origin)
unfolding dump_full_state
dump_full_state_lem w =
    let collected = collect w.state [] in
    let buckets = sort_items collected in
    let order = sort_by-Permᴰ (λ (e : String × Bucket). e.0) buckets in
    let all : Permᴰ (listed (sort_by (λ e. e.0) buckets)) (entries w.state) =
      Permᴰ.trans (listed-Permᴰ order)
        (Permᴰ.trans (listed-sort_items collected) (listed-collect_nil w.state)) in
    let sound : (o : String) (b : Bucket) → Memᴰ (o, b) (sort_by (λ e. e.0) buckets) → IsBucket b =
      λ o b m.
        sort_items-IsBucket collected o b (collect-Counted_nil w.state) (Permᴰ-Memᴰ order m) in
    let total : length w.state ≡ counts (sort_by (λ e. e.0) buckets) =
      sym (length-entries w.state)
      ∙ sym (length-Permᴰ all)
      ∙ sym (counts-listed (sort_by (λ e. e.0) buckets) (λ o b m. (sound o b m).0)) in
    (all, sort_by-IsSorted (λ e. e.0) buckets, sound, total)
