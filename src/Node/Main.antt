-- ===== src/Node/Main.antt =====
-- The order in which `main` of node.py starts and stops its parts, and which of them run where some call
-- raises. What the calls do is said by the models of the parts.
use mathlib.Core.List.{Memᴰ}
use mathlib.Core.List.Memᴰ
use mathlib.Core.Path.{subst}
use distributed_sensor_hub.Base.{
  ◌≡◌, refl, sym, Option, none, some, List, [], ◌∷◌, ◌++◌, map, arith, Option-cases, inl, inr,
}
use distributed_sensor_hub.Base.Lists.{Memᴰ-cases}
use distributed_sensor_hub.Base.Result.{Exception}

pub data Part : Type 0 where
  publisher sensors state_worker web_api server client : Part

-- The calls of `main` that may raise.
pub data Stage : Type 0 where
  load_config setup_logging start_state setup_protocol start_server load_sensors start_sensors :
      Stage
  start_publisher read_web_port start_web_api : Stage
  stopping : Part → Stage

pub data Call : Type 0 where
  starts stops : Part → Call

-- Which calls raise what.
abbrev pub Faults : Type 0
Faults = Stage → Option Exception

-- What `main` does before its loop, call by call, with the part that a call starts.
abbrev pub startup : List (Stage × List Call)
startup =
    (load_config, [])
    ∷ (setup_logging, [])
    ∷ (start_state, starts state_worker ∷ [])
    ∷ (setup_protocol, [])
    ∷ (start_server, starts server ∷ [])
    ∷ (load_sensors, [])
    ∷ (start_sensors, starts sensors ∷ [])
    ∷ (start_publisher, starts publisher ∷ [])
    ∷ (read_web_port, [])
    ∷ (start_web_api, starts web_api ∷ [])
    ∷ []

-- An exception of one of these is raised again.
unfoldable pub run_stages : Faults → List (Stage × List Call) → List Call × Option Exception
run_stages faults [] = ([], none)
run_stages faults ((stage, calls) ∷ more) = elim (faults stage) [
  | some e ↦ (calls, some e)
  | none ↦ let rest = run_stages faults more in (calls ++ rest.0, rest.1)
]

-- One try block of the cleanup: the first exception ends it.
unfoldable pub stop_parts : Faults → List Part → List Call
stop_parts faults [] = []
stop_parts faults (p ∷ parts) =
    stops p ∷ (elim (faults (stopping p)) [ some e ↦ [] | none ↦ stop_parts faults parts ])

-- The cleanup of `main`: five try blocks.
unfoldable pub cleanup : Faults → List Call
cleanup faults =
    stop_parts faults (publisher ∷ [])
    ++ (stop_parts faults (sensors ∷ [])
        ++ (stop_parts faults (state_worker ∷ [])
            ++ (stop_parts faults (web_api ∷ []) ++ stop_parts faults (server ∷ client ∷ []))))

-- `main`, whose loop ends by a KeyboardInterrupt or another exception: the calls, and what it raises.
unfoldable pub main : Faults → List Call × Option Exception
main faults =
    let (calls, raised) = run_stages faults startup in
    elim raised [ some e ↦ (calls, some e) | none ↦ (calls ++ cleanup faults, none) ]

-- The parts that are told to stop, where stopping the server raises or not.
abbrev stopped_parts : Option Exception → List Part
stopped_parts none = publisher ∷ sensors ∷ state_worker ∷ web_api ∷ server ∷ client ∷ []
stopped_parts (some e) = publisher ∷ sensors ∷ state_worker ∷ web_api ∷ server ∷ []

cleanup_lem :
    (faults : Faults) → cleanup faults ≡ map stops (stopped_parts (faults (stopping server)))
unfolding cleanup stop_parts
cleanup_lem faults = ground arith

-- A part other than the client.
abbrev Own : Part → Type 0
Own client = ⊥
Own _ = Unit

-- Calls that start a part other than the client.
abbrev Starting : List Call → Type 0
Starting [] = Unit
Starting (starts p ∷ calls) = Own p × Starting calls
Starting (stops p ∷ calls) = ⊥

abbrev StagesStart : List (Stage × List Call) → Type 0
StagesStart [] = Unit
StagesStart ((stage, calls) ∷ more) = Starting calls × StagesStart more

append-Starting : (a b : List Call) → Starting a → Starting b → Starting (a ++ b)
append-Starting [] b h k = k
append-Starting (starts p ∷ a) b (own, h) k = (own, append-Starting a b h k)
append-Starting (stops p ∷ a) b h k = absurd h

run_stages-Starting :
    (faults : Faults) (stages : List (Stage × List Call))
    → StagesStart stages
    → Starting (run_stages faults stages).0
unfolding run_stages
run_stages-Starting faults [] h = tt
run_stages-Starting faults ((stage, calls) ∷ more) (h, hs) = elim (Option-cases (faults stage)) [
  | inl fine ↦
      rw (fine, run_stages)
        (append-Starting calls (run_stages faults more).0 h (run_stages-Starting faults more hs))
  | inr (e, fails) ↦ rw (fails, run_stages) h
]

Starting-Own : (calls : List Call) (p : Part) → Starting calls → Memᴰ (starts p) calls → Own p
Starting-Own [] p h m = elim m [ ]
Starting-Own (starts q ∷ calls) p (own, h) m = elim (Memᴰ-cases m) [
  | inl here ↦ let same : q ≡ p = cc in subst Own same own
  | inr later ↦ Starting-Own calls p h later
]
Starting-Own (stops q ∷ calls) p h m = absurd h

Starting-stops : (calls : List Call) (p : Part) → Starting calls → Memᴰ (stops p) calls → ⊥
Starting-stops [] p h m = elim m [ ]
Starting-stops (starts q ∷ calls) p (own, h) m = elim (Memᴰ-cases m) [
  | inl here ↦ cc
  | inr later ↦ Starting-stops calls p h later
]
Starting-stops (stops q ∷ calls) p h m = h

not_started : (parts : List Part) (p : Part) → Memᴰ (starts p) (map stops parts) → ⊥
not_started [] p m = elim m [ ]
not_started (q ∷ parts) p m = elim (Memᴰ-cases m) [
  | inl here ↦ cc
  | inr later ↦ not_started parts p later
]

Own-stopped_parts : (o : Option Exception) (p : Part) → Own p → Memᴰ p (stopped_parts o)
Own-stopped_parts none publisher own = Memᴰ.head refl
Own-stopped_parts none sensors own = Memᴰ.tail (Memᴰ.head refl)
Own-stopped_parts none state_worker own = Memᴰ.tail (Memᴰ.tail (Memᴰ.head refl))
Own-stopped_parts none web_api own = Memᴰ.tail (Memᴰ.tail (Memᴰ.tail (Memᴰ.head refl)))
Own-stopped_parts none server own = Memᴰ.tail (Memᴰ.tail (Memᴰ.tail (Memᴰ.tail (Memᴰ.head refl))))
Own-stopped_parts none client own = absurd own
Own-stopped_parts (some e) publisher own = Memᴰ.head refl
Own-stopped_parts (some e) sensors own = Memᴰ.tail (Memᴰ.head refl)
Own-stopped_parts (some e) state_worker own = Memᴰ.tail (Memᴰ.tail (Memᴰ.head refl))
Own-stopped_parts (some e) web_api own = Memᴰ.tail (Memᴰ.tail (Memᴰ.tail (Memᴰ.head refl)))
Own-stopped_parts (some e) server own =
    Memᴰ.tail (Memᴰ.tail (Memᴰ.tail (Memᴰ.tail (Memᴰ.head refl))))
Own-stopped_parts (some e) client own = absurd own

client_stopped : (o : Option Exception) → o ≡ none → Memᴰ client (stopped_parts o)
client_stopped none h = Memᴰ.tail (Memᴰ.tail (Memᴰ.tail (Memᴰ.tail (Memᴰ.tail (Memᴰ.head refl)))))
client_stopped (some e) h = absurd (cc)

cleanup-stops :
    (faults : Faults) (p : Part)
    → Memᴰ p (stopped_parts (faults (stopping server)))
    → Memᴰ (stops p) (cleanup faults)
cleanup-stops faults p m = subst (Memᴰ (stops p)) (sym (cleanup_lem faults)) (Memᴰ.map stops m)

-- What `main` stops, of the parts that the start-up started.
started_stops :
    (faults : Faults) (p : Part) (calls : List Call)
    → Starting calls
    → Memᴰ (starts p) (calls ++ cleanup faults)
    → Memᴰ (stops p) (calls ++ cleanup faults)
started_stops faults p calls begun m = Memᴰ.append_right calls (elim (Memᴰ.append_cases calls m) [
  | inl early ↦
      cleanup-stops faults p
        (Own-stopped_parts (faults (stopping server)) p (Starting-Own calls p begun early))
  | inr late ↦ absurd (not_started _ p (subst (Memᴰ (starts p)) (cleanup_lem faults) late))
])

-- If `main` returns, every part that it started was told to stop, whatever the stopping of the others
-- raised, and so was the client if stopping the server did not raise. If `main` raises, a call of the
-- start-up failed, and no part was told to stop.
pub main_stops :
    (faults : Faults)
    → let (calls, raised) = main faults in
      (raised ≡ none → (p : Part) → Memᴰ (starts p) calls → Memᴰ (stops p) calls)
      × (raised ≡ none → faults (stopping server) ≡ none → Memᴰ (stops client) calls)
      × ((e : Exception) → raised ≡ some e → (p : Part) → Memᴰ (stops p) calls → ⊥)
unfolding main run_stages
main_stops faults =
    let begun = run_stages-Starting faults startup (
      tt,
      (tt, ((tt, tt), (tt, ((tt, tt), (tt, ((tt, tt), ((tt, tt), (tt, ((tt, tt), tt))))))))),
    ) in
    let calls = (run_stages faults startup).0 in
    elim (Option-cases (run_stages faults startup).1) [
      | inl fine ↦ rw fine (
        λ done p. started_stops faults p calls begun,
        λ done works.
            Memᴰ.append_right calls
              (cleanup-stops faults client (client_stopped (faults (stopping server)) works)),
        λ e h. absurd (cc),
      )
      | inr (e, fails) ↦
          rw fails (λ h. absurd (cc), λ h. absurd (cc), λ x h p. Starting-stops calls p begun)
    ]
