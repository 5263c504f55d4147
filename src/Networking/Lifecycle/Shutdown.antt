-- ===== src/Networking/Lifecycle/Shutdown.antt =====
-- What `stop` of networking/tcp_server.py leaves behind, whatever its threads do in the meantime.
use mathlib.Core.Path.{subst}
use distributed_sensor_hub.Base.{
  ℕ, ◌≡◌, refl, sym, ◌∙◌, ap, Bool, true, false, ◌||◌, ◌==◌, nat_eq, arith, Bool-cases, inl, inr,
}
use distributed_sensor_hub.Base.Result.{ok, ok_inj}
use distributed_sensor_hub.Networking.Lifecycle.{
  Set, discard, Accepting, ended, accepted, tracked, threaded, Stopping, idle, joined, joining,
  Server, new_server, start, clear, started, Step, start_step, accept_step, connection_step,
  stop_step, AcceptStep, ConnectionStep, StopStep, enters, leaves, times_out, fails, accepts,
  tracks, makes_thread, launches, untracks, closes, finishes, signals, unlistens, takes_connections,
  closes_one, joins_accept, takes_threads, joins_one, clears, Reach, here, step,
}

-- The accept thread has the connection in its hands.
abbrev handing : ℕ → Accepting → Bool
handing c (accepted d) = c == d
handing c (tracked d) = c == d
handing c (threaded d) = c == d
handing c _ = false

-- `stop` has joined the accept thread.
abbrev has_joined : Stopping → Bool
has_joined joined = true
has_joined (joining left) = true
has_joined _ = false

-- A thread that runs is tracked.
abbrev Threads : Set → Set → Type 0
Threads running conn_threads = (c : ℕ) → running c ≡ true → conn_threads c ≡ true

-- An open socket has a thread that runs, or the accept thread has it.
abbrev Alive : Set → Set → Accepting → Type 0
Alive open_sockets running accepting =
    (c : ℕ) → open_sockets c ≡ true → (running c || handing c accepting) ≡ true

abbrev Fresh : Accepting → Set → Type 0
Fresh accepting running = (c : ℕ) → handing c accepting ≡ true → running c ≡ false

abbrev Ready : Accepting → Set → Type 0
Ready accepting conn_threads = (c : ℕ) → accepting ≡ threaded c → conn_threads c ≡ true

abbrev NoThread : Bool → Accepting → Type 0
NoThread accept_thread accepting = accept_thread ≡ false → accepting ≡ ended

abbrev Joined : Stopping → Bool → Type 0
Joined stopping accept_thread = has_joined stopping ≡ true → accept_thread ≡ false

-- The snapshot of `stop` holds every thread that runs.
abbrev Snapshot : Stopping → Set → Type 0
Snapshot stopping running =
    (left : Set) → stopping ≡ joining left → (c : ℕ) → running c ≡ true → left c ≡ true

abbrev IsSane : Server → Type 0
IsSane s =
    Threads s.running s.conn_threads
    × Alive s.open_sockets s.running s.accepting
    × Fresh s.accepting s.running
    × Ready s.accepting s.conn_threads
    × NoThread s.accept_thread s.accepting
    × Joined s.stopping s.accept_thread
    × Snapshot s.stopping s.running

new_server-IsSane : IsSane new_server
new_server-IsSane = (
  λ c h. absurd (cc),
  λ c h. absurd (cc),
  λ c h. absurd (cc),
  λ c h. absurd (cc),
  λ h. refl,
  λ h. refl,
  λ left h. absurd (cc),
)

AcceptStep-IsSane : {s t : Server} → AcceptStep s t → IsSane s → IsSane t
AcceptStep-IsSane (enters at go) (t, a, f, r, n, j, s) = (
  t,
  λ c o. ground (arith, a c),
  λ c g. absurd (cc),
  λ c g. absurd (cc),
  λ g. absurd (cc (n g, at)),
  j,
  s,
)
AcceptStep-IsSane (leaves at halt) (t, a, f, r, n, j, s) =
    (t, λ c o. ground (arith, a c), λ c g. absurd (cc), λ c g. absurd (cc), λ g. refl, j, s)
AcceptStep-IsSane (times_out at) (t, a, f, r, n, j, s) = (
  t,
  λ c o. ground (arith, a c),
  λ c g. absurd (cc),
  λ c g. absurd (cc),
  λ g. absurd (cc (n g, at)),
  j,
  s,
)
AcceptStep-IsSane (fails at) (t, a, f, r, n, j, s) =
    (t, λ c o. ground (arith, a c), λ c g. absurd (cc), λ c g. absurd (cc), λ g. refl, j, s)
AcceptStep-IsSane (accepts c at listening closed idle_thread no_thread) (t, a, f, r, n, j, s) = (
  t,
  λ i o. ground (arith, a i),
  λ i g. ground arith,
  λ i g. absurd (cc),
  λ g. absurd (cc (n g, at)),
  j,
  s,
)
AcceptStep-IsSane (tracks c at) (t, a, f, r, n, j, s) = (
  t,
  λ i o. ground (arith, a i),
  λ i g. ground (arith, f i),
  λ i g. absurd (cc),
  λ g. absurd (cc (n g, at)),
  j,
  s,
)
AcceptStep-IsSane (makes_thread c at) (t, a, f, r, n, j, s) = (
  λ i run. ground (arith, t i),
  λ i o. ground (arith, a i),
  λ i g. ground (arith, f i),
  λ i g. ground arith,
  λ g. absurd (cc (n g, at)),
  j,
  s,
)
AcceptStep-IsSane (launches c at) (t, a, f, r, n, j, s) = (
  λ i run. ground (arith, t i, r i),
  λ i o. ground (arith, a i),
  λ i g. absurd (cc),
  λ i g. absurd (cc),
  λ g. absurd (cc (n g, at)),
  j,
  λ left at_join i run. absurd (cc (n (j (ap has_joined at_join)), at)),
)

self : (c : ℕ) → (c == c) ≡ true
self c = ground arith

joining_inj : {x y : Set} → joining x ≡ joining y → x ≡ y
joining_inj h = cc

ConnectionStep-IsSane : {s t : Server} → ConnectionStep s t → IsSane s → IsSane t
ConnectionStep-IsSane (untracks c runs) h = h
ConnectionStep-IsSane (closes c runs gone) (t, a, f, r, n, j, s) =
    (t, λ i o. ground (arith, a i), f, r, n, j, s)
ConnectionStep-IsSane (finishes c runs closed) (t, a, f, r, n, j, s) = (
  λ i run. ground (arith, t i),
  λ i o. ground (arith, a i),
  λ i g. ground (arith, f i),
  λ i g. let idle_thread = f i (ap (handing i) g ∙ self i) in ground (arith, r i),
  n,
  j,
  λ left at_join i run. ground (arith, s left at_join i),
)

StopStep-IsSane : {s t : Server} → StopStep s t → IsSane s → IsSane t
StopStep-IsSane (signals at) (t, a, f, r, n, j, s) =
    (t, a, f, r, n, λ g. absurd (cc), λ left g. absurd (cc))
StopStep-IsSane (unlistens at) (t, a, f, r, n, j, s) =
    (t, a, f, r, n, λ g. absurd (cc), λ left g. absurd (cc))
StopStep-IsSane (takes_connections at) (t, a, f, r, n, j, s) =
    (t, a, f, r, n, λ g. absurd (cc), λ left g. absurd (cc))
StopStep-IsSane (closes_one c left at there) (t, a, f, r, n, j, s) =
    (t, λ i o. ground (arith, a i), f, r, n, λ g. absurd (cc), λ rest g. absurd (cc))
StopStep-IsSane (joins_accept left at all over) (t, a, f, r, n, j, s) =
    (t, a, f, r, λ g. over, λ g. refl, λ rest g. absurd (cc))
StopStep-IsSane (takes_threads at) (t, a, f, r, n, j, s) = (
  t,
  a,
  f,
  r,
  n,
  λ g. j (ap has_joined at),
  λ rest g i run. sym (ap (λ set. set i) (joining_inj g)) ∙ t i run,
)
StopStep-IsSane (joins_one c left at there over) (t, a, f, r, n, j, s) = (
  t,
  a,
  f,
  r,
  n,
  λ g. j (ap has_joined at),
  λ rest g i run.
      let kept : discard c left i ≡ true = ground (arith, s left at i) in
      sym (ap (λ set. set i) (joining_inj g)) ∙ kept,
)
StopStep-IsSane (clears left at all) (t, a, f, r, n, j, s) = (
  λ i run. absurd (cc (s left at i run, all i)),
  a,
  f,
  λ i g. absurd (cc (n (j (ap has_joined at)), g)),
  n,
  λ g. absurd (cc),
  λ rest g. absurd (cc),
)

started-IsSane :
    (s : Server) → s.stopping ≡ idle → s.accept_thread ≡ false → IsSane s → IsSane (started s)
started-IsSane server rest off (t, a, f, r, n, j, s) =
    let over = n off in
    (
      t,
      λ c o. ground (arith, a c),
      λ c g. absurd (cc),
      λ c g. absurd (cc),
      λ g. absurd (cc),
      λ g. absurd (cc (rest, g)),
      λ left g. absurd (cc (rest, g)),
    )

start-IsSane : (s t : Server) → s.stopping ≡ idle → start s ≡ ok t → IsSane s → IsSane t
unfolding start
start-IsSane s t rest made h = elim (Bool-cases s.accept_thread) [
  | inl on ↦ absurd (ground arith)
  | inr off ↦ subst IsSane (ok_inj (rw off at made)) (started-IsSane s rest off h)
]

Step-IsSane : {s t : Server} → Step s t → IsSane s → IsSane t
Step-IsSane {s} {t} (start_step rest made) h = start-IsSane s t rest made h
Step-IsSane (accept_step move) h = AcceptStep-IsSane move h
Step-IsSane (connection_step move) h = ConnectionStep-IsSane move h
Step-IsSane (stop_step move) h = StopStep-IsSane move h

Reach-IsSane : {s : Server} → Reach new_server s → IsSane s
Reach-IsSane here = new_server-IsSane
Reach-IsSane (step r move) = Step-IsSane move (Reach-IsSane r)

-- Nothing of the server is left, and it can be started again.
abbrev pub IsQuiet : Server → Type 0
IsQuiet s =
    (s.accepting ≡ ended)
    × (s.listening ≡ false)
    × ((c : ℕ)
        → (s.running c ≡ false)
          × (s.open_sockets c ≡ false)
          × (s.connections c ≡ false)
          × (s.conn_threads c ≡ false))
    × ((t : Server) × (start s ≡ ok t))

-- When `stop` has joined the threads of its snapshot, the server is quiet, whatever its threads did in the
-- meantime, connections that the accept thread took after `stop` closed the others included: no thread
-- runs, no socket is open, nothing is tracked, and `start` works again.
pub clear-IsQuiet :
    (s : Server) (left : Set)
    → Reach new_server s
    → s.stopping ≡ joining left
    → ((c : ℕ) → left c ≡ false)
    → IsQuiet (clear s)
unfolding start
clear-IsQuiet server left reached at all =
    let (t, a, f, r, n, j, s) = Reach-IsSane reached in
    let off = j (ap has_joined at) in
    let over = n off in
    (
      over,
      refl,
      λ c.
          let unused : server.running c ≡ false = elim (Bool-cases (server.running c)) [
            | inl run ↦ absurd (cc (s left at c run, all c))
            | inr idle_thread ↦ idle_thread
          ] in
          (unused, ground (arith, a c), refl, refl),
      (started (clear server), ground arith),
    )
