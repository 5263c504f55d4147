-- ===== src/Networking/Client/Socket/Accounts.antt =====
-- What becomes of the sockets of a worker of networking/tcp_client.py, and how long it waits.
use mathlib.Core.List.{Memᴰ}
use mathlib.Core.Path.{subst}
use distributed_sensor_hub.Base.{
  ℕ, zero, suc, ◌+◌, ◌*◌, ◌≤◌, ◌<◌, ◌≡◌, refl, sym, ap, ◌∙◌, Bool, true, false, some, List, [], ◌∷◌,
  arith, if◌then◌else◌, Bool-cases, dec_lt, ℕ_discrete, ◌⊎◌, inl, inr,
}
use distributed_sensor_hub.Networking.Client.Socket.{
  Sockets, no_sockets, Answer, accepted, refused, raised, Attempt, after_connect, connect,
  close_socket, SocketRound, watch, socket_round, socket_rounds, sleep_until, sleep_interruptible,
}

-- Every socket that was made is closed, but for the one that the worker holds and the one that an
-- exception of `sock.connect` left open.
abbrev pub Balanced : Sockets → Type 0
Balanced s = s.made ≡ s.closed + (if s.held then 1 else 0) + (if s.dead then 1 else 0)

close_socket-Balanced : (s : Sockets) → Balanced s → Balanced (close_socket s)
unfolding close_socket
close_socket-Balanced s h = ground arith

close_socket-dead : (s : Sockets) → (close_socket s).dead ≡ s.dead
unfolding close_socket
close_socket-dead s = ground arith

watch-Balanced : (r : SocketRound) (s : Sockets) → Balanced s → Balanced (watch r s)
unfolding watch
watch-Balanced r s h = ground (arith, close_socket-Balanced s h)

watch-dead : (r : SocketRound) (s : Sockets) → (watch r s).dead ≡ s.dead
unfolding watch
watch-dead r s = ground (arith, close_socket-dead s)

after_connect-Balanced :
    (a : Answer) (stop : Bool) (s : Sockets)
    → s.held ≡ false
    → s.dead ≡ false
    → Balanced s
    → Balanced (after_connect a stop s).0
unfolding after_connect
after_connect-Balanced accepted stop s free alive h = ground arith
after_connect-Balanced refused stop s free alive h = ground arith
after_connect-Balanced raised stop s free alive h = ground arith

after_connect-dead :
    (a : Answer) (stop : Bool) (s : Sockets)
    → s.dead ≡ false
    → (after_connect a stop s).0.dead ≡ true
    → a ≡ raised
unfolding after_connect
after_connect-dead accepted stop s alive h = absurd (ground arith)
after_connect-dead refused stop s alive h = absurd (ground arith)
after_connect-dead raised stop s alive h = refl

connect-Balanced :
    (a : Attempt) (s : Sockets)
    → s.held ≡ false
    → s.dead ≡ false
    → Balanced s
    → Balanced (connect a s).0
unfolding connect
connect-Balanced a s free alive h =
    ground (arith, after_connect-Balanced a.answer a.stop_after s free alive h)

connect-dead :
    (a : Attempt) (s : Sockets) → s.dead ≡ false → (connect a s).0.dead ≡ true → a.answer ≡ raised
unfolding connect
connect-dead a s alive h = elim (Bool-cases a.stop_before) [
  | inl before ↦ absurd (ground arith)
  | inr on ↦ after_connect-dead a.answer a.stop_after s alive (rw on at h)
]

socket_round-held : (r : SocketRound) (s : Sockets) → s.held ≡ true → socket_round r s ≡ watch r s
unfolding socket_round
socket_round-held r s held = ground arith

socket_round-free :
    (r : SocketRound) (s : Sockets)
    → s.held ≡ false
    → socket_round r s ≡ (
        if (connect r.attempt s).1
        then watch r (connect r.attempt s).0
        else (connect r.attempt s).0)
unfolding socket_round
socket_round-free r s free = ground arith

watch_if-Balanced :
    (r : SocketRound) (s : Sockets) (connected : Bool)
    → Balanced s
    → Balanced (if connected then watch r s else s)
watch_if-Balanced r s true h = watch-Balanced r s h
watch_if-Balanced r s false h = h

watch_if-dead :
    (r : SocketRound) (s : Sockets) (connected : Bool)
    → (if connected then watch r s else s).dead ≡ s.dead
watch_if-dead r s true = watch-dead r s
watch_if-dead r s false = refl

socket_round-Balanced :
    (r : SocketRound) (s : Sockets) → s.dead ≡ false → Balanced s → Balanced (socket_round r s)
socket_round-Balanced r s alive h = elim (Bool-cases s.held) [
  | inl held ↦ subst Balanced (sym (socket_round-held r s held)) (watch-Balanced r s h)
  | inr free ↦ subst Balanced (sym (socket_round-free r s free)) (
      watch_if-Balanced r (connect r.attempt s).0 (connect r.attempt s).1
        (connect-Balanced r.attempt s free alive h))
]

socket_round-dead :
    (r : SocketRound) (s : Sockets)
    → s.dead ≡ false
    → (socket_round r s).dead ≡ true
    → r.attempt.answer ≡ raised
socket_round-dead r s alive h = elim (Bool-cases s.held) [
  | inl held ↦
      let same = ap (λ x. x.dead) (socket_round-held r s held) ∙ watch-dead r s in absurd (cc)
  | inr free ↦
      let same =
        ap (λ x. x.dead) (socket_round-free r s free)
        ∙ watch_if-dead r (connect r.attempt s).0 (connect r.attempt s).1 in
      connect-dead r.attempt s alive (sym same ∙ h)
]

socket_rounds-dead :
    (rounds : List SocketRound) (s : Sockets) → s.dead ≡ true → socket_rounds rounds s ≡ s
unfolding socket_rounds
socket_rounds-dead [] s dead = refl
socket_rounds-dead (r ∷ rounds) s dead = ground arith

socket_rounds-alive :
    (r : SocketRound) (rounds : List SocketRound) (s : Sockets)
    → s.dead ≡ false
    → socket_rounds (r ∷ rounds) s ≡ socket_rounds rounds (socket_round r s)
unfolding socket_rounds
socket_rounds-alive r rounds s alive = ground arith

-- What a run of rounds keeps, and how its thread may have ended.
abbrev Accounted : List SocketRound → Sockets → Type 0
Accounted rounds s =
    Balanced s × (s.dead ≡ true → (r : SocketRound) × Memᴰ r rounds × (r.attempt.answer ≡ raised))

socket_rounds-Accounted :
    (rounds : List SocketRound) (s : Sockets)
    → s.dead ≡ false
    → Balanced s
    → Accounted rounds (socket_rounds rounds s)
unfolding socket_rounds
socket_rounds-Accounted [] s alive h = (h, λ dead. absurd (cc))
socket_rounds-Accounted (r ∷ rounds) s alive h =
    subst (Accounted (r ∷ rounds)) (sym (socket_rounds-alive r rounds s alive))
      (elim (Bool-cases (socket_round r s).dead) [
        | inl dead ↦
            subst (Accounted (r ∷ rounds)) (sym (socket_rounds-dead rounds (socket_round r s) dead))
              (
                socket_round-Balanced r s alive h,
                λ d. (r, Memᴰ.head refl, socket_round-dead r s alive dead),
              )
        | inr on ↦
            let (balanced, ends) =
              socket_rounds-Accounted rounds (socket_round r s) on
                (socket_round-Balanced r s alive h) in
            (balanced, λ d. let (x, there, e) = ends d in (x, Memᴰ.tail there, e))
      ])

close_socket-free :
    (s : Sockets)
    → Balanced s
    → ((close_socket s).held ≡ false)
      × ((close_socket s).made ≡ (close_socket s).closed + (if s.dead then 1 else 0))
unfolding close_socket
close_socket-free s h = ground arith

-- A worker loses at most one socket: whatever its rounds meet (stops before and during an attempt to
-- connect, attempts that fail or raise, sends that break, connections that the server closes), it holds at
-- most one socket at a time, all others that it made are closed, and after its last `_close_socket` all are,
-- but for one where `sock.connect` raised something other than an OSError, which ended its thread.
pub socket_rounds-close_socket :
    (rounds : List SocketRound)
    → let s = socket_rounds rounds no_sockets in
      Balanced s
      × ((close_socket s).held ≡ false)
      × ((close_socket s).made ≡ (close_socket s).closed + (if s.dead then 1 else 0))
      × (s.dead ≡ true → (r : SocketRound) × Memᴰ r rounds × (r.attempt.answer ≡ raised))
socket_rounds-close_socket rounds =
    let (balanced, ends) = socket_rounds-Accounted rounds no_sockets refl refl in
    let (free, all) = close_socket-free (socket_rounds rounds no_sockets) balanced in
    (balanced, free, all, ends)

module _ (end : ℕ) (clock : ℕ → ℕ) (should_stop : ℕ → Bool)
    (ticks : (i : ℕ) → clock (suc i) + 50 ≤ clock (suc (suc i))) where
  -- The loop leaves in round `n` and in none from `i` to there.
  record Leaves (i n : ℕ) : Type 0 where
    pub past : i ≤ n
    pub over : (should_stop n ≡ true) ⊎ (end ≤ clock (suc n))
    pub before : (j : ℕ) → i ≤ j → j < n → (should_stop j ≡ false) × (clock (suc j) < end)

  leave_cases :
      (i : ℕ)
      → ((should_stop i ≡ true) ⊎ (end ≤ clock (suc i)))
        ⊎ ((should_stop i ≡ false) × (clock (suc i) < end))
  leave_cases i = elim (Bool-cases (should_stop i)) [
    | inl stop ↦ inl (inl stop)
    | inr on ↦ elim (dec_lt (clock (suc i)) end) [
      | yes early ↦ inr (on, early)
      | no late ↦ inl (inr (omega arith))
    ]
  ]

  sleep_until-leave :
      (fuel i : ℕ)
      → (should_stop i ≡ true) ⊎ (end ≤ clock (suc i))
      → sleep_until (suc fuel) end clock should_stop i ≡ some i
  unfolding sleep_until
  sleep_until-leave fuel i over = ground arith

  sleep_until-stay :
      (fuel i : ℕ)
      → should_stop i ≡ false
      → clock (suc i) < end
      → sleep_until (suc fuel) end clock should_stop i
        ≡ sleep_until fuel end clock should_stop (suc i)
  unfolding sleep_until
  sleep_until-stay fuel i on early = ground arith

  here : (i : ℕ) → (should_stop i ≡ true) ⊎ (end ≤ clock (suc i)) → Leaves i i
  here i over = record {
    past = omega arith;
    over = over;
    before = λ j from upto. absurd (omega arith);
  }

  sleep_until-Leaves :
      (fuel i : ℕ)
      → end ≤ clock (suc i) + 50 * fuel
      → (n : ℕ) × (sleep_until (suc fuel) end clock should_stop i ≡ some n) × Leaves i n
  sleep_until-Leaves zero i h =
      (i, sleep_until-leave zero i (inr (omega arith)), here i (inr (omega arith)))
  sleep_until-Leaves (suc fuel) i h = elim (leave_cases i) [
    | inl over ↦ (i, sleep_until-leave (suc fuel) i over, here i over)
    | inr (on, early) ↦
        let next = ticks i in
        let (n, same, leaves) = sleep_until-Leaves fuel (suc i) (omega arith) in
        let past = leaves.past in
        (
          n,
          sleep_until-stay (suc fuel) i on early ∙ same,
          record {
            past = omega arith;
            over = leaves.over;
            before = λ j from upto. elim (ℕ_discrete i j) [
              | yes first ↦
                  subst (λ x. (should_stop x ≡ false) × (clock (suc x) < end)) first (on, early)
              | no later ↦ leaves.before j (omega arith) upto
            ];
          },
        )
  ]

-- `_sleep_interruptible` ends: if the clock does not go back before its first test and goes on by at least 50 ms
-- with each sleep, it leaves its loop at the first test at which the time is over or the worker
-- is to stop, and no later than after one sleep for every 50 ms of the duration, begun ones
-- included. Any fuel above that number is enough.
pub sleep_interruptible_total :
    (fuel duration : ℕ) (clock : ℕ → ℕ) (should_stop : ℕ → Bool)
    → clock 0 ≤ clock 1
    → ((i : ℕ) → clock (suc i) + 50 ≤ clock (suc (suc i)))
    → duration ≤ 50 * fuel
    → (n : ℕ) × (sleep_interruptible (suc fuel) duration clock should_stop ≡ some n)
      × (50 * n < duration + 50)
      × ((should_stop n ≡ true) ⊎ (clock 0 + duration ≤ clock (suc n)))
      × ((j : ℕ) → j < n → (should_stop j ≡ false) × (clock (suc j) < clock 0 + duration))
unfolding sleep_interruptible
sleep_interruptible_total fuel duration clock should_stop starts ticks enough =
    let (n, same, leaves) =
      sleep_until-Leaves (clock 0 + duration) clock should_stop ticks fuel 0 (omega arith) in
    (n, same, rounds n leaves.before, leaves.over, λ j upto. leaves.before j (omega arith) upto)
  where
    passed : (n : ℕ) → clock 0 + 50 * n ≤ clock (suc n)
    passed zero = omega arith
    passed (suc n) = let a = passed n in let b = ticks n in omega arith

    rounds :
        (n : ℕ)
        → ((j : ℕ) → 0 ≤ j → j < n → (should_stop j ≡ false) × (clock (suc j) < clock 0 + duration))
        → 50 * n < duration + 50
    rounds zero before = omega arith
    rounds (suc n) before =
        let (_, early) = before n (omega arith) (omega arith) in let a = passed n in omega arith
