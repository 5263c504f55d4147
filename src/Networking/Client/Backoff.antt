-- ===== src/Networking/Client/Backoff.antt =====
-- `_next_backoff` of networking/tcp_client.py: the waits between failed attempts to connect.
use distributed_sensor_hub.Base.{
  List, [], ℕ, zero, suc, ◌+◌, ◌*◌, ◌^◌, ◌≤◌, ◌≡◌, refl, ap, ◌∙◌, false, arith, ltb, if◌then◌else◌,
  Bool-cases, inl, inr,
}
use distributed_sensor_hub.Networking.Client.{
  Settings, TcpPeer, PeerWorker, new_worker, next_backoff, retry, run_round,
}
use native.Mathlib.Nat.{pow-suc}
use Prim.Native.Nat.{min}

-- The wait at the failure that follows `n` failures in a row: the first wait, grown `n` times.
unfoldable pub waits : Settings → ℕ → ℕ
waits cfg zero = cfg.backoff_initial
waits cfg (suc n) = next_backoff cfg (waits cfg n)

-- The same without a limit: 2 ^ n times the first wait, or in the linear mode n + 1 times.
unfoldable pub grown : Settings → ℕ → ℕ
grown cfg n = if cfg.linear then (n + 1) * cfg.backoff_initial else cfg.backoff_initial * 2 ^ n

abbrev capped : ℕ → ℕ → ℕ
capped limit n = if ltb limit n then limit else n

capped-min : (limit n : ℕ) → capped limit n ≡ min limit n
capped-min limit n = ground arith

capped-add : (limit n k : ℕ) → capped limit (capped limit n + k) ≡ capped limit (n + k)
capped-add limit n k = ground arith

capped-double : (limit n : ℕ) → capped limit (capped limit n * 2) ≡ capped limit (n * 2)
capped-double limit n = ground arith

-- One step of the growth, before the limit.
grow : Settings → ℕ → ℕ
grow cfg n = if cfg.linear then n + cfg.backoff_initial else n * 2

next_backoff-capped :
    (cfg : Settings) (n : ℕ)
    → next_backoff cfg (capped cfg.backoff_max n) ≡ capped cfg.backoff_max (grow cfg n)
unfolding next_backoff grow
next_backoff-capped cfg n = elim (Bool-cases cfg.linear) [
  | inl e ↦ rw e (capped-add cfg.backoff_max n cfg.backoff_initial)
  | inr e ↦ rw e (capped-double cfg.backoff_max n)
]

grow-grown : (cfg : Settings) (n : ℕ) → grow cfg (grown cfg n) ≡ grown cfg (suc n)
unfolding grow grown
grow-grown cfg n = elim (Bool-cases cfg.linear) [
  | inl e ↦ rw e (omega arith)
  | inr e ↦ rw e (rw pow-suc (omega arith))
]

waits-capped :
    (cfg : Settings) (n : ℕ)
    → cfg.backoff_initial ≤ cfg.backoff_max
    → waits cfg n ≡ capped cfg.backoff_max (grown cfg n)
unfolding waits grown
waits-capped cfg zero h = ground arith
waits-capped cfg (suc n) h =
    ap (next_backoff cfg) (waits-capped cfg n h)
    ∙ next_backoff-capped cfg (grown cfg n)
    ∙ ap (capped cfg.backoff_max) (grow-grown cfg n)

-- A worker after `n` rounds in which it could not connect.
unfoldable pub fail : Settings → ℕ → PeerWorker → PeerWorker
fail cfg zero w = w
fail cfg (suc n) w =
    run_round cfg (record { connects = false; sends = []; server_closed = false }) (fail cfg n w)

fail-waits :
    (cfg : Settings) (n : ℕ) (peer : TcpPeer) (queue : List (List ℕ))
    → fail cfg n (record (new_worker cfg peer) { queue = queue })
      ≡ record (new_worker cfg peer) { queue = queue; backoff = waits cfg n }
unfolding fail waits run_round
fail-waits cfg zero peer queue = refl
fail-waits cfg (suc n) peer queue =
    ap (run_round cfg (record { connects = false; sends = []; server_closed = false }))
      (fail-waits cfg n peer queue)

-- If a new worker fails to connect `n` times and then once more, it sleeps after that last failure for the
-- first wait times 2 ^ n (in the linear mode n + 1 times the first wait), but never longer than the
-- limit, and until then still holds its queue and is not connected. The first wait is not above the limit.
pub fail_lem :
    (cfg : Settings) (n : ℕ) (peer : TcpPeer) (queue : List (List ℕ))
    → cfg.backoff_initial ≤ cfg.backoff_max
    → let w = fail cfg n (record (new_worker cfg peer) { queue = queue }) in
      ((retry cfg w).0 ≡ min cfg.backoff_max (grown cfg n))
      × (w.queue ≡ queue)
      × (w.connected ≡ false)
fail_lem cfg n peer queue h =
    rw fail-waits (rw (waits-capped cfg n h) (capped-min cfg.backoff_max (grown cfg n)), refl, refl)
