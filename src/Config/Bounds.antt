-- ===== src/Config/Bounds.antt =====
-- What a configuration that utils/config.py accepts satisfies, and how it refuses the others.
use distributed_sensor_hub.Base.{
  ℕ, ◌≤◌, ◌≡◌, ◌≢◌, sym, String, true, List, [], ◌∷◌, arith, string_eq, Bool-cases, ◌==◌, inl, inr,
}
use distributed_sensor_hub.Base.Int.{ℤ, pos, negsuc}
use distributed_sensor_hub.Base.Result.{
  Exception, Result, ok, raise, runtime_error, >>=-eq_ok, ok_inj, Raises, >>=-Raises, ok-Raises,
}
use distributed_sensor_hub.Base.Words.{strip, split, upper}
use distributed_sensor_hub.Config.{
  Env, Config, is_log_level, require_env, check_port, parse_port, parse_parts, parse_items,
  parse_peers, check_level, getenv_or, load_config,
}

abbrev pub IsPort : ℕ → Type 0
IsPort n = (1 ≤ n) × (n ≤ 65535)

-- Every address has a port in range.
abbrev pub HavePorts : List (String × ℕ) → Type 0
HavePorts [] = Unit
HavePorts (peer ∷ peers) = IsPort peer.1 × HavePorts peers

check_port-IsPort : (z : ℤ) {n : ℕ} → check_port z ≡ ok n → IsPort n
unfolding check_port
check_port-IsPort (pos m) h = ground arith
check_port-IsPort (negsuc m) h = absurd (cc)

parse_port-IsPort : (raw : String) {n : ℕ} → parse_port raw ≡ ok n → IsPort n
unfolding parse_port
parse_port-IsPort raw h = grind (arith, check_port-IsPort)

parse_parts-IsPort :
    (parts : List String) {peer : String × ℕ} → parse_parts parts ≡ ok peer → IsPort peer.1
unfolding parse_parts
parse_parts-IsPort [] h = absurd (cc)
parse_parts-IsPort (host ∷ []) h = absurd (cc)
parse_parts-IsPort (host ∷ port ∷ []) h =
    let (n, parsed, same) = >>=-eq_ok (parse_port port) _ h in
    let bounded = parse_port-IsPort port parsed in ground arith
parse_parts-IsPort (host ∷ port ∷ x ∷ more) h = absurd (cc)

parse_items-HavePorts :
    (items : List String) {peers : List (String × ℕ)}
    → parse_items items ≡ ok peers
    → HavePorts peers
unfolding parse_items
parse_items-HavePorts [] {peers} h = let e : peers ≡ [] = cc in rw e tt
parse_items-HavePorts (item ∷ items) {peers} h =
    let (peer, first, h') = >>=-eq_ok (parse_parts (split b':' (strip item))) _ h in
    let (rest, others, same) = >>=-eq_ok (parse_items items) _ h' in
    let e : peers ≡ peer ∷ rest = cc in
    rw e (parse_parts-IsPort (split b':' (strip item)) first, parse_items-HavePorts items others)

parse_peers-HavePorts :
    (raw : String) {peers : List (String × ℕ)} → parse_peers raw ≡ ok peers → HavePorts peers
unfolding parse_peers
parse_peers-HavePorts raw {peers} h = elim (Bool-cases (strip raw == "")) [
  | inl blank ↦ let e : peers ≡ [] = ground arith in rw e tt
  | inr full ↦ parse_items-HavePorts (split b',' raw) (rw full at h)
]

require_env-ne : (env : Env) (name : String) {s : String} → require_env env name ≡ ok s → s ≢ ""
unfolding require_env
require_env-ne env name h = ground arith

check_level-is_log_level :
    (level : String) {s : String} → check_level level ≡ ok s → is_log_level s ≡ true
unfolding check_level
check_level-is_log_level level {s} h = elim (Bool-cases (is_log_level level)) [
  | inl known ↦ let e : s ≡ level = ground arith in rw e known
  | inr unknown ↦ absurd (ground arith)
]

-- A configuration that is complete and in range.
pub record IsSound (c : Config) : Type 0 where
  pub node_id : c.node_id ≢ ""
  pub host : c.host ≢ ""
  pub port : IsPort c.port
  pub peers : HavePorts c.bootstrap_peers
  pub log_level : is_log_level c.log_level ≡ true
  pub log_file : c.log_file ≢ ""

-- What `load_config` returns is complete: it names the node, its host and its log file, the node's port
-- and those of all bootstrap peers lie in 1 to 65535, and the log level is one of the five.
pub load_config-IsSound : (env : Env) {c : Config} → load_config env ≡ ok c → IsSound c
unfolding load_config
load_config-IsSound env {c} h =
    let (node_id, h1, h) = >>=-eq_ok (require_env env "NODE_ID") _ h in
    let (host, h2, h) = >>=-eq_ok (require_env env "HOST") _ h in
    let (raw_port, _, h) = >>=-eq_ok (require_env env "PORT") _ h in
    let (port, h3, h) = >>=-eq_ok (parse_port raw_port) _ h in
    let (raw_level, _, h) = >>=-eq_ok (require_env env "LOG_LEVEL") _ h in
    let (log_level, h4, h) = >>=-eq_ok (check_level (upper raw_level)) _ h in
    let (log_file, h5, h) = >>=-eq_ok (require_env env "LOG_FILE") _ h in
    let (peers, h6, h) = >>=-eq_ok (parse_peers (getenv_or env "BOOTSTRAP_PEERS" "")) _ h in
    let e : c ≡ record {
      node_id = node_id;
      host = host;
      port = port;
      bootstrap_peers = peers;
      log_level = log_level;
      log_file = log_file;
    } =
      sym (ok_inj h) in
    rw e (record {
      node_id = require_env-ne env "NODE_ID" h1;
      host = require_env-ne env "HOST" h2;
      port = parse_port-IsPort raw_port h3;
      peers = parse_peers-HavePorts (getenv_or env "BOOTSTRAP_PEERS" "") h6;
      log_level = check_level-is_log_level (upper raw_level) h4;
      log_file = require_env-ne env "LOG_FILE" h5;
    })

-- The code either returns or raises a `RuntimeError`.
abbrev Declared : Exception → Type 0
Declared e = e ≡ runtime_error

abbrev FailsAsDeclared : {A : Type 0} → Result A → Type 0
FailsAsDeclared = Raises Declared

require_env-FailsAsDeclared : (env : Env) (name : String) → FailsAsDeclared (require_env env name)
unfolding require_env
require_env-FailsAsDeclared env name e h = ground arith

check_port-FailsAsDeclared : (z : ℤ) → FailsAsDeclared (check_port z)
unfolding check_port
check_port-FailsAsDeclared (pos n) e h = ground arith
check_port-FailsAsDeclared (negsuc n) e h = cc

parse_port-FailsAsDeclared : (raw : String) → FailsAsDeclared (parse_port raw)
unfolding parse_port
parse_port-FailsAsDeclared raw e h = grind (arith, check_port-FailsAsDeclared)

parse_parts-FailsAsDeclared : (parts : List String) → FailsAsDeclared (parse_parts parts)
unfolding parse_parts
parse_parts-FailsAsDeclared [] = λ e h. cc
parse_parts-FailsAsDeclared (host ∷ []) = λ e h. cc
parse_parts-FailsAsDeclared (host ∷ port ∷ []) =
    >>=-Raises Declared (parse_port port) _ (parse_port-FailsAsDeclared port)
      (λ n. ok-Raises Declared (strip host, n))
parse_parts-FailsAsDeclared (host ∷ port ∷ x ∷ more) = λ e h. cc

parse_items-FailsAsDeclared : (items : List String) → FailsAsDeclared (parse_items items)
unfolding parse_items
parse_items-FailsAsDeclared [] = ok-Raises Declared []
parse_items-FailsAsDeclared (item ∷ items) =
    >>=-Raises Declared (parse_parts (split b':' (strip item))) _
      (parse_parts-FailsAsDeclared (split b':' (strip item)))
      (λ peer.
        >>=-Raises Declared (parse_items items) _ (parse_items-FailsAsDeclared items)
          (λ peers. ok-Raises Declared (peer ∷ peers)))

parse_peers-FailsAsDeclared : (raw : String) → FailsAsDeclared (parse_peers raw)
unfolding parse_peers
parse_peers-FailsAsDeclared raw = elim (Bool-cases (strip raw == "")) [
  | inl blank ↦ rw blank (ok-Raises Declared [])
  | inr full ↦ rw full (parse_items-FailsAsDeclared (split b',' raw))
]

check_level-FailsAsDeclared : (level : String) → FailsAsDeclared (check_level level)
unfolding check_level
check_level-FailsAsDeclared level e h = ground arith

-- Whatever the environment holds, the only exception of `load_config` is `RuntimeError`: the `ValueError`s
-- of `int` and of unpacking a peer do not escape.
pub load_config-raise : (env : Env) (e : Exception) → load_config env ≡ raise e → e ≡ runtime_error
unfolding load_config
load_config-raise env =
    let required = require_env-FailsAsDeclared env in
    >>=-Raises Declared _ _ (required "NODE_ID") (λ node_id.
      >>=-Raises Declared _ _ (required "HOST") (λ host.
        >>=-Raises Declared _ _ (required "PORT") (λ raw_port.
          >>=-Raises Declared _ _ (parse_port-FailsAsDeclared raw_port) (λ port.
            >>=-Raises Declared _ _ (required "LOG_LEVEL") (λ raw_level.
              >>=-Raises Declared _ _ (check_level-FailsAsDeclared (upper raw_level)) (λ log_level.
                >>=-Raises Declared _ _ (required "LOG_FILE") (λ log_file.
                  >>=-Raises Declared _ _
                    (parse_peers-FailsAsDeclared (getenv_or env "BOOTSTRAP_PEERS" ""))
                    (λ peers. ok-Raises Declared _))))))))
