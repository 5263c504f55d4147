-- ===== src/Config/RoundTrip.antt =====
-- The environment that describes a configuration of utils/config.py, as a compose file writes it.
use Prim.Native.Char.{Char}
use Prim.Native.String.append
use distributed_sensor_hub.Base.{
  ℕ, ◌≡◌, ◌≢◌, ◌∙◌, ap, refl, String, ◌<>◌, true, none, some, List, [], ◌∷◌, arith, string_eq, ◌==◌,
  inl, inr, ◌⊎◌, if◌then◌else◌,
}
use distributed_sensor_hub.Base.Decimal.{show}
use distributed_sensor_hub.Base.Result.{ok}
use distributed_sensor_hub.Base.Text.{Free, append-Free, append-eq_nil}
use distributed_sensor_hub.Base.Words.{
  is_space, Lacks, strip, trim_start, trim_end, split, upper, trim-Lacks, append-Lacks, split-Free,
  split-append, show-Free, show-Lacks, show-ne, int_of_text-show,
}
use distributed_sensor_hub.Config.{
  Env, Config, is_log_level, require_env, check_port, parse_port, parse_parts, parse_items,
  parse_peers, check_level, getenv_or, load_config,
}
use distributed_sensor_hub.Config.Bounds.{IsPort, HavePorts}

-- `host:port`
abbrev pub show_peer : String × ℕ → String
show_peer peer = peer.0 <> (":" <> show peer.1)

-- The addresses, a comma between two of them.
unfoldable pub show_peers : List (String × ℕ) → String
show_peers [] = ""
show_peers (peer ∷ []) = show_peer peer
show_peers (peer ∷ next ∷ more) = show_peer peer <> ("," <> show_peers (next ∷ more))

-- A host name has no white space, comma or colon.
abbrev pub IsHost : String → Type 0
IsHost s = Lacks is_space s × Free b',' s × Free b':' s

abbrev pub HaveHosts : List (String × ℕ) → Type 0
HaveHosts [] = Unit
HaveHosts (peer ∷ peers) = IsHost peer.0 × HaveHosts peers

abbrev comma : Char
comma = ","

abbrev colon : Char
colon = ":"

split_colons :
    (a b : String) → Free b':' a → Free b':' b → split b':' (a <> (":" <> b)) ≡ a ∷ b ∷ []
split_colons a b f g =
    rw (append.cons colon "" b, append.nil b)
      (split-append b':' a b colon f refl ∙ ap (λ x. a ∷ x) (split-Free b':' b g))

split_commas : (a b : String) → Free b',' a → split b',' (a <> ("," <> b)) ≡ a ∷ split b',' b
split_commas a b f = rw (append.cons comma "" b, append.nil b) (split-append b',' a b comma f refl)

parse_port-show : (n : ℕ) → IsPort n → parse_port (show n) ≡ ok n
unfolding parse_port check_port
parse_port-show n h = rw (parse_port, int_of_text-show n) (ground arith)

show_peer-Lacks : (peer : String × ℕ) → IsHost peer.0 → Lacks is_space (show_peer peer)
show_peer-Lacks (host, n) (h, _, _) =
    append-Lacks is_space host (":" <> show n) h
      (append-Lacks is_space ":" (show n) (refl, tt) (show-Lacks is_space n (λ c h. ground arith)))

show_peer-Free : (peer : String × ℕ) → IsHost peer.0 → Free b',' (show_peer peer)
show_peer-Free (host, n) (_, h, _) =
    append-Free b',' host (":" <> show n) h
      (append-Free b',' ":" (show n) (ground arith, tt) (show-Free b',' n refl))

parse_parts-show_peer :
    (peer : String × ℕ)
    → IsHost peer.0
    → IsPort peer.1
    → parse_parts (split b':' (strip (show_peer peer))) ≡ ok peer
unfolding parse_parts
parse_parts-show_peer (host, n) h p =
    rw
      (
        trim-Lacks is_space (show_peer (host, n)) (show_peer-Lacks (host, n) h),
        split_colons host (show n) h.2 (show-Free b':' n refl),
        parse_port-show n p,
        trim-Lacks is_space host h.0,
      )
      refl

show_peers-Lacks : (peers : List (String × ℕ)) → HaveHosts peers → Lacks is_space (show_peers peers)
unfolding show_peers
show_peers-Lacks [] h = tt
show_peers-Lacks (peer ∷ []) (h, _) = show_peer-Lacks peer h
show_peers-Lacks (peer ∷ next ∷ more) (h, hs) =
    append-Lacks is_space (show_peer peer) ("," <> show_peers (next ∷ more))
      (show_peer-Lacks peer h)
      (append-Lacks is_space "," (show_peers (next ∷ more)) (refl, tt)
        (show_peers-Lacks (next ∷ more) hs))

items_nil : parse_items [] ≡ ok []
unfolding parse_items
items_nil = refl

-- One item and the rest of the items.
parse_items-cons :
    (peer : String × ℕ) (items : List String) (peers : List (String × ℕ))
    → IsHost peer.0
    → IsPort peer.1
    → parse_items items ≡ ok peers
    → parse_items (show_peer peer ∷ items) ≡ ok (peer ∷ peers)
unfolding parse_items
parse_items-cons peer items peers h p rest = rw (parse_parts-show_peer peer h p, rest) refl

parse_items-show_peers :
    (peer : String × ℕ) (peers : List (String × ℕ))
    → HaveHosts (peer ∷ peers)
    → HavePorts (peer ∷ peers)
    → parse_items (split b',' (show_peers (peer ∷ peers))) ≡ ok (peer ∷ peers)
unfolding show_peers
parse_items-show_peers peer [] (h, hs) (p, ps) =
    rw (split-Free b',' (show_peer peer) (show_peer-Free peer h))
      (parse_items-cons peer [] [] h p items_nil)
parse_items-show_peers peer (next ∷ more) (h, hs) (p, ps) =
    rw (split_commas (show_peer peer) (show_peers (next ∷ more)) (show_peer-Free peer h)) (
      parse_items-cons peer (split b',' (show_peers (next ∷ more))) (next ∷ more) h p
        (parse_items-show_peers next more hs ps))

show_peers-ne : (peer : String × ℕ) (peers : List (String × ℕ)) → show_peers (peer ∷ peers) ≢ ""
unfolding show_peers
show_peers-ne peer [] h =
    show-ne peer.1 (append-eq_nil ":" (show peer.1) (append-eq_nil peer.0 (":" <> show peer.1) h))
show_peers-ne peer (next ∷ more) h = show_peers-ne next more (
    append-eq_nil "," (show_peers (next ∷ more))
      (append-eq_nil (show_peer peer) ("," <> show_peers (next ∷ more)) h))

is_blank_text : parse_peers "" ≡ ok []
unfolding parse_peers string_eq trim_start trim_end
is_blank_text = refl

parse_peers-full :
    (raw : String) → strip raw ≡ raw → raw ≢ "" → parse_peers raw ≡ parse_items (split b',' raw)
unfolding parse_peers
parse_peers-full raw h ne = ground (arith)

parse_peers-show_peers :
    (peers : List (String × ℕ))
    → HaveHosts peers
    → HavePorts peers
    → parse_peers (show_peers peers) ≡ ok peers
unfolding show_peers
parse_peers-show_peers [] h p = is_blank_text
parse_peers-show_peers (peer ∷ peers) h p =
    parse_peers-full (show_peers (peer ∷ peers))
      (trim-Lacks is_space (show_peers (peer ∷ peers)) (show_peers-Lacks (peer ∷ peers) h))
      (show_peers-ne peer peers)
    ∙ parse_items-show_peers peer peers h p

-- A value that is set and has no white space at its ends.
abbrev pub IsTrimmed : String → Type 0
IsTrimmed s = (strip s ≡ s) × (s ≢ "")

require_env-IsTrimmed :
    (env : Env) (name s : String) → env name ≡ some s → IsTrimmed s → require_env env name ≡ ok s
unfolding require_env
require_env-IsTrimmed env name s h (e, ne) = rw (require_env, h) (ground arith)

-- The environment of a configuration.
unfoldable pub environment : Config → Env
environment c name =
    if name == "NODE_ID"
    then some c.node_id
    else if name == "HOST"
    then some c.host
    else if name == "PORT"
    then some (show c.port)
    else if name == "LOG_LEVEL"
    then some c.log_level
    else if name == "LOG_FILE"
    then some c.log_file
    else if name == "BOOTSTRAP_PEERS"
    then some (show_peers c.bootstrap_peers)
    else none

-- The five levels, one by one.
is_log_level-cases :
    (P : String → Type 0)
    → P "DEBUG"
    → P "INFO"
    → P "WARNING"
    → P "ERROR"
    → P "CRITICAL"
    → (level : String) → is_log_level level ≡ true
    → P level
unfolding is_log_level
is_log_level-cases P a b c d e level h =
    let which : (level ≡ "DEBUG")
        ⊎ ((level ≡ "INFO") ⊎ ((level ≡ "WARNING") ⊎ ((level ≡ "ERROR") ⊎ (level ≡ "CRITICAL")))) =
      ground arith in
    elim (which) [
      | inl is ↦ rw is a
      | inr (inl is) ↦ rw is b
      | inr (inr (inl is)) ↦ rw is c
      | inr (inr (inr (inl is))) ↦ rw is d
      | inr (inr (inr (inr is))) ↦ rw is e
    ]

upper-is_log_level : (level : String) → is_log_level level ≡ true → upper level ≡ level
unfolding upper
upper-is_log_level = is_log_level-cases (λ s. upper s ≡ s) refl refl refl refl refl

IsTrimmed-is_log_level : (level : String) → is_log_level level ≡ true → IsTrimmed level
unfolding trim_start trim_end
IsTrimmed-is_log_level =
    is_log_level-cases IsTrimmed (refl, λ h. cc) (refl, λ h. cc) (refl, λ h. cc) (refl, λ h. cc)
      (refl, λ h. cc)

-- A configuration that an environment can describe: nothing is blank or has white space at its ends, and
-- no host of a peer has white space, a comma or a colon.
pub record IsWritable (c : Config) : Type 0 where
  pub node_id : IsTrimmed c.node_id
  pub host : IsTrimmed c.host
  pub port : IsPort c.port
  pub ports : HavePorts c.bootstrap_peers
  pub hosts : HaveHosts c.bootstrap_peers
  pub log_level : is_log_level c.log_level ≡ true
  pub log_file : IsTrimmed c.log_file

environment_lem :
    (c : Config)
    → (environment c "NODE_ID" ≡ some c.node_id)
      × (environment c "HOST" ≡ some c.host)
      × (environment c "PORT" ≡ some (show c.port))
      × (environment c "LOG_LEVEL" ≡ some c.log_level)
      × (environment c "LOG_FILE" ≡ some c.log_file)
      × (environment c "BOOTSTRAP_PEERS" ≡ some (show_peers c.bootstrap_peers))
unfolding environment string_eq
environment_lem c = (refl, refl, refl, refl, refl, refl)

IsTrimmed-show : (n : ℕ) → IsTrimmed (show n)
IsTrimmed-show n =
    (trim-Lacks is_space (show n) (show-Lacks is_space n (λ c h. ground arith)), show-ne n)

-- `load_config` reads back every configuration that its environment can describe.
pub load_config-environment : (c : Config) → IsWritable c → load_config (environment c) ≡ ok c
unfolding load_config check_level
load_config-environment c h =
    let (node_id, host, port, level, file, peers) = environment_lem c in
    let required = require_env-IsTrimmed (environment c) in
    rw
      (
        required "NODE_ID" c.node_id node_id h.node_id,
        required "HOST" c.host host h.host,
        required "PORT" (show c.port) port (IsTrimmed-show c.port),
        parse_port-show c.port h.port,
        required "LOG_LEVEL" c.log_level level (IsTrimmed-is_log_level c.log_level h.log_level),
        upper-is_log_level c.log_level h.log_level,
        h.log_level,
        required "LOG_FILE" c.log_file file h.log_file,
        getenv_or,
        peers,
        parse_peers-show_peers c.bootstrap_peers h.hosts h.ports,
      )
      refl
