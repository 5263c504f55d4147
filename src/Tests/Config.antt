-- ===== src/Tests/Config.antt =====
-- utils/config.py and the bootstrap peers of a configuration, at concrete inputs.
use mathlib.Core.List.{Memᴰ}
use distributed_sensor_hub.Base.{◌≡◌, refl, none, [], ◌∷◌, arith, string_eq, nat_eq}
use distributed_sensor_hub.Base.Decimal.{read}
use distributed_sensor_hub.Base.Int.{pos}
use distributed_sensor_hub.Base.Result.{ok, raise, runtime_error}
use distributed_sensor_hub.Base.Words.{trim_start, trim_end, split, int_of_text}
use distributed_sensor_hub.Config.{
  Env, Config, is_log_level, load_config, require_env, parse_parts, parse_port, parse_peers,
}
use distributed_sensor_hub.Config.Bounds.{IsSound, load_config-IsSound}
use distributed_sensor_hub.Config.RoundTrip.{IsWritable, environment, load_config-environment}
use distributed_sensor_hub.Networking.Client.{TcpClient}
use distributed_sensor_hub.Node.{
  send_value, make_join_request, bootstrap_id, bootstrap_peers, add_bootstrap_peers, bootstrap,
}
use distributed_sensor_hub.Node.Bootstrap.{Queued}
use distributed_sensor_hub.Node.Configured.{configured_peers_lem}
use distributed_sensor_hub.Protocol.Message.{encode}
use distributed_sensor_hub.Tests.Replication.{codec, client}
use distributed_sensor_hub.Value.Key.{text}

abbrev two_peers : Config
two_peers = record {
  node_id = "node-1";
  host = "0.0.0.0";
  port = 9000;
  bootstrap_peers = ("node-2", 9001) ∷ ("10.0.0.3", 65535) ∷ [];
  log_level = "INFO";
  log_file = "/var/log/a b.log";
}

two_peers-IsWritable : IsWritable two_peers
unfolding trim_start trim_end is_log_level string_eq
two_peers-IsWritable = record {
  node_id = (refl, λ h. cc);
  host = (refl, λ h. cc);
  port = (omega arith, omega arith);
  ports = ((omega arith, omega arith), ((omega arith, omega arith), tt));
  hosts = (ground arith, (ground arith, tt));
  log_level = refl;
  log_file = (refl, λ h. cc);
}

load_config-environment_example : load_config (environment two_peers) ≡ ok two_peers
load_config-environment_example = load_config-environment two_peers two_peers-IsWritable

load_config-IsSound_example : IsSound two_peers
load_config-IsSound_example =
    load_config-IsSound (environment two_peers)
      (load_config-environment two_peers two_peers-IsWritable)

abbrev nothing : Env
nothing name = none

nothing_raises : load_config nothing ≡ raise runtime_error
unfolding load_config require_env
nothing_raises = refl

-- White space around items and ports is skipped, an empty host is taken.
spaced : parse_peers " a:1 , b : +2,:0_3" ≡ ok (("a", 1) ∷ ("b", 2) ∷ ("", 3) ∷ [])
unfolding parse_peers parse_parts parse_port trim_start trim_end split read int_of_text string_eq
    nat_eq
spaced = refl

port_refused : parse_port "65536" ≡ raise runtime_error
unfolding parse_peers parse_parts parse_port trim_start trim_end split read int_of_text string_eq
    nat_eq
port_refused = refl

comma_refused : parse_peers "a:1," ≡ raise runtime_error
unfolding parse_peers parse_parts parse_port trim_start trim_end split read int_of_text string_eq
    nat_eq
comma_refused = refl

configured_peers_lem_example :
    let join = make_join_request two_peers (pos 9) in
    (c' : TcpClient) × (add_bootstrap_peers (bootstrap_peers two_peers) client ≡ ok c')
    × Queued (encode codec join) (text (bootstrap_id ("10.0.0.3", 65535))) (
        bootstrap
          (send_value codec)
          join
          (bootstrap_peers two_peers)
          (record { client = c'; known = [] }))
unfolding encode
configured_peers_lem_example =
    configured_peers_lem codec two_peers (pos 9) client ("10.0.0.3", 65535) (omega arith)
      (Memᴰ.tail (Memᴰ.head refl))
