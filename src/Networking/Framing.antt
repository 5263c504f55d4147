-- ===== src/Networking/Framing.antt =====
-- The frame that `_send_frame` of networking/tcp_client.py writes and `_read_frame` of
-- networking/tcp_server.py reads: four bytes of length, then the payload. Bytes are numbers.
use distributed_sensor_hub.Base.{ℕ, ◌+◌, ◌*◌, ◌/◌, ◌%◌, ◌^◌, ◌<◌, ◌≡◌, List, [], ◌∷◌, ◌++◌, arith}
use distributed_sensor_hub.Base.Lists.{length}

-- `struct.pack(">I", n)`
unfoldable pub pack : ℕ → List ℕ
pack n = (n / 2 ^ 24 % 256) ∷ (n / 2 ^ 16 % 256) ∷ (n / 2 ^ 8 % 256) ∷ (n % 256) ∷ []

-- `struct.unpack(">I", header)[0]` of four bytes
unfoldable pub unpack : List ℕ → ℕ
unpack (a ∷ b ∷ c ∷ d ∷ []) = a * 2 ^ 24 + b * 2 ^ 16 + c * 2 ^ 8 + d
unpack _ = 0

-- `struct.pack(">I", len(payload)) + payload`
unfoldable pub frame : List ℕ → List ℕ
frame payload = pack (length payload) ++ payload

pub unpack-pack : (n : ℕ) → n < 2 ^ 32 → unpack (pack n) ≡ n
unfolding unpack pack
unpack-pack n h = omega arith
