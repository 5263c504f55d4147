-- ===== src/WebApi/Faults.antt =====
-- The error paths of webapi/http_api.py: a request whose provider raises, or whose answer cannot be written. A
-- response is its status here.
use distributed_sensor_hub.Base.{
  ℕ, ◌≡◌, refl, String, ◌||◌, Option, none, some, List, [], ◌∷◌, ◌++◌, arith, ◌==◌, string_eq,
  if◌then◌else◌,
}
use distributed_sensor_hub.Base.Result.{Exception, ok}
use distributed_sensor_hub.Protocol.Message.{Codec}
use distributed_sensor_hub.State.Worker.{Worker}
use distributed_sensor_hub.WebApi.{do_get}
use distributed_sensor_hub.WebApi.Laws.{do_get_lem}

-- `_handle_state` and `_handle_updates`, where `provided` is what the provider or the JSON library raises and
-- `written` what the last write raises: the statuses sent, and the exception that goes on.
unfoldable pub handle : Option Exception → Option Exception → List ℕ × Option Exception
handle (some e) written = (500 ∷ [], none)
handle none none = (200 ∷ [], none)
handle none (some e) = (200 ∷ [], some e)

-- The last `except` of `do_GET`
unfoldable pub caught : List ℕ × Option Exception → List ℕ
caught (statuses, none) = statuses
caught (statuses, some e) = statuses ++ (500 ∷ [])

-- `do_GET`: the statuses sent in turn.
unfoldable pub do_get_statuses : String → Option Exception → Option Exception → List ℕ
do_get_statuses path provided written =
    if path == "/api/state"
    then caught (handle provided written)
    else if path == "/api/updates"
    then caught (handle provided written)
    else 404 ∷ []

-- The statuses meant: one 500 where the snapshot fails, a 500 after the 200 where the body cannot be
-- written, one 200 otherwise.
abbrev pub api_statuses : Option Exception → Option Exception → List ℕ
api_statuses (some e) written = 500 ∷ []
api_statuses none (some e) = 200 ∷ 500 ∷ []
api_statuses none none = 200 ∷ []

caught-handle :
    (provided written : Option Exception)
    → caught (handle provided written) ≡ api_statuses provided written
unfolding caught handle
caught-handle (some e) written = refl
caught-handle none (some e) = refl
caught-handle none none = refl

-- On a path of the API a provider that raises is answered by one 500; a body that cannot be written has
-- a 500 sent after its 200; any other path is answered by 404 whatever
-- the providers would do; and a request without faults has the one status of its answer.
pub do_get_statuses_lem :
    (codec : Codec) (w : Worker) (path : String) (provided written : Option Exception)
    → let known = path == "/api/state" || path == "/api/updates" in
      (do_get_statuses path provided written
        ≡ (if known then api_statuses provided written else 404 ∷ []))
      × (do_get_statuses path none none ≡ (do_get (λ v. ok (codec.dumps v)) path w).1.status ∷ [])
unfolding do_get_statuses
do_get_statuses_lem codec w path provided written =
    let (_, _, _, answered) = do_get_lem (λ v. ok (codec.dumps v)) path w in
    let status = answered (λ v. (codec.dumps v, refl)) in
    ground (arith, caught-handle provided written, caught-handle none none)
