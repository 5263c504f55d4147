-- ===== src/Protocol/Dispatcher.antt =====
-- `MessageDispatcher` of protocol/dispatcher.py. A handler acts on a state of a type `S`, which stands
-- for the node, and may raise.
use distributed_sensor_hub.Base.{
  ◌≡◌, sym, ap, ◌∙◌, Option, none, some, string_eq, Eq, if◌then◌else◌,
}
use distributed_sensor_hub.Base.Dict
use distributed_sensor_hub.Base.Dict.{Dict}
use distributed_sensor_hub.Base.Result.{Exception, Result, ok, raise, protocol_error}
use distributed_sensor_hub.Protocol.Message.{MessageType, type_name, message_type, Message}
use distributed_sensor_hub.Protocol.RoundTrip.{message_type-type_name}
use distributed_sensor_hub.Value.{str}

pub type_name_inj : (t u : MessageType) → type_name t ≡ type_name u → t ≡ u
type_name_inj t u h =
    let e : some t ≡ some u =
      sym (message_type-type_name t)
      ∙ ap (λ s. message_type (str s)) h
      ∙ message_type-type_name u in
    cc

instance unfoldable pub message_type_eq : Eq MessageType
message_type_eq = record {
  dec = λ t u. elim (string_eq.dec (type_name t) (type_name u)) [
    | yes p ↦ yes (type_name_inj t u p)
    | no n ↦ no (λ p. n (ap type_name p))
  ];
}

abbrev pub Handler : Type 0 → Type 0
Handler S = Message → S → S × Option Exception

-- `_handlers`
abbrev pub Dispatcher : Type 0 → Type 0
Dispatcher S = Dict MessageType (Handler S)

-- `register`
unfoldable pub register :
    {S : Type 0} → MessageType → Handler S → Dispatcher S → Result (Dispatcher S)
register t h d = if Dict.has t d then raise protocol_error else ok (Dict.insert t h d)

-- `dispatch`: a message without a handler is ignored, and an exception of a handler goes on.
unfoldable pub dispatch : {S : Type 0} → Dispatcher S → Message → S → S × Option Exception
dispatch d m s = elim (Dict.lookup m.msg_type d) [ none ↦ (s, none) | some handler ↦ handler m s ]
