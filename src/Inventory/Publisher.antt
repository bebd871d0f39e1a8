-- ===== src/Inventory/Publisher.antt =====
-- inventario-service/internal/events/publisher.go. A message carries the event itself, in place of
-- its JSON encoding; the writer of kafka-go is its settings and the outcome of each write.
use proyecto_sd_reserva_de_h.Base.{
  String, Bool, true, false, not, ◌||◌, List, [], ◌∷◌, Result, ok, err, Outcome, perform, str_eq,
  trim_space, split, if◌then◌else◌,
}
use proyecto_sd_reserva_de_h.Inventory.Events.{Event}

pub record Config : Type 0 where
  pub enabled : Bool
  pub bootstrap_servers : String
  pub topic : String
  pub client_id : String

-- What `NewPublisher` sets on a `kafka.Writer` and its transport.
pub record Writer : Type 0 where
  pub addresses : List String
  pub topic : String
  pub client_id : String

pub record KafkaPublisher : Type 0 where
  pub enabled : Bool
  pub topic : String
  pub writer : Writer

-- The implementations of the interface `Publisher`.
pub data Publisher : Type 0 where
  noop : Publisher
  kafka : KafkaPublisher → Publisher

pub record Message : Type 0 where
  pub key : String
  pub value : Event
  pub headers : List (String × String)

keep_server : String → List String → List String
keep_server server servers = if not (str_eq server "") then server ∷ servers else servers

trim_servers : List String → List String
unfolding keep_server
trim_servers [] = []
trim_servers (part ∷ parts) = keep_server (trim_space part) (trim_servers parts)

unfoldable pub split_bootstrap_servers : String → List String
unfolding trim_servers
split_bootstrap_servers value = trim_servers (split b',' value)

unfoldable pub new_publisher : Config → Publisher
new_publisher cfg =
    if not cfg.enabled
    then noop
    else if str_eq cfg.bootstrap_servers "" || str_eq cfg.topic ""
    then noop
    else kafka (record {
      enabled = true;
      topic = cfg.topic;
      writer = record {
        addresses = split_bootstrap_servers cfg.bootstrap_servers;
        topic = cfg.topic;
        client_id = cfg.client_id;
      };
    })

abbrev pub message : String → Event → Message
message key event = record {
  key = key;
  value = event;
  headers = ("event_type", event.event_type) ∷ ("source_service", event.source_service) ∷ [];
}

write_message : Outcome → Message → List Message → Result String (Unit {0}) × List Message
write_message outcome m sent = perform outcome (λ (ms : List Message). ok (tt, m ∷ ms)) sent

-- `Publish` on either implementation; the messages written are kept newest first.
unfoldable pub publish :
    Outcome → Publisher → String → Event → List Message → Result String (Unit {0}) × List Message
unfolding write_message
publish outcome noop key event sent = (ok tt, sent)
publish outcome (kafka p) key event sent =
    if not p.enabled
    then (ok tt, sent)
    else if str_eq (trim_space key) ""
    then (err "kafka message key is required", sent)
    else write_message outcome (message key event) sent

-- `Enabled` on either implementation.
unfoldable pub is_enabled : Publisher → Bool
is_enabled noop = false
is_enabled (kafka p) = p.enabled
