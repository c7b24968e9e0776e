-- ===== src/Realtime/Tests.antt =====
-- The events and the statuses of frontend/src/hooks/useRealtime.ts with a query client that holds its
-- cache as an association list.
use bu3li_comms.Prelude.{
  ℕ, String, Bool, true, false, ◌==◌, ◌||◌, String-discrete, ◌≡◌, refl, Option, none, some, List,
  [], ◌∷◌, Dict, get, put, get-put, String,
}
use bu3li_comms.Message.{ChatMessage}
use bu3li_comms.MessageCache.{insert_or_reconcile_message}
use bu3li_comms.MessageCache.Order.{DistinctIds}
use bu3li_comms.MessageCache.Tests.{
  by_units, by_units-IsCollation, second, conversation, conversation-DistinctIds,
}
use bu3li_comms.Calls.{initial as no_call}
use bu3li_comms.Typing.{initial as nobody_types}
use bu3li_comms.Socket.{ConnectionStatus, connecting, connected, reconnecting}
use bu3li_comms.RealtimeEvent.{RealtimeEvent}
use bu3li_comms.Stores.{or_empty}
use bu3li_comms.Realtime.{ListQuery, same_query, QueryClient, World, handle_event}
use bu3li_comms.Parsing.{EventSchemas}
use bu3li_comms.Parsing.Tests.{Json, presence_only, inherits}
use bu3li_comms.Realtime.Received.{Announces, receive, received_twice}
use bu3li_comms.Realtime.Messages.{other_conversations, created_twice}

abbrev Table : Type 0
Table = Dict (List ChatMessage) × List ListQuery

abbrev stale_in : ListQuery → List ListQuery → Bool
stale_in q [] = false
stale_in q (r ∷ rs) = same_query q r || stale_in q rs

abbrev table_client : QueryClient
table_client = record {
  Cache = Table;
  messages = λ k c. get k c.0;
  set_messages = λ k ms c. (put k ms c.0, c.1);
  invalidate = λ q c. (c.0, q ∷ c.1);
  is_stale = λ q c. stale_in q c.1;
  messages-set = λ j k ms c. get-put j k ms c.0;
  messages-invalidate = λ j q c. refl;
  stale-set = λ q k ms c. refl;
  stale-invalidate = λ q r c. refl;
}

abbrev world : World Table
world = record {
  cache = (("general", conversation) ∷ ("other", []) ∷ [], []);
  presence = record { online = [] };
  typing = nobody_types;
  receipts = record { last_read_by_conversation = [] };
  voice = record { participants_by_conversation = [] };
  calls = record {
    store = no_call;
    self_user_id = some "ann";
    conversation_id = none;
    local_stream = none;
    peers = [];
    next_peer = 0;
    closed = [];
    stopped = [];
    enabled = true;
    sent = [];
    asked = [];
    tasks = [];
  };
  toasts = record { toasts = []; timers = [] };
  connection = connecting;
  was_disrupted = false;
}

general_other : "general" == "other" ≡ false
unfolding String-discrete
general_other = refl

other_conversations_example :
    table_client.messages "other"
      (handle_event by_units table_client 7 (RealtimeEvent.message_created second) world).cache
    ≡ table_client.messages "other" world.cache
other_conversations_example =
    other_conversations by_units table_client 7 "other" (RealtimeEvent.message_created second) world
      general_other

world-DistinctIds : DistinctIds (or_empty (table_client.messages "general" world.cache))
unfolding get String-discrete
world-DistinctIds = conversation-DistinctIds

created_twice_example :
    let e = RealtimeEvent.message_created second in
    let w' = handle_event by_units table_client 7 e world in
    table_client.messages "general" (handle_event by_units table_client 8 e w').cache
    ≡ table_client.messages "general" w'.cache
created_twice_example =
    created_twice by_units table_client 7 8 second world by_units-IsCollation world-DistinctIds

abbrev outage : List (ℕ × String × ConnectionStatus)
outage =
    (1, "t1", connected)
    ∷ (2, "t2", reconnecting)
    ∷ (3, "t3", connected)
    ∷ (4, "t4", connected)
    ∷ []

-- Every text is read as the envelope of the second message.
abbrev message_schemas : EventSchemas Json
message_schemas = record presence_only { message = λ j. some second }

abbrev read_envelope : String → Option Json
read_envelope raw = some ("message.created", "")

second_announced :
    Announces message_schemas inherits read_envelope by_units table_client "{}" second
second_announced = record {
  json = ("message.created", "");
  payload = ("message.created", "");
  is_json = refl;
  is_envelope = refl;
  is_message = refl;
}

received_twice_example :
    let after = some (
      insert_or_reconcile_message by_units
        (or_empty (table_client.messages "general" world.cache))
        second) in
    (table_client.messages "general"
        (receive message_schemas inherits read_envelope by_units table_client 7 "{}" world).cache
      ≡ after)
    × (table_client.messages "general"
          (receive message_schemas inherits read_envelope by_units table_client 8 "{}" (
            receive message_schemas inherits read_envelope by_units table_client 7 "{}"
              world)).cache
        ≡ after)
received_twice_example =
    received_twice message_schemas inherits read_envelope by_units table_client 7 8 "{}" second
      world second_announced by_units-IsCollation world-DistinctIds
