-- ===== src/Http/Tests.antt =====
-- Requests of frontend/src/api/client.ts with concrete answers.
use bu3li_comms.Prelude.{ℕ, String, true, ◌≡◌, refl, none, some, List, [], ◌∷◌, inl}
use bu3li_comms.Message.{ChatMessage, to_sent_message}
use bu3li_comms.MessageCache.{insert_or_reconcile_message}
use bu3li_comms.MessageCache.Order.{IsSorted}
use bu3li_comms.MessageCache.Tests.{by_units, by_units-IsCollation, first}
use bu3li_comms.Http.{
  RequestInit, Fetched, answered, done, json_init, api_fetch, request, read_json,
}
use bu3li_comms.Http.Endpoints.{
  Schemas, query_messages, list_messages, sort_messages, insert_message,
}
use bu3li_comms.Http.Loading.{reconcile-query_messages}

-- A server whose answer is read as the first message.
abbrev accepting : String → RequestInit → Fetched ℕ
accepting url init =
    answered (record { is_ok = true; status = 200; status_text = "OK"; text = none; json = some 1 })

abbrev one_message : Schemas ℕ
one_message = record {
  message = λ n. some first;
  message_list = λ n. some (first ∷ []);
  user = λ n. none;
  user_list = λ n. none;
  conversation = λ n. none;
  conversation_list = λ n. none;
}

abbrev loaded : List ChatMessage
loaded = to_sent_message first ∷ []

query_loaded : query_messages "/api" accepting one_message by_units "c" ≡ done loaded
unfolding query_messages list_messages api_fetch request json_init read_json sort_messages
    insert_message
query_loaded = refl

reconcile-query_messages_example :
    IsSorted by_units loaded × (insert_or_reconcile_message by_units loaded first ≡ loaded)
reconcile-query_messages_example =
    reconcile-query_messages "/api" accepting one_message by_units "c" loaded first
      by_units-IsCollation query_loaded (tt, tt) (inl refl)
