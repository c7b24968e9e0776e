-- ===== src/Lib.antt =====
-- The web client of bu3li-comms (frontend/src): its realtime core (the cache of messages, the stores of
-- presence, typing, receipts, voice channels and toasts, the one WebSocket connection, the voice call, and
-- the hook that hands the server's events to all of them), its requests to the server, and what its
-- components do beside rendering.
--
-- How the parts work together. `RealtimeSocket` (frontend/src/realtime/socket.ts) keeps the connection
-- and tells its listeners each event and each change of its status. `useRealtime`
-- (frontend/src/hooks/useRealtime.ts) is the one listener: it applies the pure functions of
-- frontend/src/api/messageCache.ts to the messages that TanStack Query caches, marks lists to be fetched
-- again, and calls the stores of frontend/src/stores and the call manager of
-- frontend/src/calls/callManager.ts, which sends its own frames by the same socket.
--
-- Which file models which part:
--   Message          frontend/src/types/message.ts
--   MessageCache     frontend/src/api/messageCache.ts: insertOrReconcileMessage is
--                    insert_or_reconcile_message, and so on; the children are about the order and the ids
--                    (Order, Reconcile), edits (Versions), the life of an optimistic message (Status)
--                    and reactions (Reactions)
--   Stores           frontend/src/stores/presenceStore.ts, readReceiptsStore.ts, voiceChannelStore.ts
--                    and toastStore.ts
--   Typing           frontend/src/stores/typingStore.ts: setTyping is set_typing, its parts are
--                    clear_existing, apply_removal, add_typing and start_timer; Spec is the
--                    specification, and Refinement relates the two
--   Socket           frontend/src/realtime/socket.ts: a method is a function on the record
--                    RealtimeSocket, `open` is open_socket, its listeners are on_open, on_close and
--                    on_error; Steps is everything that can happen to a connection
--   Utf16            JavaScript's order of texts, by UTF-16 code units
--   Calls            frontend/src/stores/callStore.ts, frontend/src/calls/signaling.ts and
--                    frontend/src/calls/callManager.ts (its event handlers in Calls/Handlers); Steps is
--                    everything that can happen to a call
--   Server           frontend/src/types/server.ts
--   RealtimeEvent    frontend/src/realtime/events.ts, the events
--   Parsing          parseRealtimeEvent of frontend/src/realtime/events.ts (Kinds), and the listeners of
--                    frontend/src/realtime/socket.ts that are handed the events (Delivery)
--   Realtime         handleEvent and handleStatus of frontend/src/hooks/useRealtime.ts; Received is a
--                    message of the connection from its text to the cache
--   Sending          frontend/src/hooks/useSendMessage.ts, useEditMessage.ts, useDeleteMessage.ts and
--                    useToggleReaction.ts; the host calls the on_ functions with the answers
--   Composer         frontend/src/hooks/useTypingIndicator.ts and useReadReceipts.ts
--   Conversations    frontend/src/types/conversation.ts, frontend/src/lib/conversation.ts and
--                    frontend/src/hooks/useUserDirectory.ts
--   Channels         frontend/src/hooks/useServerMutations.ts
--   Http             frontend/src/api/client.ts; Endpoints are the requests of messages.ts, auth.ts,
--                    users.ts and conversations.ts beside it, Servers those of servers.ts; Outcomes is
--                    a call that has succeeded, Loading the messages that useMessages.ts loads
--   ChannelList      frontend/src/components/servers/ServerChannelList.tsx: Moves and Session are a drag,
--                    Controls what is offered to whom
--   NewConversation  frontend/src/components/conversations/NewConversationDialog.tsx and
--                    frontend/src/hooks/useConversationMutations.ts
--   Recorder         frontend/src/hooks/useAudioRecorder.ts: Release and Lost are about the microphone, Take
--                    about the clip
--   Images           frontend/src/lib/image.ts (Resizing)
--   Media            frontend/src/components/messages/MessageComposer.tsx (Writing, Files),
--                    frontend/src/hooks/useSendVoiceMessage.ts and useSendMediaMessage.ts,
--                    frontend/src/hooks/useAudioInputDevices.ts (Devices), and
--                    frontend/src/calls/speakingDetector.ts (Speaking)
--   Accounts         frontend/src/hooks/useAuthMutations.ts, useProfileMutations.ts and useMe.ts, the query
--                    cache of frontend/src/main.tsx, the forms of frontend/src/pages and of the settings
--                    (Forms), and frontend/src/routes (Gates)
--   Timeline         frontend/src/components/messages/MessageList.tsx and frontend/src/lib/format.ts
--                    (ReadMarks), MessageContent.tsx (Content, Lossless) and MessageBubble.tsx (Bubble)
--   Roles            frontend/src/components/servers/settings/ServerRolesSettings.tsx (Editor),
--                    frontend/src/components/servers/ServerMembersSidebar.tsx and InviteMemberDialog.tsx
--   Presentation     frontend/src/hooks/useDisplayName.ts, frontend/src/components/messages/TypingIndicator.tsx and
--                    ConversationView.tsx, frontend/src/components/conversations/ConversationListItem.tsx (Names),
--                    frontend/src/pages/ServerSettingsPage.tsx and the members' settings (Access), and
--                    frontend/src/calls/components/VoiceChannelBar.tsx; Reactions is
--                    frontend/src/components/messages/ReactionBar.tsx, Dialogs the names given in
--                    frontend/src/components/servers/CreateServerDialog.tsx and its like
--   Prelude          Boolean tests, lists, and plain objects and sets as association lists and lists
--
-- How code is modelled. A store or an object is a record, an action a function to the new record. A
-- JavaScript Map or plain object is an association list in order of insertion, a Set of texts a list.
-- Time is a natural number of milliseconds that the caller passes; a timeout is an entry of a list that
-- the host (`elapse`, or a step) runs once it is due. An await splits a method: what is left of it is a
-- task, which the browser's answer resumes at any later point, so that every interleaving is a sequence
-- of actions. The numbers of a message are natural numbers. One definition runs on fuel, the loop
-- over a message's tokens (Timeline.Content.nodes_of): its fuel is the length of the text, of which each
-- step takes some. Every other recursion is on a list.
--
-- What is a parameter. `localeCompare` is `compare`, with the named assumption IsCollation (it orders the
-- texts) where order matters. TanStack Query's client is the record QueryClient with the laws of reading
-- and writing its cache; of the session's query, MeQuery says what it does with no data and on a failure.
-- `fetch`, zod's schemas (functions that read a value of JSON or refuse it),
-- encodeURIComponent, URLSearchParams, `String.trim`, `startsWith` and what a browser makes of a date or a
-- video are parameters; its bitmaps and canvas are the record Canvas. Ids that crypto.randomUUID returns are arguments.
--
-- Not modelled: the Go server, styles and the rendering of what has no state or choice, zod's validation,
-- the browser's media interfaces, the queries of TanStack Query, and the theme and motion settings.
pub mod Prelude
pub mod Message
pub mod MessageCache
pub mod Stores
pub mod Typing
pub mod Socket
pub mod Utf16
pub mod Calls
pub mod Server
pub mod RealtimeEvent
pub mod Realtime
pub mod Sending
pub mod Composer
pub mod Channels
pub mod Parsing
pub mod Conversations
pub mod Http
pub mod NewConversation
pub mod Recorder
pub mod Images
pub mod Media
pub mod Accounts
pub mod Timeline
pub mod Roles
pub mod ChannelList
pub mod Presentation
