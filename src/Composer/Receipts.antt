-- ===== src/Composer/Receipts.antt =====
-- What `useReadReceipts` of frontend/src/hooks/useReadReceipts.ts hands to the connection's `send` for the server.
use bu3li_comms.Prelude.{
  String, Bool, true, false, not, ◌&&◌, ◌==◌, ◌≡◌, refl, if◌then◌else◌, Option, none, some, List,
  [], ◌∷◌, ◌++◌, All, arith,
}
use bu3li_comms.Message.{ChatMessage}
use bu3li_comms.Composer.{
  ReadMarker, message_read, is_sent, is_marked, last_incoming, mark_latest_incoming_read,
}

abbrev pub is_incoming : String → ChatMessage → Bool
is_incoming user m = not (m.sender_id == user) && is_sent m.status

abbrev pub NoIncoming : String → List ChatMessage → Type 0
NoIncoming user ms = All (λ m. is_incoming user m ≡ false) ms

last_incoming_of_none :
    (user : String) (found : Option String) (ms : List ChatMessage)
    → NoIncoming user ms
    → last_incoming user found ms ≡ found
unfolding last_incoming
last_incoming_of_none user found [] h = refl
last_incoming_of_none user found (m ∷ ms) (n, h) = rw n (last_incoming_of_none user found ms h)

last_incoming_of_last :
    (user : String) (before after : List ChatMessage) (found : Option String) (m : ChatMessage)
    → is_incoming user m ≡ true
    → NoIncoming user after
    → last_incoming user found (before ++ m ∷ after) ≡ some m.id
unfolding last_incoming
last_incoming_of_last user [] after found m e h =
    rw (e, last_incoming) (last_incoming_of_none user (some m.id) after h)
last_incoming_of_last user (x ∷ before) after found m e h =
    last_incoming_of_last user before after (if is_incoming user x then some x.id else found) m e h

-- If the document is visible and `m` is the last message of another user that the server has confirmed,
-- then afterwards `m` is the one marked, and it is told once: a message read frame is added unless it was
-- the one marked before.
pub mark_lem :
    (user : String) (before after : List ChatMessage) (m : ChatMessage) (s : ReadMarker)
    → is_incoming user m ≡ true
    → NoIncoming user after
    → mark_latest_incoming_read user true (before ++ m ∷ after) s ≡ record {
      last_marked = some m.id;
      frames = if is_marked s.last_marked m.id then s.frames else message_read m.id ∷ s.frames;
    }
unfolding mark_latest_incoming_read
mark_lem user before after m s e h =
    rw (last_incoming_of_last user before after none m e h, mark_latest_incoming_read)
      (ground arith)
