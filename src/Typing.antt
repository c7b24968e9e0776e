-- ===== src/Typing.antt =====
-- frontend/src/stores/typingStore.ts: who is typing where. `expiryTimers` maps a pair's key to the
-- handle of its timeout; the host keeps the timeouts that have not run (`timers`), each with what its
-- callback has captured. The time of a call is an argument.
pub mod View
pub mod Spec
pub mod Keys
pub mod Armed
pub mod Started
pub mod Expiry
pub mod Refinement
pub mod Tests
use Prim.Native.String.{◌++◌ as join}
use bu3li_comms.Prelude.{
  ℕ, ◌+◌, leb, ltb, eqb, String, Bool, true, false, not, ◌==◌, if◌then◌else◌, Option, none, some,
  List, [], ◌∷◌, ◌++◌, filter, includes, Dict, get, put, del, set_add, set_delete,
}

pub record Timer : Type 0 where
  pub handle : ℕ
  pub due : ℕ
  pub conversation_id : String
  pub user_id : String

pub record TypingStore : Type 0 where
  pub typing_by_conversation : Dict (List String)
  pub expiry_timers : Dict ℕ
  pub timers : List Timer
  pub next_handle : ℕ

abbrev pub typing_expiry_ms : ℕ
typing_expiry_ms = 5000

abbrev pub initial : TypingStore
initial = record { typing_by_conversation = []; expiry_timers = []; timers = []; next_handle = 1 }

unfoldable pub timer_key : String → String → String
timer_key conversation_id user_id = join conversation_id (join ":" user_id)

-- `clearTimeout`
abbrev pub clear_timeout : ℕ → List Timer → List Timer
clear_timeout handle timers = filter (λ t. not (eqb t.handle handle)) timers

unfoldable pub apply_removal : String → String → TypingStore → TypingStore
apply_removal conversation_id user_id s = elim (get conversation_id s.typing_by_conversation) [
  | none ↦ s
  | some current ↦
      if includes user_id current
      then record s {
        typing_by_conversation =
            put conversation_id (set_delete user_id current) s.typing_by_conversation;
      }
      else s
]

-- the first lines of `setTyping`: the timeout of the key is cleared, if there is one
unfoldable pub clear_existing : String → TypingStore → TypingStore
clear_existing key s = elim (get key s.expiry_timers) [
  | none ↦ s
  | some existing_timer ↦ record s {
    timers = clear_timeout existing_timer s.timers;
    expiry_timers = del key s.expiry_timers;
  }
]

abbrev pub typing_in : String → TypingStore → List String
typing_in conversation_id s = elim (get conversation_id s.typing_by_conversation) [
  | none ↦ []
  | some users ↦ users
]

unfoldable pub add_typing : String → String → TypingStore → TypingStore
add_typing conversation_id user_id s = record s {
  typing_by_conversation =
      put conversation_id (set_add user_id (typing_in conversation_id s)) s.typing_by_conversation;
}

-- `expiryTimers.set(key, setTimeout(…, TYPING_EXPIRY_MS))`
unfoldable pub start_timer : ℕ → String → String → TypingStore → TypingStore
start_timer now conversation_id user_id s = record s {
  expiry_timers = put (timer_key conversation_id user_id) s.next_handle s.expiry_timers;
  timers =
      s.timers
      ++ record {
        handle = s.next_handle;
        due = now + typing_expiry_ms;
        conversation_id = conversation_id;
        user_id = user_id;
      }
        ∷ [];
  next_handle = s.next_handle + 1;
}

unfoldable pub set_typing : ℕ → String → String → Bool → TypingStore → TypingStore
set_typing now conversation_id user_id is_typing s =
    let cleared = clear_existing (timer_key conversation_id user_id) s in
    if is_typing
    then start_timer now conversation_id user_id (add_typing conversation_id user_id cleared)
    else apply_removal conversation_id user_id cleared

-- the callback of a timeout
unfoldable pub on_expiry : Timer → TypingStore → TypingStore
on_expiry t s =
    apply_removal t.conversation_id t.user_id
      (record s { expiry_timers = del (timer_key t.conversation_id t.user_id) s.expiry_timers })

unfoldable pub run_callbacks : List Timer → TypingStore → TypingStore
run_callbacks [] s = s
run_callbacks (t ∷ ts) s = run_callbacks ts (on_expiry t s)

-- the host: the timeouts that are due at `now` run in the order in which they were set
unfoldable pub elapse : ℕ → TypingStore → TypingStore
elapse now s =
    run_callbacks (filter (λ t. leb t.due now) s.timers)
      (record s { timers = filter (λ t. ltb now t.due) s.timers })

-- `useTypingUsers`: an empty id is falsy, as is `undefined`
unfoldable pub typing_users : Option String → TypingStore → List String
typing_users none s = []
typing_users (some conversation_id) s =
    if conversation_id == "" then [] else typing_in conversation_id s
