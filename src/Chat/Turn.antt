-- ===== src/Chat/Turn.antt =====
-- `append_turn` of src/aegis_fabric/chat_history.py.
use aegis_capstone.Common.{ℕ, String, Option, none, some, List, [], ◌∷◌, ◌++◌, eqb}
use aegis_capstone.Auth.{Subject}
use aegis_capstone.Chat.{
  Conversation, Snapshot, Subject, Chats, Message, find_own, new_conversation, assistant, user,
  token_source, update_where,
}

-- What a turn brings: the prompt with its title, the answer and the usage, the time with its month, and
-- the fresh ids.
pub record Turn : Type 0 where
  pub prompt : String
  pub title : String
  pub answer : String
  pub snapshot : Snapshot
  pub now : ℕ
  pub month : String
  pub fresh_conversation : ℕ
  pub user_id : ℕ
  pub assistant_id : ℕ

-- The conversation of the turn: the subject's own one, or a new one.
unfoldable pub own_or_new : Turn → Option Conversation → ℕ
own_or_new t none = t.fresh_conversation
own_or_new t (some c) = c.id

unfoldable pub conversations_after :
    Subject → Turn → Option Conversation → List Conversation → List Conversation
conversations_after subject t none cs =
    cs ++ new_conversation subject t.fresh_conversation t.title t.now (some t.now) t.month ∷ []
conversations_after subject t (some c) cs = cs

-- `if conv_id: SELECT …`
unfoldable pub asked_for : Subject → Option ℕ → List Conversation → Option Conversation
asked_for subject none cs = none
asked_for subject (some id) cs = find_own subject id cs

unfoldable pub user_message : Subject → ℕ → Turn → Message
user_message subject id t = record {
  id = t.user_id;
  conversation_id = id;
  tenant_id = subject.tenant_id;
  user_email = subject.email;
  role = user;
  content = t.prompt;
  input_tokens = none;
  output_tokens = none;
  total_tokens = none;
  token_source = "unmetered";
  created_at = t.now;
  month_key = t.month;
}

unfoldable pub assistant_message : Subject → ℕ → Turn → Message
assistant_message subject id t = record {
  id = t.assistant_id;
  conversation_id = id;
  tenant_id = subject.tenant_id;
  user_email = subject.email;
  role = assistant;
  content = t.answer;
  input_tokens = some t.snapshot.prompt_tokens;
  output_tokens = some t.snapshot.completion_tokens;
  total_tokens = some t.snapshot.tokens_total;
  token_source = token_source t.snapshot;
  created_at = t.now;
  month_key = t.month;
}

-- `UPDATE chat_conversations SET updated_at, last_message_at WHERE id=%s`
unfoldable pub touch : ℕ → Conversation → Conversation
touch now c = record c { updated_at = now; last_message_at = some now }

-- The transaction, on the conversation that was found.
unfoldable pub append_to : Subject → Turn → Option Conversation → Chats → Chats
append_to subject t o db = record {
  conversations =
      update_where (λ c. eqb c.id (own_or_new t o)) (touch t.now)
        (conversations_after subject t o db.conversations);
  messages =
      db.messages
      ++ user_message subject (own_or_new t o) t
        ∷ assistant_message subject (own_or_new t o) t
        ∷ [];
}

-- `append_turn`: the conversation of the turn, and the tables after it.
unfoldable pub append_turn : Subject → Option ℕ → Turn → Chats → ℕ × Chats
append_turn subject conversation_id t db = (
  own_or_new t (asked_for subject conversation_id db.conversations),
  append_to subject t (asked_for subject conversation_id db.conversations) db,
)
