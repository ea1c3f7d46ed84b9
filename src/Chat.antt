-- ===== src/Chat.antt =====
-- The history of chats, src/aegis_fabric/chat_history.py, over the tables `chat_conversations` and
-- `chat_messages`. UUIDs are numbers: a fresh one is an argument, and a text that is no UUID is
-- `none`. The month of a time, the title of a prompt and text search are parameters; the JSON metadata
-- and the provider's fields are left out.
pub mod Order
pub mod Owned
pub mod RoundTrip
pub mod Turn
mod Examples
use aegis_capstone.Common.{
  ◌<>◌, ℕ, zero, suc, ◌+◌, ◌-◌, ◌≤◌, ◌<◌, String, ◌≡◌, refl, sym, ap, ◌∙◌, ◌≢◌, ◌⊎◌, inl, inr, Bool,
  true, false, ◌&&◌, ◌||◌, not, Option, none, some, List, [], ◌∷◌, ◌++◌, map, arith, ◌==◌, eq_iff,
  ltb, leb, eqb, if◌then◌else◌, Bool-cases, Option-cases, or_else, is_some, length, is_empty, keep,
  any, All, contains, update_where,
}
use aegis_capstone.Auth.{Subject}

-- A row of `chat_conversations`.
pub record Conversation : Type 0 where
  pub id : ℕ
  pub tenant_id : String
  pub user_email : String
  pub title : String
  pub created_at : ℕ
  pub updated_at : ℕ
  pub last_message_at : Option ℕ
  pub month_key : String
  pub archived : Bool

pub data Role : Type 0 where
  user assistant : Role

-- A row of `chat_messages`.
pub record Message : Type 0 where
  pub id : ℕ
  pub conversation_id : ℕ
  pub tenant_id : String
  pub user_email : String
  pub role : Role
  pub content : String
  pub input_tokens : Option ℕ
  pub output_tokens : Option ℕ
  pub total_tokens : Option ℕ
  pub token_source : String
  pub created_at : ℕ
  pub month_key : String

pub record Chats : Type 0 where
  pub conversations : List Conversation
  pub messages : List Message

-- The numbers of a snapshot of the usage.
pub record Snapshot : Type 0 where
  pub prompt_tokens : ℕ
  pub completion_tokens : ℕ
  pub tokens_total : ℕ

-- `_token_source`
unfoldable pub token_source : Snapshot → String
token_source s =
    if not (eqb s.prompt_tokens 0) || not (eqb s.completion_tokens 0)
    then "provider"
    else if not (eqb s.tokens_total 0)
    then "estimated"
    else "unmetered"

-- `WHERE id=%s AND tenant_id=%s AND user_email=%s AND archived=FALSE`
unfoldable pub is_own : Subject → ℕ → Conversation → Bool
is_own subject id c =
    eqb c.id id
    && (c.tenant_id == subject.tenant_id && (c.user_email == subject.email && not c.archived))

unfoldable pub find_own : Subject → ℕ → List Conversation → Option Conversation
find_own subject id [] = none
find_own subject id (c ∷ cs) = if is_own subject id c then some c else find_own subject id cs

-- `ORDER BY created_at ASC, id ASC`
unfoldable pub comes_before : Message → Message → Bool
comes_before m n = ltb m.created_at n.created_at || (eqb m.created_at n.created_at && ltb m.id n.id)

unfoldable pub place : Message → List Message → List Message
place m [] = m ∷ []
place m (n ∷ ns) = if comes_before n m then n ∷ place m ns else m ∷ n ∷ ns

unfoldable pub in_order : List Message → List Message
in_order [] = []
in_order (m ∷ ms) = place m (in_order ms)

-- `month_key and …`: no month is the empty text.
unfoldable pub in_month : String → Message → Bool
in_month month m = month == "" || m.month_key == month

unfoldable pub messages_of : String → ℕ → List Message → List Message
messages_of month id ms = in_order (keep (λ m. eqb m.conversation_id id && in_month month m) ms)

-- `get_messages` from the query for the owner on.
unfoldable pub messages_for : String → ℕ → Option Conversation → Chats → Option (List Message)
messages_for month id none db = none
messages_for month id (some c) db = some (messages_of month id db.messages)

unfoldable pub messages_if : Subject → Option ℕ → String → Chats → Option (List Message)
messages_if subject none month db = none
messages_if subject (some id) month db =
    messages_for month id (find_own subject id db.conversations) db

-- `get_messages`
unfoldable pub get_messages : Subject → Option ℕ → String → Chats → Option (List Message)
get_messages subject conversation_id month db = messages_if subject conversation_id month db

unfoldable pub new_conversation : Subject → ℕ → String → ℕ → Option ℕ → String → Conversation
new_conversation subject id title now last month = record {
  id = id;
  tenant_id = subject.tenant_id;
  user_email = subject.email;
  title = title;
  created_at = now;
  updated_at = now;
  last_message_at = last;
  month_key = month;
  archived = false;
}

-- `title or "New conversation"`
unfoldable pub title_or : String → String
title_or title = if title == "" then "New conversation" else title

-- `create_conversation`
unfoldable pub create_conversation : Subject → String → ℕ → ℕ → String → Chats → Chats
create_conversation subject title fresh now month db = record db {
  conversations =
      db.conversations ++ new_conversation subject fresh (title_or title) now none month ∷ [];
}

unfoldable pub archive_found : Subject → Option ℕ → ℕ → Chats → Bool × Chats
archive_found subject none now db = (false, db)
archive_found subject (some id) now db = (
  is_some (find_own subject id db.conversations),
  record db {
    conversations =
        update_where (is_own subject id) (λ c. record c { archived = true; updated_at = now })
          db.conversations;
  },
)

-- `archive_conversation`
unfoldable pub archive_conversation : Subject → Option ℕ → ℕ → Chats → Bool × Chats
archive_conversation subject conversation_id now db = archive_found subject conversation_id now db
