-- ===== src/Chat/Order.antt =====
-- The order of messages, and what a user is shown.
use aegis_capstone.Common.{
  ℕ, String, ◌≡◌, refl, ap, ◌∙◌, inl, inr, Option, none, some, List, [], ◌∷◌, arith, Bool-cases,
  All, All-keep_from,
}
use aegis_capstone.Auth.{Subject}
use aegis_capstone.Chat.{
  Message, get_messages, in_order, messages_for, messages_of, Chats, messages_if, place,
  Conversation, comes_before, find_own,
}
use aegis_capstone.Chat.Owned.{
  message_owner, Reachable, WellOwned, subject_owner, Reachable-WellOwned, find_own-Own,
}

All-place :
    (P : Message → Type 0) (m : Message) (ms : List Message) → P m → All P ms → All P (place m ms)
unfolding place
All-place P m [] h k = (h, tt)
All-place P m (n ∷ ns) h k = elim (Bool-cases (comes_before n m)) [
  | inl e ↦ rw e (k.0, All-place P m ns h k.1)
  | inr e ↦ rw e (h, k)
]

All-in_order : (P : Message → Type 0) (ms : List Message) → All P ms → All P (in_order ms)
unfolding in_order
All-in_order P [] h = tt
All-in_order P (m ∷ ms) h = All-place P m (in_order ms) h.0 (All-in_order P ms h.1)

-- The message is the user's own, and of this conversation.
pub IsOwn : Subject → ℕ → Message → Type 0
IsOwn subject id m = (message_owner m ≡ subject_owner subject) × (m.conversation_id ≡ id)

messages_of-IsOwn :
    (db : Chats) (subject : Subject) (month : String) (id : ℕ) (w : WellOwned db)
    → w.owner id ≡ subject_owner subject
    → All (IsOwn subject id) (messages_of month id db.messages)
unfolding messages_of IsOwn
messages_of-IsOwn db subject month id w q = All-in_order (IsOwn subject id) _ (
    All-keep_from _ (IsOwn subject id) _
      (λ m e h. let i : m.conversation_id ≡ id = ground arith in (h ∙ (ap w.owner i ∙ q), i))
      db.messages w.messages_owned)

messages_for-IsOwn :
    (db : Chats) (subject : Subject) (month : String) (id : ℕ) (o : Option Conversation)
    (ms : List Message)
    → find_own subject id db.conversations ≡ o
    → WellOwned db
    → messages_for month id o db ≡ some ms
    → All (IsOwn subject id) ms
unfolding messages_for
messages_for-IsOwn db subject month id none ms q w h = cc
messages_for-IsOwn db subject month id (some c) ms q w h =
    let k : messages_of month id db.messages ≡ ms = cc in
    rw (← k) (
      messages_of-IsOwn db subject month id w
        (find_own-Own w.owner subject id db.conversations c w.conversations_owned q).1)

-- Whatever users have created, archived and said before, with fresh ids, the messages that
-- `get_messages` returns are messages of the conversation, and of the tenant and user who asks.
pub get_messages-IsOwn :
    (db : Chats) (subject : Subject) (id : ℕ) (month : String) (ms : List Message)
    → Reachable db
    → get_messages subject (some id) month db ≡ some ms
    → All (IsOwn subject id) ms
unfolding get_messages messages_if
get_messages-IsOwn db subject id month ms r h =
    messages_for-IsOwn db subject month id (find_own subject id db.conversations) ms refl
      (Reachable-WellOwned db r) h
