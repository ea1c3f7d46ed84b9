-- ===== src/Chat/Owned.antt =====
-- Whose messages a user sees: the owner of a conversation is the owner of its messages.
use aegis_capstone.Common.{
  ℕ, String, ◌≡◌, refl, sym, ◌∙◌, inl, inr, Bool, true, false, Option, some, List, [], ◌∷◌, ◌++◌,
  arith, eq_iff, eqb, if◌then◌else◌, Bool-cases, All, All-append, eqb_refl, none, All-map2,
}
use aegis_capstone.Auth.{Subject}
use aegis_capstone.Chat.{
  Chats, find_own, Conversation, create_conversation, is_own, Message, archive_conversation,
  archive_found, new_conversation, title_or, update_where,
}
use aegis_capstone.Chat.Turn.{
  Turn, append_turn, touch, user_message, assistant_message, append_to, asked_for, own_or_new,
  conversations_after,
}

abbrev pub Owner : Type 0
Owner = String × String

abbrev pub subject_owner : Subject → Owner
subject_owner s = (s.tenant_id, s.email)

abbrev pub conversation_owner : Conversation → Owner
conversation_owner c = (c.tenant_id, c.user_email)

abbrev pub message_owner : Message → Owner
message_owner m = (m.tenant_id, m.user_email)

-- Every conversation has one owner, and every message is its conversation's owner's.
pub record WellOwned (db : Chats) : Type 0 where
  pub owner : ℕ → Owner
  pub conversations_owned :
      All (λ (c : Conversation). conversation_owner c ≡ owner c.id) db.conversations
  pub messages_owned : All (λ (m : Message). message_owner m ≡ owner m.conversation_id) db.messages

-- A UUID that neither table has.
pub record IsFresh (id : ℕ) (db : Chats) : Type 0 where
  pub no_conversation : All (λ (c : Conversation). eqb c.id id ≡ false) db.conversations
  pub no_message : All (λ (m : Message). eqb m.conversation_id id ≡ false) db.messages

-- The tables that the calls of users lead to.
pub data Reachable : Chats → Type 0 where
  empty_tables : Reachable (record { conversations = []; messages = [] })
  created :
      (db : Chats) (subject : Subject) (title : String) (fresh now : ℕ) (month : String)
      → Reachable db
      → IsFresh fresh db
      → Reachable (create_conversation subject title fresh now month db)
  archive :
      (db : Chats) (subject : Subject) (id : Option ℕ) (now : ℕ)
      → Reachable db
      → Reachable (archive_conversation subject id now db).1
  appended :
      (db : Chats) (subject : Subject) (id : Option ℕ) (t : Turn)
      → Reachable db
      → IsFresh t.fresh_conversation db
      → Reachable (append_turn subject id t db).1

-- The owners with one more conversation.
owner_with : ℕ → Owner → (ℕ → Owner) → ℕ → Owner
owner_with id o owner i = if eqb i id then o else owner i

All-update_where :
    (P : Conversation → Type 0) (p : Conversation → Bool) (f : Conversation → Conversation)
    → ((c : Conversation) → P c → P (f c))
    → (cs : List Conversation) → All P cs
    → All P (update_where p f cs)
All-update_where P p f k [] h = tt
All-update_where P p f k (c ∷ cs) h = elim (Bool-cases (p c)) [
  | inl e ↦ rw e (k c h.0, All-update_where P p f k cs h.1)
  | inr e ↦ rw e (h.0, All-update_where P p f k cs h.1)
]

is_own-parts :
    (subject : Subject) (id : ℕ) (c : Conversation)
    → is_own subject id c ≡ true
    → (c.id ≡ id) × (conversation_owner c ≡ subject_owner subject)
unfolding is_own
is_own-parts subject id c h =
    let e : c.id ≡ id = ground arith in
    let t : c.tenant_id ≡ subject.tenant_id =
      ground (arith, eq_iff c.tenant_id subject.tenant_id) in
    let u : c.user_email ≡ subject.email = ground (arith, eq_iff c.user_email subject.email) in
    (e, cc)

pub find_own-Own :
    (owner : ℕ → Owner) (subject : Subject) (id : ℕ) (cs : List Conversation) (c : Conversation)
    → All (λ (c : Conversation). conversation_owner c ≡ owner c.id) cs
    → find_own subject id cs ≡ some c
    → (c.id ≡ id) × (owner id ≡ subject_owner subject)
unfolding find_own
find_own-Own owner subject id [] c h q = cc
find_own-Own owner subject id (d ∷ ds) c h q = elim (Bool-cases (is_own subject id d)) [
  | inl e ↦
      let z : some d ≡ some c = rw e at q in
      let o = is_own-parts subject id d e in let k = h.0 in (cc, cc)
  | inr e ↦ find_own-Own owner subject id ds c h.1 (rw e at q)
]

module _ (owner : ℕ → Owner) (id : ℕ) (o : Owner) where
  owner_with-same : owner_with id o owner id ≡ o
  unfolding owner_with
  owner_with-same = rw (eqb_refl id) refl

  conversations-owner_with :
      (cs : List Conversation)
      → All (λ (c : Conversation). conversation_owner c ≡ owner c.id) cs
      → All (λ (c : Conversation). eqb c.id id ≡ false) cs
      → All (λ (c : Conversation). conversation_owner c ≡ owner_with id o owner c.id) cs
  unfolding owner_with
  conversations-owner_with cs h k = All-map2 _ _ _ (λ c p q. rw q p) cs h k

  messages-owner_with :
      (ms : List Message)
      → All (λ (m : Message). message_owner m ≡ owner m.conversation_id) ms
      → All (λ (m : Message). eqb m.conversation_id id ≡ false) ms
      → All (λ (m : Message). message_owner m ≡ owner_with id o owner m.conversation_id) ms
  unfolding owner_with
  messages-owner_with ms h k = All-map2 _ _ _ (λ m p q. rw q p) ms h k

well_owned_created :
    (db : Chats) (subject : Subject) (c : Conversation)
    → conversation_owner c ≡ subject_owner subject
    → WellOwned db
    → IsFresh c.id db
    → WellOwned (record db { conversations = db.conversations ++ c ∷ [] })
well_owned_created db subject c q w f =
    let own = subject_owner subject in
    record {
      owner = owner_with c.id own w.owner;
      conversations_owned =
          All-append _ db.conversations (c ∷ [])
            (conversations-owner_with w.owner c.id own db.conversations w.conversations_owned
              f.no_conversation)
            (q ∙ sym (owner_with-same w.owner c.id own), tt);
      messages_owned =
          messages-owner_with w.owner c.id own db.messages w.messages_owned f.no_message;
    }

-- The two messages of a turn, in a conversation of the subject.
WellOwned-turn :
    (db : Chats) (subject : Subject) (id : ℕ) (t : Turn) (p : Conversation → Bool)
    (w : WellOwned db)
    → w.owner id ≡ subject_owner subject
    → WellOwned (record {
      conversations = update_where p (touch t.now) db.conversations;
      messages = db.messages ++ user_message subject id t ∷ assistant_message subject id t ∷ [];
    })
unfolding touch user_message assistant_message
WellOwned-turn db subject id t p w q = record {
  owner = w.owner;
  conversations_owned =
      All-update_where _ p (touch t.now) (λ c h. h) db.conversations w.conversations_owned;
  messages_owned = All-append _ db.messages (_ ∷ _ ∷ []) w.messages_owned (sym q, (sym q, tt));
}

append_to-WellOwned :
    (db : Chats) (subject : Subject) (t : Turn) (o : Option Conversation)
    → WellOwned db
    → IsFresh t.fresh_conversation db
    → (id : ℕ) → ((c : Conversation) → o ≡ some c → find_own subject id db.conversations ≡ some c)
    → WellOwned (append_to subject t o db)
unfolding append_to own_or_new conversations_after new_conversation well_owned_created owner_with
append_to-WellOwned db subject t none w f id k =
    let c = new_conversation subject t.fresh_conversation t.title t.now (some t.now) t.month in
    let w' = well_owned_created db subject c refl w f in
    WellOwned-turn (record db { conversations = db.conversations ++ c ∷ [] }) subject
      t.fresh_conversation t _ w'
      (owner_with-same w.owner t.fresh_conversation (subject_owner subject))
append_to-WellOwned db subject t (some c) w f id k =
    let q = find_own-Own w.owner subject id db.conversations c w.conversations_owned (k c refl) in
    WellOwned-turn db subject c.id t _ w (rw q.0 q.1)

asked_for-find :
    (subject : Subject) (id : Option ℕ) (cs : List Conversation)
    → (i : ℕ) × ((c : Conversation)
        → asked_for subject id cs ≡ some c
        → find_own subject i cs ≡ some c)
unfolding asked_for
asked_for-find subject none cs = (0, λ c h. cc)
asked_for-find subject (some i) cs = (i, λ c h. h)

archive_found-WellOwned :
    (subject : Subject) (id : Option ℕ) (now : ℕ) (db : Chats)
    → WellOwned db
    → WellOwned (archive_found subject id now db).1
unfolding archive_found
archive_found-WellOwned subject none now db w = w
archive_found-WellOwned subject (some id) now db w = record {
  owner = w.owner;
  conversations_owned =
      All-update_where _ (is_own subject id) _ (λ c h. h) db.conversations w.conversations_owned;
  messages_owned = w.messages_owned;
}

pub Reachable-WellOwned : (db : Chats) → Reachable db → WellOwned db
unfolding create_conversation archive_conversation append_turn new_conversation
Reachable-WellOwned _ empty_tables = record {
  owner = λ i. ("", "");
  conversations_owned = tt;
  messages_owned = tt;
}
Reachable-WellOwned _ (created db subject title fresh now month r f) =
    well_owned_created db subject (new_conversation subject fresh (title_or title) now none month)
      refl (Reachable-WellOwned db r) f
Reachable-WellOwned _ (archive db subject id now r) =
    archive_found-WellOwned subject id now db (Reachable-WellOwned db r)
Reachable-WellOwned _ (appended db subject id t r f) =
    let a = asked_for-find subject id db.conversations in
    append_to-WellOwned db subject t (asked_for subject id db.conversations)
      (Reachable-WellOwned db r) f a.0 a.1
