-- ===== src/Chat/RoundTrip.antt =====
-- What a user reads after a turn.
use aegis_capstone.Common.{
  ℕ, ◌<◌, ◌≡◌, refl, ap, ◌∙◌, inl, inr, Bool, false, ◌&&◌, some, List, [], ◌∷◌, ◌++◌, arith, ltb,
  eqb, if◌then◌else◌, Bool-cases, Option-cases, keep, All, eqb_refl, keep-append, All-keep_from,
}
use aegis_capstone.Auth.{Subject}
use aegis_capstone.Chat.{
  place, Message, comes_before, find_own, in_order, is_own, messages_of, in_month, Conversation,
  get_messages, messages_if, messages_for, Chats, update_where, true,
}
use aegis_capstone.Chat.Turn.{
  Turn, assistant_message, touch, user_message, append_turn, asked_for, append_to, own_or_new,
  conversations_after,
}

-- No message of `ys` comes before `x`.
abbrev NotBefore : List Message → Message → Type 0
NotBefore ys x = All (λ y. comes_before y x ≡ false) ys

place-append :
    (x : Message) (zs ys : List Message) → NotBefore ys x → place x (zs ++ ys) ≡ place x zs ++ ys
unfolding place
place-append x [] [] h = refl
place-append x [] (y ∷ ys) h = rw h.0 refl
place-append x (z ∷ zs) ys h = elim (Bool-cases (comes_before z x)) [
  | inl e ↦ rw e (ap (λ l. z ∷ l) (place-append x zs ys h))
  | inr e ↦ rw e refl
]

in_order-append :
    (xs ys : List Message)
    → All (NotBefore (in_order ys)) xs
    → in_order (xs ++ ys) ≡ in_order xs ++ in_order ys
unfolding in_order
in_order-append [] ys h = refl
in_order-append (x ∷ xs) ys h =
    ap (place x) (in_order-append xs ys h.1) ∙ place-append x (in_order xs) (in_order ys) h.0

-- A turn's messages, in the order in which they are read: that of their random ids.
unfoldable pub turn_messages : Subject → ℕ → Turn → List Message
turn_messages subject id t =
    if ltb t.assistant_id t.user_id
    then assistant_message subject id t ∷ user_message subject id t ∷ []
    else user_message subject id t ∷ assistant_message subject id t ∷ []

in_order-turn :
    (subject : Subject) (id : ℕ) (t : Turn)
    → in_order (user_message subject id t ∷ assistant_message subject id t ∷ [])
      ≡ turn_messages subject id t
unfolding in_order place comes_before turn_messages user_message assistant_message
in_order-turn subject id t = grind arith

Before-turn :
    (subject : Subject) (id : ℕ) (t : Turn) (x : Message)
    → x.created_at < t.now
    → NotBefore (turn_messages subject id t) x
unfolding turn_messages comes_before user_message assistant_message
Before-turn subject id t x h = elim (Bool-cases (ltb t.assistant_id t.user_id)) [
  | inl e ↦ rw e (ground arith, (ground arith, tt))
  | inr e ↦ rw e (ground arith, (ground arith, tt))
]

-- The test of `messages_of` without a month.
abbrev in_conversation : ℕ → Message → Bool
in_conversation id m = eqb m.conversation_id id && in_month "" m

keep-turn :
    (subject : Subject) (id : ℕ) (t : Turn)
    → keep (in_conversation id) (user_message subject id t ∷ assistant_message subject id t ∷ [])
      ≡ user_message subject id t ∷ assistant_message subject id t ∷ []
unfolding in_month user_message assistant_message
keep-turn subject id t = rw (eqb_refl id) refl

messages_of-turn :
    (subject : Subject) (id : ℕ) (t : Turn) (ms : List Message)
    → All (λ (m : Message). eqb m.conversation_id id ≡ true → m.created_at < t.now) ms
    → messages_of "" id (ms ++ user_message subject id t ∷ assistant_message subject id t ∷ [])
      ≡ messages_of "" id ms ++ turn_messages subject id t
unfolding messages_of
messages_of-turn subject id t ms h =
    let test = in_conversation id in
    let pair = user_message subject id t ∷ assistant_message subject id t ∷ [] in
    let q : keep test (ms ++ pair) ≡ keep test ms ++ pair =
      keep-append test ms pair ∙ ap (λ l. keep test ms ++ l) (keep-turn subject id t) in
    let before : All (NotBefore (in_order pair)) (keep test ms) = rw (in_order-turn subject id t) (
      All-keep_from _ (NotBefore (turn_messages subject id t)) test
        (λ m e b. Before-turn subject id t m (b (ground arith))) ms h) in
    ap in_order q
    ∙ in_order-append (keep test ms) pair before
    ∙ ap (λ l. in_order (keep test ms) ++ l) (in_order-turn subject id t)

is_own-touch :
    (subject : Subject) (id now : ℕ) (c : Conversation)
    → is_own subject id (touch now c) ≡ is_own subject id c
unfolding is_own touch
is_own-touch subject id now c = refl

find_own-touch :
    (subject : Subject) (id now : ℕ) (p : Conversation → Bool) (cs : List Conversation)
    (c : Conversation)
    → find_own subject id cs ≡ some c
    → (d : Conversation) × (find_own subject id (update_where p (touch now) cs) ≡ some d)
unfolding find_own
find_own-touch subject id now p [] c h = cc
find_own-touch subject id now p (e ∷ es) c h = elim (Bool-cases (p e)) [
  | inl q ↦ elim (Bool-cases (is_own subject id e)) [
    | inl o ↦ (touch now e, rw (q, is_own-touch subject id now e, o) refl)
    | inr o ↦
        let r = find_own-touch subject id now p es c (rw o at h) in
        (r.0, rw (q, is_own-touch subject id now e, o) r.1)
  ]
  | inr q ↦ elim (Bool-cases (is_own subject id e)) [
    | inl o ↦ (e, rw (q, o) refl)
    | inr o ↦ let r = find_own-touch subject id now p es c (rw o at h) in (r.0, rw (q, o) r.1)
  ]
]

find_own-id :
    (subject : Subject) (id : ℕ) (cs : List Conversation) (c : Conversation)
    → find_own subject id cs ≡ some c
    → c.id ≡ id
unfolding find_own is_own
find_own-id subject id [] c h = cc
find_own-id subject id (d ∷ ds) c h = elim (Bool-cases (is_own subject id d)) [
  | inl e ↦ let z : some d ≡ some c = rw e at h in let q : d.id ≡ id = ground arith in cc
  | inr e ↦ find_own-id subject id ds c (rw e at h)
]

get_messages-append_to :
    (db : Chats) (subject : Subject) (id : ℕ) (t : Turn) (c : Conversation)
    → find_own subject id db.conversations ≡ some c
    → All (λ (m : Message). eqb m.conversation_id id ≡ true → m.created_at < t.now) db.messages
    → get_messages subject (some id) "" (append_to subject t (some c) db)
      ≡ some (messages_of "" id db.messages ++ turn_messages subject id t)
unfolding get_messages messages_if messages_for append_to own_or_new conversations_after
get_messages-append_to db subject id t c h older =
    let i = find_own-id subject id db.conversations c h in
    let d = find_own-touch subject id t.now (λ e. eqb e.id c.id) db.conversations c h in
    rw d.1 (rw i (ap some (messages_of-turn subject id t db.messages older)))

-- In a conversation of the subject, whose messages are all older, what the subject reads after a turn
-- is what it read before, and then the turn's prompt and answer; but these two have one time, so that
-- the answer comes first when its random id is the smaller one.
pub get_messages-append_turn :
    (db : Chats) (subject : Subject) (id : ℕ) (t : Turn) (before : List Message)
    → get_messages subject (some id) "" db ≡ some before
    → All (λ (m : Message). eqb m.conversation_id id ≡ true → m.created_at < t.now) db.messages
    → get_messages subject (some id) "" (append_turn subject (some id) t db).1
      ≡ some (before ++ turn_messages subject id t)
unfolding append_turn asked_for get_messages messages_if messages_for
get_messages-append_turn db subject id t before h older =
    elim (Option-cases (find_own subject id db.conversations)) [
      | inl e ↦ let z = rw e at h in cc
      | inr (c, e) ↦
          let z : some (messages_of "" id db.messages) ≡ some before = rw e at h in
          let k : messages_of "" id db.messages ≡ before = cc in
          rw e (
            get_messages-append_to db subject id t c e older
            ∙ ap (λ l. some (l ++ turn_messages subject id t)) k)
    ]
