-- ===== src/Chat/Examples.antt =====
-- A conversation, and the theorems on the history at it.
use aegis_capstone.Common.{
  ℕ, suc, ◌<◌, String, ◌≡◌, refl, true, none, some, List, [], ◌∷◌, ◌++◌, map, arith, All,
}
use aegis_capstone.Auth.{Subject}
use aegis_capstone.Chat.{
  Chats, Message, get_messages, messages_if, messages_for, find_own, is_own, new_conversation,
  messages_of, in_order, place, comes_before, in_month, token_source, eqb,
}
use aegis_capstone.Chat.Order.{IsOwn, get_messages-IsOwn}
use aegis_capstone.Chat.Owned.{Reachable, appended, empty_tables}
use aegis_capstone.Chat.RoundTrip.{turn_messages, get_messages-append_turn}
use aegis_capstone.Chat.Turn.{
  Turn, append_turn, append_to, user_message, assistant_message, own_or_new, asked_for,
  conversations_after, touch,
}

abbrev subject : String → Subject
subject email = record {
  sub = "s";
  email = email;
  tenant_id = "acme";
  team_id = "t";
  role = "analyst";
  token_claims = record {
    sub = "s";
    email = email;
    preferred_username = "";
    email_verified = true;
    groups = [];
    iat = none;
  };
}

-- A turn at this time; the ids of its messages are this number and the one before it.
abbrev turn : ℕ → ℕ → Turn
turn now id = record {
  prompt = "why?";
  title = "why?";
  answer = "because";
  snapshot = record { prompt_tokens = 2; completion_tokens = 3; tokens_total = 5 };
  now = now;
  month = "2026-01";
  fresh_conversation = 7;
  user_id = suc id;
  assistant_id = id;
}

abbrev empty_chats : Chats
empty_chats = record { conversations = []; messages = [] }

abbrev one_turn : Chats
one_turn = (append_turn (subject "ann") none (turn 5 100) empty_chats).1

one_turn-Reachable : Reachable one_turn
one_turn-Reachable =
    appended empty_chats (subject "ann") none (turn 5 100) empty_tables
      (record { no_conversation = tt; no_message = tt })

abbrev first_messages : List Message
first_messages = turn_messages (subject "ann") 7 (turn 5 100)

-- Ann reads her messages, bob reads nothing.
reads :
    (get_messages (subject "ann") (some 7) "" one_turn ≡ some first_messages)
    × (get_messages (subject "bob") (some 7) "" one_turn ≡ none)
    × (map (λ (m : Message). m.content) first_messages ≡ "because" ∷ "why?" ∷ [])
unfolding get_messages messages_if messages_for find_own is_own append_turn append_to own_or_new
    asked_for conversations_after new_conversation messages_of in_order place comes_before in_month
    turn_messages user_message assistant_message touch token_source
reads = (refl, refl, refl)

get_messages-IsOwn_example : All (IsOwn (subject "ann") 7) first_messages
get_messages-IsOwn_example =
    get_messages-IsOwn one_turn (subject "ann") 7 "" first_messages one_turn-Reachable reads.0

older : All (λ (m : Message). eqb m.conversation_id 7 ≡ true → m.created_at < 6) one_turn.messages
unfolding append_turn append_to user_message assistant_message
older = (λ e. omega arith, (λ e. omega arith, tt))

get_messages-append_turn_example :
    get_messages
      (subject "ann")
      (some 7)
      ""
      (append_turn (subject "ann") (some 7) (turn 6 200) one_turn).1
    ≡ some (first_messages ++ turn_messages (subject "ann") 7 (turn 6 200))
get_messages-append_turn_example =
    get_messages-append_turn one_turn (subject "ann") 7 (turn 6 200) first_messages reads.0 older
