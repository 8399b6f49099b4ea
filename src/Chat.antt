-- ===== src/Chat.antt =====
-- The chat (net/GameChat.cpp): the messages that are shown, the line that is typed, and the commands. The
-- clock of a message, `tolower` of the C library and what a command's function does at a time are parameters.
pub mod Bounds
pub mod Use
mod Tests
use gta_psp_multiplayer.Prelude.{
  ℕ, ◌+◌, Bool, true, false, not, ◌&&◌, ◌||◌, Option, none, some, List, [], ◌∷◌, ◌++◌, map, length,
  drop, ltb, ◌==◌, if◌then◌else◌,
}
use gta_psp_multiplayer.NetSession.Groups.{equal_lists}

-- ADHOCCTL_MESSAGE_LEN and CHAT_MESSAGE_MAX_MESSAGES
abbrev pub max_message_size : ℕ
max_message_size = 64

abbrev pub max_messages : ℕ
max_messages = 10

-- A string is a list of characters' codes.
abbrev pub Text : Type 0
Text = List ℕ

-- `tChatMessage`, without the alpha value that drawing gives it.
pub record ChatMessage (F : Type 0) : Type 0 where
  pub nick_name : Text
  pub chat_message : Text
  pub timestamp : F

-- `ConCommandBase`: `on_call` is a function's number, or none for nil.
pub record Command : Type 0 where
  pub is_registered : Bool
  pub name : Text
  pub on_call : Option ℕ

-- `cGameChat`.
pub record Chat (F : Type 0) : Type 0 where
  pub is_open : Bool
  pub my_text : Text
  pub history : List (ChatMessage F)
  pub commands : List Command

-- What a command's function does to the chat.
pub data Reaction : Type 0 where
  says : Text → Text → Reaction
  closes : Reaction

-- The keys that `OnUpdate` asks for.
pub record Keys : Type 0 where
  pub toggle : Bool
  pub enter : Bool
  pub escape : Bool
  pub backspace : Bool

-- The characters of "Unknown command: ".
abbrev pub unknown_command : Text
unknown_command =
    85 ∷ 110 ∷ 107 ∷ 110 ∷ 111 ∷ 119 ∷ 110 ∷ 32 ∷ 99 ∷ 111 ∷ 109 ∷ 109 ∷ 97 ∷ 110 ∷ 100 ∷ 58 ∷ 32
    ∷ []

-- What stands before the first space, and behind it.
unfoldable pub before_space : Text → Text
before_space [] = []
before_space (c ∷ cs) = if c == 32 then [] else c ∷ before_space cs

unfoldable pub after_space : Text → Text
after_space [] = []
after_space (c ∷ cs) = if c == 32 then cs else after_space cs

-- The switch for the keys that shift changes.
unfoldable pub shifted : ℕ → ℕ
shifted ch =
    if ch == 49
    then 33
    else if ch == 50
    then 64
    else if ch == 51
    then 35
    else if ch == 52
    then 36
    else if ch == 53
    then 37
    else if ch == 54
    then 94
    else if ch == 55
    then 38
    else if ch == 56
    then 42
    else if ch == 57
    then 40
    else if ch == 48
    then 41
    else if ch == 45
    then 95
    else ch

-- `pop_back`.
unfoldable pub pop_back : Text → Text
pop_back [] = []
pop_back (c ∷ []) = []
pop_back (c ∷ (d ∷ cs)) = c ∷ pop_back (d ∷ cs)

-- `OnPressedChar` adds to the line: `ctrl` and `shift` are the keys that are held, `clip` the clipboard.
unfoldable pub typed : (ℕ → ℕ) → Bool → Bool → ℕ → Option Text → Text → Text
typed tolower ctrl shift ch clip line =
    let plain = line ++ (if shift then shifted ch else tolower ch) ∷ [] in
    if ctrl && (ch == 86)
    then elim clip [
      | none ↦ plain
      | some t ↦
          if ltb 0 (length t) && not (ltb max_message_size (length line + length t))
          then line ++ t
          else plain
    ]
    else plain

-- The first command of a name in lower case.
unfoldable pub find_command : (ℕ → ℕ) → Text → List Command → Option Command
find_command tolower name [] = none
find_command tolower name (k ∷ ks) =
    if equal_lists (map tolower k.name) name then some k else find_command tolower name ks

module _ {F : Type 0} (expired : F → F → Bool) (tolower : ℕ → ℕ)
    (run : F → ℕ → Text → List Reaction) where
  unfoldable pub open_chat : Bool → Chat F → Chat F
  open_chat can c = if can then record c { is_open = true; my_text = [] } else c

  unfoldable pub close_chat : Chat F → Chat F
  close_chat c = record c { is_open = false }

  -- `OnMessageRecv`, without the pager; `can` is `CanUse`.
  unfoldable pub on_message_recv : Bool → F → Text → Text → Chat F → Chat F
  on_message_recv can now nick message c =
      let history =
        c.history ++ record { nick_name = nick; chat_message = message; timestamp = now } ∷ [] in
      if can
      then record c {
        history = if ltb max_messages (length history) then drop 1 history else history;
      }
      else c

  -- What a function does, one thing after the other.
  unfoldable pub react_all : Bool → F → List Reaction → Chat F → Chat F
  unfolding on_message_recv close_chat
  react_all can now [] c = c
  react_all can now (says nick message ∷ rs) c =
      react_all can now rs (on_message_recv can now nick message c)
  react_all can now (closes ∷ rs) c = react_all can now rs (close_chat c)

  -- `MessageSend`: the chat, and what goes to `sendChat`. `!` and `/` start a command.
  unfoldable pub message_send : Bool → F → Text → Text → Chat F → Chat F × List Text
  unfolding find_command before_space after_space react_all
  message_send can now nick [] c = (c, [])
  message_send can now nick (d ∷ rest) c =
      let name = map tolower (before_space rest) in
      if (d == 33) || (d == 47)
      then (
        elim (find_command tolower name c.commands) [
          | none ↦ on_message_recv can now nick (unknown_command ++ name) c
          | some k ↦ elim k.on_call [
            | none ↦ c
            | some f ↦ react_all can now (run now f (after_space rest)) c
          ]
        ],
        [],
      )
      else (c, (d ∷ rest) ∷ [])

  -- `OnPressedChar`.
  unfoldable pub on_pressed_char : Bool → Bool → Bool → ℕ → Option Text → Chat F → Chat F
  unfolding typed
  on_pressed_char can ctrl shift ch clip c =
      if not can
        || not c.is_open
        || (ctrl && (ch == 89))
        || not (ltb (length c.my_text) max_message_size)
      then c
      else record c { my_text = typed tolower ctrl shift ch clip c.my_text }

  -- The old messages leave.
  unfoldable pub clean : F → List (ChatMessage F) → List (ChatMessage F)
  clean now [] = []
  clean now (m ∷ ms) = if expired now m.timestamp then clean now ms else m ∷ clean now ms

  -- The keys of an open chat.
  unfoldable pub use_keys : F → Text → Keys → Chat F → Chat F × List Text
  unfolding message_send close_chat pop_back
  use_keys now nick keys c =
      let (sent_chat, sent) =
        if keys.enter then message_send true now nick c.my_text c else (c, []) in
      let entered = if keys.enter then record sent_chat { my_text = [] } else sent_chat in
      let left = if keys.escape then close_chat entered else entered in
      (if keys.backspace then record left { my_text = pop_back left.my_text } else left, sent)

  -- `OnUpdate`.
  unfoldable pub on_update : Bool → F → Text → Keys → Chat F → Chat F × List Text
  unfolding clean open_chat close_chat use_keys
  on_update can now nick keys c =
      let cleaned = record c { history = clean now c.history } in
      let toggled =
        if keys.toggle
        then if cleaned.is_open then close_chat cleaned else open_chat can cleaned
        else cleaned in
      if can
      then if toggled.is_open then use_keys now nick keys toggled else (toggled, [])
      else (c, [])

  -- `RegisterConCommandBase`: a name that is there already, in any case, is not registered again.
  unfoldable pub register_command : Command → Chat F → Chat F
  unfolding find_command
  register_command k c = elim (find_command tolower (map tolower k.name) c.commands) [
    | none ↦ record c { commands = c.commands ++ record k { is_registered = true } ∷ [] }
    | some _ ↦ c
  ]
