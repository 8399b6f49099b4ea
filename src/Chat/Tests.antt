-- ===== src/Chat/Tests.antt =====
-- The chat at concrete events, and runs of it. The clock counts milliseconds.
use gta_psp_multiplayer.Prelude.{
  ℕ, ◌+◌, ◌-◌, ◌≡◌, refl, Bool, true, false, ◌&&◌, not, none, some, List, [], ◌∷◌, ltb,
  if◌then◌else◌,
}
use gta_psp_multiplayer.Chat.{
  Text, Reaction, says, open_chat, on_message_recv, on_pressed_char, typed, shifted, on_update,
  use_keys, message_send, register_command, find_command, react_all, before_space, after_space,
  clean,
}
use gta_psp_multiplayer.Chat.Use.{
  IsChat, new_chat, Event, opens, presses, updates, registers, apply_all, apply_all-IsChat,
}
use gta_psp_multiplayer.NetSession.Groups.{equal_lists}

abbrev expired : ℕ → ℕ → Bool
expired now stamp = ltb 6000 (now - stamp)

abbrev tolower : ℕ → ℕ
tolower ch = if not (ltb ch 65) && ltb ch 91 then ch + 32 else ch

-- Every function says its argument.
abbrev run : ℕ → ℕ → Text → List Reaction
run now f arg = says [] arg ∷ []

-- The command "q" is registered, and "/Q 7" is typed and sent.
abbrev session : List (Event expired tolower run)
session =
    registers (record { is_registered = false; name = 113 ∷ []; on_call = some 3 })
    ∷ opens true
    ∷ presses true false false 47 none
    ∷ presses true false true 81 none
    ∷ presses true false false 32 none
    ∷ presses true false false 55 none
    ∷ updates true 100 []
        (record { toggle = false; enter = true; escape = true; backspace = false })
    ∷ []

apply_all-IsChat_example :
    IsChat expired tolower run
      (apply_all expired tolower run session (new_chat expired tolower run))
apply_all-IsChat_example = apply_all-IsChat expired tolower run session

session_test :
    (apply_all expired tolower run session (new_chat expired tolower run)).history
    ≡ record { nick_name = []; chat_message = 55 ∷ []; timestamp = 100 } ∷ []
unfolding register_command find_command open_chat on_pressed_char typed shifted on_update clean
    use_keys message_send before_space after_space react_all on_message_recv equal_lists
session_test = refl
