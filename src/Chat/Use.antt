-- ===== src/Chat/Use.antt =====
-- The chat from its initialisation on, whatever happens to it.
use gta_psp_multiplayer.Prelude.{
  ℕ, ◌≤◌, ◌≡◌, refl, Bool, true, false, not, ◌&&◌, ◌||◌, Option, none, some, List, [], ◌∷◌, ◌++◌,
  map, length, length-append, length-drop, ltb, ◌==◌, if◌then◌else◌, arith, Bool-cases, if_case,
  inl, inr,
}
use gta_psp_multiplayer.Chat.{
  max_message_size, max_messages, Text, ChatMessage, Command, Chat, Reaction, says, closes, Keys,
  unknown_command, before_space, after_space, pop_back, find_command, open_chat, close_chat,
  on_message_recv, react_all, message_send, on_pressed_char, clean, use_keys, on_update,
  register_command,
}
use gta_psp_multiplayer.Chat.Bounds.{length-typed, length-pop_back, AllDistinct, AllDistinct-append}

module _ {F : Type 0} (expired : F → F → Bool) (tolower : ℕ → ℕ)
    (run : F → ℕ → Text → List Reaction) where
  -- At most ten messages, a line of at most 64 characters, and no two commands of one name.
  pub record IsChat (c : Chat F) : Type 0 where
    pub few : length c.history ≤ max_messages
    pub short : length c.my_text ≤ max_message_size
    pub distinct : AllDistinct tolower c.commands

  -- The chat before anything is registered.
  abbrev pub new_chat : Chat F
  new_chat = record { is_open = false; my_text = []; history = []; commands = [] }

  open_chat-IsChat :
      (can : Bool) (c : Chat F) → IsChat c → IsChat (open_chat expired tolower run can c)
  unfolding open_chat
  open_chat-IsChat true c v = record { few = v.few; short = omega arith; distinct = v.distinct }
  open_chat-IsChat false c v = v

  close_chat-IsChat : (c : Chat F) → IsChat c → IsChat (close_chat expired tolower run c)
  unfolding close_chat
  close_chat-IsChat c v = record { few = v.few; short = v.short; distinct = v.distinct }

  on_message_recv-IsChat :
      (can : Bool) (now : F) (nick message : Text) (c : Chat F)
      → IsChat c
      → IsChat (on_message_recv expired tolower run can now nick message c)
  unfolding on_message_recv
  on_message_recv-IsChat false now nick message c v = v
  on_message_recv-IsChat true now nick message c v =
      let h =
        c.history ++ record { nick_name = nick; chat_message = message; timestamp = now } ∷ [] in
      record {
        few = ground (
          arith,
          v.few,
          length-append c.history
              (record { nick_name = nick; chat_message = message; timestamp = now } ∷ []),
          length-drop 1 h,
        );
        short = v.short;
        distinct = v.distinct;
      }

  react_all-IsChat :
      (can : Bool) (now : F) (rs : List Reaction) (c : Chat F)
      → IsChat c
      → IsChat (react_all expired tolower run can now rs c)
  unfolding react_all
  react_all-IsChat can now [] c v = v
  react_all-IsChat can now (says nick message ∷ rs) c v =
      react_all-IsChat can now rs _ (on_message_recv-IsChat can now nick message c v)
  react_all-IsChat can now (closes ∷ rs) c v = react_all-IsChat can now rs _ (close_chat-IsChat c v)

  message_send-IsChat :
      (can : Bool) (now : F) (nick message : Text) (c : Chat F)
      → IsChat c
      → IsChat (message_send expired tolower run can now nick message c).0
  unfolding message_send
  message_send-IsChat can now nick [] c v = v
  message_send-IsChat can now nick (d ∷ rest) c v =
      if_case (λ (t : Chat F × List Text). IsChat t.0) ((d == 33) || (d == 47))
        (found (find_command tolower (map tolower (before_space rest)) c.commands)) v
    where
      called :
          (on_call : Option ℕ)
          → IsChat (elim on_call [
            | none ↦ c
            | some f ↦ react_all expired tolower run can now (run now f (after_space rest)) c
          ])
      called none = v
      called (some f) = react_all-IsChat can now (run now f (after_space rest)) c v

      found :
          (k : Option Command)
          → IsChat (elim k [
            | none ↦
                on_message_recv expired tolower run can now nick
                  (unknown_command ++ map tolower (before_space rest))
                  c
            | some k ↦ elim k.on_call [
              | none ↦ c
              | some f ↦ react_all expired tolower run can now (run now f (after_space rest)) c
            ]
          ])
      found none =
          on_message_recv-IsChat can now nick (unknown_command ++ map tolower (before_space rest)) c
            v
      found (some k) = called k.on_call

  on_pressed_char-IsChat :
      (can ctrl shift : Bool) (ch : ℕ) (clip : Option Text) (c : Chat F)
      → IsChat c
      → IsChat (on_pressed_char expired tolower run can ctrl shift ch clip c)
  unfolding on_pressed_char
  on_pressed_char-IsChat can ctrl shift ch clip c v =
      elim (Bool-cases (
        not can
        || not c.is_open
        || (ctrl && (ch == 89))
        || not (ltb (length c.my_text) max_message_size))) [
          | inl stop ↦ rw stop v
          | inr on ↦ rw on (record {
            few = v.few;
            short = length-typed tolower ctrl shift ch clip c.my_text (ground (arith, on));
            distinct = v.distinct;
          })
        ]

  length-clean :
      (now : F) (ms : List (ChatMessage F)) → length (clean expired tolower run now ms) ≤ length ms
  unfolding clean
  length-clean now [] = omega arith
  length-clean now (m ∷ ms) = ground (arith, length-clean now ms)

  with_text :
      (c : Chat F) (t : Text)
      → IsChat c
      → length t ≤ max_message_size
      → IsChat (record c { my_text = t })
  with_text c t v h = record { few = v.few; short = h; distinct = v.distinct }

  use_keys-IsChat :
      (now : F) (nick : Text) (keys : Keys) (c : Chat F)
      → IsChat c
      → IsChat (use_keys expired tolower run now nick keys c).0
  unfolding use_keys
  use_keys-IsChat now nick keys c v =
      let s =
        if keys.enter
        then message_send expired tolower run true now nick c.my_text c
        else (c, []) in
      let sv : IsChat s.0 =
        if_case (λ (t : Chat F × List Text). IsChat t.0) keys.enter
          (message_send-IsChat true now nick c.my_text c v) v in
      let entered = if keys.enter then record s.0 { my_text = [] } else s.0 in
      let ev : IsChat entered = if_case IsChat keys.enter (with_text s.0 [] sv (omega arith)) sv in
      let left = if keys.escape then close_chat expired tolower run entered else entered in
      let lv : IsChat left = if_case IsChat keys.escape (close_chat-IsChat entered ev) ev in
      if_case IsChat keys.backspace
        (with_text left (pop_back left.my_text) lv
          (omega (arith, lv.short, length-pop_back left.my_text)))
        lv

  register_command-IsChat :
      (k : Command) (c : Chat F) → IsChat c → IsChat (register_command expired tolower run k c)
  unfolding register_command
  register_command-IsChat k c v = after (find_command tolower (map tolower k.name) c.commands) refl
    where
      after :
          (m : Option Command)
          → find_command tolower (map tolower k.name) c.commands ≡ m
          → IsChat (elim m [
            | none ↦ record c { commands = c.commands ++ record k { is_registered = true } ∷ [] }
            | some _ ↦ c
          ])
      after none h = record {
        few = v.few;
        short = v.short;
        distinct =
            AllDistinct-append tolower c.commands (record k { is_registered = true }) v.distinct h;
      }
      after (some _) h = v

  on_update-IsChat :
      (can : Bool) (now : F) (nick : Text) (keys : Keys) (c : Chat F)
      → IsChat c
      → IsChat (on_update expired tolower run can now nick keys c).0
  unfolding on_update
  on_update-IsChat can now nick keys c v =
      let cleaned = record c { history = clean expired tolower run now c.history } in
      let cv : IsChat cleaned = record {
        few = omega (arith, v.few, length-clean now c.history);
        short = v.short;
        distinct = v.distinct;
      } in
      let toggled =
        if keys.toggle
        then if c.is_open
          then close_chat expired tolower run cleaned
          else open_chat expired tolower run can cleaned
        else cleaned in
      let tv : IsChat toggled =
        if_case IsChat keys.toggle
          (if_case IsChat c.is_open (close_chat-IsChat cleaned cv)
            (open_chat-IsChat can cleaned cv))
          cv in
      let P : Chat F × List Text → Type 0 = λ t. IsChat t.0 in
      if_case P can (if_case P toggled.is_open (use_keys-IsChat now nick keys toggled tv) tv) v

  -- What can happen to the chat. `CanUse`, the clock and the keys are given each time.
  pub data Event : Type 0 where
    opens : Bool → Event
    closes_chat : Event
    receives : Bool → F → Text → Text → Event
    presses : Bool → Bool → Bool → ℕ → Option Text → Event
    updates : Bool → F → Text → Keys → Event
    registers : Command → Event

  abbrev pub apply_event : Event → Chat F → Chat F
  apply_event (opens can) c = open_chat expired tolower run can c
  apply_event closes_chat c = close_chat expired tolower run c
  apply_event (receives can now nick message) c =
      on_message_recv expired tolower run can now nick message c
  apply_event (presses can ctrl shift ch clip) c =
      on_pressed_char expired tolower run can ctrl shift ch clip c
  apply_event (updates can now nick keys) c = (on_update expired tolower run can now nick keys c).0
  apply_event (registers k) c = register_command expired tolower run k c

  abbrev pub apply_all : List Event → Chat F → Chat F
  apply_all [] c = c
  apply_all (e ∷ es) c = apply_all es (apply_event e c)

  apply_event-IsChat : (e : Event) (c : Chat F) → IsChat c → IsChat (apply_event e c)
  apply_event-IsChat (opens can) c v = open_chat-IsChat can c v
  apply_event-IsChat closes_chat c v = close_chat-IsChat c v
  apply_event-IsChat (receives can now nick message) c v =
      on_message_recv-IsChat can now nick message c v
  apply_event-IsChat (presses can ctrl shift ch clip) c v =
      on_pressed_char-IsChat can ctrl shift ch clip c v
  apply_event-IsChat (updates can now nick keys) c v = on_update-IsChat can now nick keys c v
  apply_event-IsChat (registers k) c v = register_command-IsChat k c v

  apply_all-kept : (es : List Event) (c : Chat F) → IsChat c → IsChat (apply_all es c)
  apply_all-kept [] c v = v
  apply_all-kept (e ∷ es) c v = apply_all-kept es (apply_event e c) (apply_event-IsChat e c v)

  -- Whatever happens to a new chat, and whatever the commands' functions do: it holds at most ten messages,
  -- the line at most 64 characters, and no two of its commands have one name, in any case.
  pub apply_all-IsChat : (es : List Event) → IsChat (apply_all es new_chat)
  apply_all-IsChat es =
      apply_all-kept es new_chat (record { few = omega arith; short = omega arith; distinct = tt })
