-- ===== src/Chat/Bounds.antt =====
-- What every use of the chat keeps: the bounds of the history and of the line, and that no two commands
-- have one name.
use gta_psp_multiplayer.Prelude.{
  ℕ, ◌+◌, ◌≤◌, ◌<◌, ◌≡◌, ◌≢◌, refl, sym, ◌∙◌, Bool, false, not, ◌&&◌, Option, none, some, List, [],
  ◌∷◌, ◌++◌, map, length, length-append, ltb, ◌==◌, if◌then◌else◌, arith, Bool-cases, if_case, inl,
  inr,
}
use gta_psp_multiplayer.NetSession.Groups.{equal_lists}
use gta_psp_multiplayer.Chat.{
  max_message_size, Text, Command, pop_back, typed, shifted, find_command,
}

equal_lists_comm : (xs ys : Text) → equal_lists xs ys ≡ equal_lists ys xs
unfolding equal_lists
equal_lists_comm [] [] = refl
equal_lists_comm [] (y ∷ ys) = refl
equal_lists_comm (x ∷ xs) [] = refl
equal_lists_comm (x ∷ xs) (y ∷ ys) = ground (arith, equal_lists_comm xs ys)

pub length-typed :
    (tolower : ℕ → ℕ) (ctrl shift : Bool) (ch : ℕ) (clip : Option Text) (line : Text)
    → length line < max_message_size
    → length (typed tolower ctrl shift ch clip line) ≤ max_message_size
unfolding typed
length-typed tolower ctrl shift ch clip line h =
    let P : Text → Type 0 = λ t. length t ≤ max_message_size in
    let one : P (line ++ (if shift then shifted ch else tolower ch) ∷ []) =
      omega (arith, length-append line ((if shift then shifted ch else tolower ch) ∷ [])) in
    if_case P (ctrl && (ch == 86)) (pasted clip one) one
  where
    pasted :
        (clip : Option Text)
        → length (line ++ (if shift then shifted ch else tolower ch) ∷ []) ≤ max_message_size
        → length (elim clip [
          | none ↦ line ++ (if shift then shifted ch else tolower ch) ∷ []
          | some t ↦
              if ltb 0 (length t) && not (ltb max_message_size (length line + length t))
              then line ++ t
              else line ++ (if shift then shifted ch else tolower ch) ∷ []
        ])
          ≤ max_message_size
    pasted none one = one
    pasted (some t) one =
        elim (Bool-cases
          (ltb 0 (length t) && not (ltb max_message_size (length line + length t)))) [
            | inl fits ↦ rw fits (ground (arith, length-append line t, fits))
            | inr more ↦ rw more one
          ]

pub length-pop_back : (t : Text) → length (pop_back t) ≤ length t
unfolding pop_back
length-pop_back [] = omega arith
length-pop_back (c ∷ []) = omega arith
length-pop_back (c ∷ (d ∷ cs)) = omega (arith, length-pop_back (d ∷ cs))

-- No command has the name of one before it, in any case.
abbrev pub AllDistinct : (ℕ → ℕ) → List Command → Type 0
AllDistinct tolower [] = Unit {0}
AllDistinct tolower (k ∷ ks) =
    (find_command tolower (map tolower k.name) ks ≡ none) × AllDistinct tolower ks

find_command-append :
    (tolower : ℕ → ℕ) (name : Text) (ks : List Command) (k : Command)
    → find_command tolower name ks ≡ none
    → equal_lists (map tolower k.name) name ≡ false
    → find_command tolower name (ks ++ k ∷ []) ≡ none
unfolding find_command
find_command-append tolower name [] k h e = rw e refl
find_command-append tolower name (x ∷ ks) k h e =
    elim (Bool-cases (equal_lists (map tolower x.name) name)) [
      | inl same ↦ absurd (none≢some (sym h ∙ rw same refl))
      | inr apart ↦ rw apart (find_command-append tolower name ks k (sym (rw apart refl) ∙ h) e)
    ]
  where
    none≢some : none ≢ some x
    none≢some q = cc

pub AllDistinct-append :
    (tolower : ℕ → ℕ) (ks : List Command) (k : Command)
    → AllDistinct tolower ks
    → find_command tolower (map tolower k.name) ks ≡ none
    → AllDistinct tolower (ks ++ k ∷ [])
unfolding find_command
AllDistinct-append tolower [] k d h = (refl, tt)
AllDistinct-append tolower (x ∷ ks) k d h =
    elim (Bool-cases (equal_lists (map tolower x.name) (map tolower k.name))) [
      | inl same ↦ absurd (none≢some (sym h ∙ rw same refl))
      | inr apart ↦ (
        find_command-append tolower (map tolower x.name) ks k d.0
            (equal_lists_comm (map tolower k.name) (map tolower x.name) ∙ apart),
        AllDistinct-append tolower ks k d.1 (sym (rw apart refl) ∙ h),
      )
    ]
  where
    none≢some : none ≢ some x
    none≢some q = cc
