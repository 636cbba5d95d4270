-- ===== src/Shell/Words.antt =====
-- The words that the loop of kernel/main.c tests the first word of a line against, as a table.
use glass_os.Prelude.{
  ◌≡◌, refl, ◌⊎◌, inl, inr, false, Option, none, some, Bool-cases, List, [], ◌∷◌, text,
  if◌then◌else◌,
}
use glass_os.Text.{Text, text_equal}
use glass_os.Text.Equal.{text_equal-eq}
use glass_os.Shell.Round.{Command, command_of}

-- A command that is none without an argument.
abbrev pub with_argument : (Text → Command) → Option Text → Command
with_argument make none = Command.unknown
with_argument make (some a) = make a

abbrev pub Row : Type 0
Row = Text × (Option Text → Command)

abbrev pub spellings : List Row
spellings =
    (text "help", λ a. Command.help)
    ∷ (text "clear", λ a. Command.clear)
    ∷ (text "window", λ a. Command.window)
    ∷ (text "meminfo", λ a. Command.meminfo)
    ∷ (text "time", λ a. Command.time)
    ∷ (text "ls", λ a. Command.ls)
    ∷ (text "events", λ a. Command.events)
    ∷ (text "userdemo", λ a. Command.userdemo)
    ∷ (text "policy", λ a. Command.policy a)
    ∷ (text "cat", with_argument (λ a. Command.cat a))
    ∷ (text "run", with_argument (λ a. Command.run a))
    ∷ (text "get", with_argument (λ a. Command.get a))
    ∷ (text "set", with_argument (λ a. Command.set a))
    ∷ (text "inspect", with_argument (λ a. Command.inspect a))
    ∷ (text "expand", with_argument (λ a. Command.expand a))
    ∷ (text "why", with_argument (λ a. Command.why a))
    ∷ (text "history", with_argument (λ a. Command.history a))
    ∷ []

-- The command of the row with that word, and none where there is no such row.
abbrev pub spelled : List Row → Text → Option Text → Command
spelled [] word argument = Command.unknown
spelled (row ∷ rows) word argument =
    if text_equal word row.0 then row.1 argument else spelled rows word argument

-- command_of reads the word of each row as the row says.
abbrev Agree : Option Text → List Row → Type 0
Agree argument [] = Unit {0}
Agree argument (row ∷ rows) =
    (command_of row.0 argument ≡ spelled spellings row.0 argument) × Agree argument rows

abbrev NoRow : Text → List Row → Type 0
NoRow word [] = Unit {0}
NoRow word (row ∷ rows) = (text_equal word row.0 ≡ false) × NoRow word rows

spellings-Agree : (argument : Option Text) → Agree argument spellings
unfolding command_of text_equal text
spellings-Agree none = search
spellings-Agree (some a) = search

find_row :
    (word : Text) (argument : Option Text) (rows : List Row)
    → Agree argument rows
    → (command_of word argument ≡ spelled spellings word argument) ⊎ NoRow word rows
find_row word argument [] agree = inr tt
find_row word argument (row ∷ rows) agree = elim (Bool-cases (text_equal word row.0)) [
  | inl e ↦ inl (rw (text_equal-eq word row.0 e) agree.0)
  | inr e ↦ elim (find_row word argument rows agree.1) [ inl h ↦ inl h | inr h ↦ inr (e, h) ]
]

no_row :
    (word : Text) (argument : Option Text)
    → NoRow word spellings
    → command_of word argument ≡ spelled spellings word argument
unfolding command_of
no_row word argument
      (
        e0,
        (
          e1,
          (
            e2,
            (
              e3,
              (
                e4,
                (e5, (e6, (e7, (e8, (e9, (e10, (e11, (e12, (e13, (e14, (e15, (e16, u)))))))))))),
              ),
            ),
          ),
        ),
      ) =
    rw (e0, e1, e2, e3, e4, e5, e6, e7, e8, e9, e10, e11, e12, e13, e14, e15, e16) refl

-- The chain of tests of the loop reads a line by this table.
pub command_of-spelled :
    (word : Text) (argument : Option Text)
    → command_of word argument ≡ spelled spellings word argument
command_of-spelled word argument =
    elim (find_row word argument spellings (spellings-Agree argument)) [
      | inl h ↦ h
      | inr h ↦ no_row word argument h
    ]
