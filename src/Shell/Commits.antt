-- ===== src/Shell/Commits.antt =====
-- What decides over the transaction of a command of the shell (kernel/main.c).
use glass_os.Prelude.{
  ◌≡◌, refl, sym, ap, ◌∙◌, inl, inr, Bool, true, false, ◌&&◌, Option, none, some, Option-cases,
  List, [], ◌∷◌, Bool-cases, length, ltb, text, if◌then◌else◌,
}
use glass_os.Text.{Text, text_equal, starts_with}
use glass_os.Kernel.{Kernel, ConfigEntry}
use glass_os.Policy.Decide.{verdict}
use glass_os.Config.{config_get, find_entry}
use glass_os.Shell.{split_command}
use glass_os.Shell.Commands.{shell}
use glass_os.Shell.Round.{Command}

abbrev pub is_some {ℓ} : {A : Type ℓ} → Option A → Bool
is_some none = false
is_some (some a) = true

-- An entry of the list has that key.
abbrev pub has_key : Text → List ConfigEntry → Bool
has_key key [] = false
has_key key (e ∷ es) = if text_equal e.key key then true else has_key key es

find_entry-has_key :
    (key : Text) (es : List ConfigEntry) → is_some (find_entry key es) ≡ has_key key es
unfolding find_entry
find_entry-has_key key [] = refl
find_entry-has_key key (e ∷ es) = elim (Bool-cases (text_equal e.key key)) [
  | inl h ↦ rw h refl
  | inr h ↦ rw h (find_entry-has_key key es)
]

pub config_get-has_key :
    (key : Text) (es : List ConfigEntry) → is_some (config_get key es) ≡ has_key key es
unfolding config_get
config_get-has_key key es = elim (Option-cases (find_entry key es)) [
  | inl e ↦ rw (config_get, e) (ap (λ o. is_some o) (sym e) ∙ find_entry-has_key key es)
  | inr (x, e) ↦ rw (config_get, e) (ap (λ o. is_some o) (sym e) ∙ find_entry-has_key key es)
]

-- What is behind the first word of a text, if there is a text.
abbrev pub behind : Option Text → Option Text
behind none = none
behind (some s) = (split_command s).1

-- What decides over `set`: a value, the right, and that the key exists.
abbrev pub may_set : Text → Option Text → Kernel → Bool
may_set key value k =
    is_some value && verdict shell key (text "config:set") k.policy && has_key key k.config

-- What decides over `policy`: for `show` the right to it; for `allow` and `deny` three words, the right
-- to change the policy, and fewer than 64 rules.
abbrev pub may_do_policy : Text → Option Text → Kernel → Bool
may_do_policy word rest k =
    if text_equal word (text "show")
    then verdict shell (text "policy/base.policy") (text "policy:show") k.policy
    else if text_equal word (text "allow")
    then is_some (behind (behind rest))
      && verdict shell (text "policy/base.policy") (text "policy:change") k.policy
      && ltb (length k.policy.rules) 64
    else if text_equal word (text "deny")
    then is_some (behind (behind rest))
      && verdict shell (text "policy/base.policy") (text "policy:change") k.policy
      && ltb (length k.policy.rules) 64
    else false

-- Whether the transaction of a command is committed. `meminfo`, `ls`, `cat` and `run` are committed
-- even where the policy refuses them.
abbrev pub commits : Command → Text → Kernel → Bool
commits Command.help target k = true
commits Command.clear target k = verdict shell (text "window") (text "ui:clear") k.policy
commits Command.window target k = verdict shell (text "window") (text "ui:redraw") k.policy
commits Command.meminfo target k = true
commits Command.time target k = true
commits Command.ls target k = true
commits (Command.cat a) target k = true
commits (Command.run a) target k = true
commits (Command.get a) target k =
    verdict shell a (text "config:get") k.policy && has_key a k.config
commits (Command.set a) target k = may_set (split_command a).0 (split_command a).1 k
commits (Command.policy none) target k = false
commits (Command.policy (some a)) target k = may_do_policy (split_command a).0 (split_command a).1 k
commits Command.userdemo target k = false
commits Command.events target k = true
commits (Command.inspect a) target k = verdict shell a (text "inspect") k.policy
commits (Command.expand a) target k = verdict shell a (text "expand") k.policy
commits (Command.why a) target k =
    verdict shell (if starts_with a (text "tx ") then target else a) (text "why") k.policy
commits (Command.history a) target k = verdict shell a (text "history") k.policy
commits Command.unknown target k = false
