-- ===== src/Shell/Session.antt =====
-- The loop of the shell (kernel/main.c) over any sequence of lines.
use glass_os.Prelude.{
  ℕ, ◌≡◌, ◌≢◌, refl, sym, ap, ◌∙◌, Bool, true, false, not, List, [], ◌∷◌, map, text,
}
use glass_os.Text.{Text}
use glass_os.Kernel.{Kernel, M, ConfigEntry, PolicyTable}
use glass_os.Console.Output.{HasPolicy}
use glass_os.Policy.Change.{IsTable}
use glass_os.Policy.Parse.{changed_table-IsTable}
use glass_os.Policy.Decide.{verdict}
use glass_os.Config.{config_get}
use glass_os.Config.Access.{keys-write_entry, get-write_other}
use glass_os.Quiet.{Quiet-refl}
use glass_os.Quiet.Bounded.{IsBounded}
use glass_os.Shell.{split_command}
use glass_os.Shell.Commands.{shell}
use glass_os.Shell.Round.{Command, command_of, shell_rounds}
use glass_os.Shell.Effect.{Effect, nothing, set_key, add_rule, is_demo}
use glass_os.Shell.Rounds.{shell_round-Effect}

-- What no command but `userdemo` breaks.
pub record Kept (k k' : Kernel) : Type 0 where
  pub table : IsTable k'.policy
  pub bounded : IsBounded k'
  pub keys : map (λ e. e.key) k'.config ≡ map (λ e. e.key) k.config
  pub memory : k'.memory ≡ k.memory
  pub paging : k'.paging ≡ k.paging
  pub users : k'.users ≡ k.users
  pub keyboard : k'.keyboard ≡ k.keyboard

Kept-trans : {k k' k'' : Kernel} → Kept k k' → Kept k' k'' → Kept k k''
Kept-trans a b = record {
  table = b.table;
  bounded = b.bounded;
  keys = b.keys ∙ a.keys;
  memory = b.memory ∙ a.memory;
  paging = b.paging ∙ a.paging;
  users = b.users ∙ a.users;
  keyboard = b.keyboard ∙ a.keyboard;
}

-- The bounds do not look at the configuration nor at the policy.
alike :
    {k : Kernel} (es : List ConfigEntry) (t : PolicyTable)
    → IsBounded k
    → IsBounded (record k { config = es; policy = t })
alike es t b = record { ring = b.ring; slots = b.slots; registry = b.registry; cursor = b.cursor }

Effect-Kept :
    {c : Command} {k k' : Kernel} → IsTable k.policy → IsBounded k → Effect c k k' → Kept k k'
Effect-Kept t b (nothing q) = record {
  table = rw q.policy t;
  bounded = q.evolves.bounded b;
  keys = ap (map (λ e. e.key)) q.config;
  memory = q.memory;
  paging = q.paging;
  users = q.users;
  keyboard = q.keyboard;
}
Effect-Kept t b (set_key a key v e f allowed q) = record {
  table = rw q.policy t;
  bounded = q.evolves.bounded (alike _ _ b);
  keys = ap (map (λ e. e.key)) q.config ∙ keys-write_entry key _ _;
  memory = q.memory;
  paging = q.paging;
  users = q.users;
  keyboard = q.keyboard;
}
Effect-Kept t b (add_rule a allow x y z e allowed room q) = record {
  table = rw q.policy (changed_table-IsTable allow x y z _ room t);
  bounded = q.evolves.bounded (alike _ _ b);
  keys = ap (map (λ e. e.key)) q.config;
  memory = q.memory;
  paging = q.paging;
  users = q.users;
  keyboard = q.keyboard;
}

-- What a denied right protects: the policy table, and the value of one key.
pub record Locked (key : Text) (k k' : Kernel) : Type 0 where
  pub policy : k'.policy ≡ k.policy
  pub value : config_get key k'.config ≡ config_get key k.config

true-false : true ≡ false → ⊥
true-false h = cc

Effect-Locked :
    {c : Command} {k k' : Kernel} (key : Text)
    → verdict shell (text "policy/base.policy") (text "policy:change") k.policy ≡ false
    → verdict shell key (text "config:set") k.policy ≡ false
    → Effect c k k'
    → Locked key k k'
Effect-Locked key no_change no_set (nothing q) = record {
  policy = q.policy;
  value = ap (config_get key) q.config;
}
Effect-Locked {k = k} key no_change no_set (set_key a other v e f allowed q) = record {
  policy = q.policy;
  value = ap (config_get key) q.config ∙ get-write_other other _ key k.config differs;
}
  where
    differs : key ≢ other
    differs same =
        true-false
          (sym allowed ∙ ap (λ t. verdict shell t (text "config:set") k.policy) (sym same) ∙ no_set)
Effect-Locked key no_change no_set (add_rule a allow x y z e allowed room q) =
    absurd (true-false (sym allowed ∙ no_change))

abbrev pub is_plain : Text → Bool
is_plain line =
    let (word, argument) = split_command line in not (is_demo (command_of word argument))

-- None of the lines is a `userdemo`.
abbrev pub IsPlain : List Text → Type 0
IsPlain [] = Unit {0}
IsPlain (line ∷ lines) = (is_plain line ≡ true) × IsPlain lines

not-true : (b : Bool) → not b ≡ true → b ≡ false
not-true true h = sym h
not-true false h = refl

module _ (source : Text) (enter : ℕ → ℕ → M (Unit {0})) (boot_event : ℕ) where
  -- The loop of the shell over any sequence of lines without a `userdemo`, from a valid table of rules
  -- and with all tables within their bounds: after it the table of rules is valid, with at most 64
  -- rules numbered in order, journal, transactions, registry and cursor are within their bounds, the
  -- configuration has the same keys, and allocator, heap, page tables, processes and keyboard are what
  -- they were.
  pub shell_rounds-Kept :
      (lines : List Text) (k : Kernel)
      → IsPlain lines
      → IsTable k.policy
      → IsBounded k
      → Kept k (shell_rounds source enter lines boot_event k).1
  unfolding shell_rounds
  shell_rounds-Kept [] k plain t b = Effect-Kept {c = Command.help} t b (nothing Quiet-refl)
  shell_rounds-Kept (line ∷ lines) k (plain, rest) t b =
      let first =
        Effect-Kept t b
          (shell_round-Effect source enter line boot_event k t.ready (not-true _ plain)) in
      Kept-trans first (shell_rounds-Kept lines _ rest first.table first.bounded)

  -- The loop of the shell over any sequence of lines without a `userdemo`, with a policy loaded that
  -- denies the shell `policy:change` and denies it `config:set` on a key: no such sequence changes
  -- the policy table or the value of that key.
  pub shell_rounds-Locked :
      (lines : List Text) (key : Text) (k : Kernel)
      → IsPlain lines
      → HasPolicy k
      → verdict shell (text "policy/base.policy") (text "policy:change") k.policy ≡ false
      → verdict shell key (text "config:set") k.policy ≡ false
      → Locked key k (shell_rounds source enter lines boot_event k).1
  unfolding shell_rounds
  shell_rounds-Locked [] key k plain ready no_change no_set = record { policy = refl; value = refl }
  shell_rounds-Locked (line ∷ lines) key k (plain, rest) ready no_change no_set =
      let first =
        Effect-Locked key no_change no_set
          (shell_round-Effect source enter line boot_event k ready (not-true _ plain)) in
      let after =
        shell_rounds-Locked lines key _ rest (rw first.policy ready) (rw first.policy no_change)
          (rw first.policy no_set) in
      record { policy = after.policy ∙ first.policy; value = after.value ∙ first.value }
