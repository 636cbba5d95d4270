-- ===== src/User/Rights.antt =====
-- The results of the system calls (kernel/user.c) against the table of rules.
use glass_os.Prelude.{
  ℕ, ◌≡◌, refl, ap, ◌∙◌, inl, inr, Bool, true, false, not, ◌&&◌, Option, none, some, Bool-cases,
  text, ◌==◌, if◌then◌else◌,
}
use glass_os.Text.{Text}
use glass_os.Kernel.{Kernel, UserProcess}
use glass_os.Policy.{PolicyDecision, policy_check}
use glass_os.Policy.Decide.{verdict, allowed-verdict, loaded-ready}
use glass_os.Config.{config_get}
use glass_os.Console.Output.{HasPolicy}
use glass_os.Quiet.{HasPolicy-Quiet, Quiet-refl}
use glass_os.User.Serve.{syscall_begin-Quiet, decided}
use glass_os.User.Syscall.{
  syscall_begin, refuse_syscall, user_syscall_inspect, user_syscall_yield, answer_config,
  user_syscall_config_get, user_syscall_config_set_denied, unknown_syscall, dispatch_syscall,
}

abbrev pub is_some {ℓ} : {A : Type ℓ} → Option A → Bool
is_some none = false
is_some (some a) = true

refused-false :
    (transaction : ℕ) (reason : Text) (k : Kernel) → (refuse_syscall transaction reason k).0 ≡ false
unfolding refuse_syscall
refused-false transaction reason k = refl

answered :
    (transaction : ℕ) (process : UserProcess) (key : Text) (policy : PolicyDecision)
    (value : Option Text) (k : Kernel)
    → (answer_config transaction process key policy value k).0 ≡ is_some value
unfolding answer_config
answered transaction process key policy none k = refl
answered transaction process key policy (some value) k = refl

if-result :
    (b : Bool) (x y : Bool × Kernel) (v : Bool)
    → x.0 ≡ false
    → y.0 ≡ v
    → (if not b then x else y).0 ≡ (b && v)
if-result true x y v p q = q
if-result false x y v p q = p

module _ (source : Text) (process : UserProcess) (k : Kernel) (ready : HasPolicy k) where
  decision :
      (target operation : Text)
      → (policy_check source process.thread_name target operation
          (syscall_begin process target k).1).0.allowed
        ≡ verdict process.thread_name target operation k.policy
  decision target operation =
      let q = syscall_begin-Quiet (Quiet-refl {k = k}) process target in
      allowed-verdict source process.thread_name target operation (syscall_begin process target k).1
      ∙ ap (verdict process.thread_name target operation)
          (loaded-ready source _ (HasPolicy-Quiet q ready) ∙ q.policy)

  inspect_result :
      (target : Text)
      → (user_syscall_inspect source process target k).0
        ≡ (verdict process.thread_name target (text "syscall:inspect") k.policy && true)
  unfolding user_syscall_inspect
  inspect_result target =
      if-result _ _ _ true (refused-false _ _ _) refl
      ∙ ap (λ b. b && true) (decision target (text "syscall:inspect"))

  yield_result :
      (user_syscall_yield source process k).0
      ≡ (verdict process.thread_name process.thread_name (text "syscall:yield") k.policy && true)
  unfolding user_syscall_yield
  yield_result =
      if-result _ _ _ true (refused-false _ _ _) refl
      ∙ ap (λ b. b && true) (decision process.thread_name (text "syscall:yield"))

  config_get_result :
      (key : Text)
      → (user_syscall_config_get source process key k).0 ≡ (
          verdict process.thread_name key (text "syscall:config_get") k.policy
          && is_some (config_get key k.config))
  unfolding user_syscall_config_get
  config_get_result key =
      let d = decided (Quiet-refl {k = k}) ready source process key (text "syscall:config_get") in
      if-result _ _ _ (is_some (config_get key k.config)) (refused-false _ _ _)
        (answered _ _ _ _ _ _ ∙ ap (λ c. is_some (config_get key c)) d.config)
      ∙ ap (λ b. b && is_some (config_get key k.config)) (decision key (text "syscall:config_get"))

  config_set_result :
      (key : Text)
      → (user_syscall_config_set_denied source process key k).0
        ≡ (verdict process.thread_name key (text "syscall:config_set") k.policy && true)
  unfolding user_syscall_config_set_denied
  config_set_result key =
      if-result _ _ _ true (refused-false _ _ _) refl
      ∙ ap (λ b. b && true) (decision key (text "syscall:config_set"))

  unknown_result : (unknown_syscall process k).0 ≡ false
  unfolding unknown_syscall
  unknown_result = refl

  -- What decides over a system call: a number that is one, the policy's rules for the thread, and for
  -- a configuration key that it exists.
  abbrev pub permitted : ℕ → Text → Bool
  permitted number target =
      if number == 1
      then verdict process.thread_name target (text "syscall:inspect") k.policy && true
      else if number == 2
      then verdict process.thread_name process.thread_name (text "syscall:yield") k.policy && true
      else if number == 3
      then verdict process.thread_name target (text "syscall:config_get") k.policy
        && is_some (config_get target k.config)
      else if number == 4
      then verdict process.thread_name target (text "syscall:config_set") k.policy && true
      else false

  -- With a policy loaded, a system call succeeds exactly where its number is one of the four, the
  -- policy table allows the thread its operation on its target (on the thread itself for call 2), and
  -- for call 3 the configuration key exists.
  pub dispatch_syscall-permitted :
      (number : ℕ) (target : Text)
      → (dispatch_syscall source process number target k).0 ≡ permitted number target
  unfolding dispatch_syscall
  dispatch_syscall-permitted number target = elim (Bool-cases (number == 1)) [
    | inl e ↦ rw e (inspect_result target)
    | inr e1 ↦ elim (Bool-cases (number == 2)) [
      | inl e ↦ rw (e1, e) yield_result
      | inr e2 ↦ elim (Bool-cases (number == 3)) [
        | inl e ↦ rw (e1, e2, e) (config_get_result target)
        | inr e3 ↦ elim (Bool-cases (number == 4)) [
          | inl e ↦ rw (e1, e2, e3, e) (config_set_result target)
          | inr e4 ↦ rw (e1, e2, e3, e4) unknown_result
        ]
      ]
    ]
  ]
