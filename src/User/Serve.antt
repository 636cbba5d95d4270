-- ===== src/User/Serve.antt =====
-- The system calls of kernel/user.c, as steps of Quiet.antt.
use glass_os.Prelude.{
  ℕ, ◌≡◌, refl, ap, ◌⊎◌, inl, inr, Bool, Option, none, some, Bool-cases, text, ◌==◌, arith,
}
use glass_os.Text.{Text}
use glass_os.Kernel.{Kernel, UserProcess, Users}
use glass_os.Policy.{PolicyDecision, policy_check}
use glass_os.Console.Output.{HasPolicy}
use glass_os.Report.Inspect.{object_inspect-Prints}
use glass_os.Report.Objects.{object_inspect}
use glass_os.Quiet.Bounded.{Evolves-alike}
use glass_os.Quiet.{
  if-Quiet, HasPolicy-Quiet, Quiet, set_current-Quiet, set_transaction-Quiet, Prints-Quiet,
  printf-Quiet, event_record_kind-Quiet, transaction_begin-Quiet, transaction_commit-Quiet,
  transaction_abort-Quiet, policy_check-Quiet,
}
use glass_os.User.Syscall.{
  syscall_begin, syscall_finish, refuse_syscall, user_syscall_inspect, schedule, next_index,
  user_syscall_yield, answer_config, user_syscall_config_get, user_syscall_config_set_denied,
  unknown_syscall, dispatch_syscall,
}

module _ {k s : Kernel} (q : Quiet k s) where
  pub syscall_begin-Quiet :
      (process : UserProcess) (target : Text) → Quiet k (syscall_begin process target s).1
  unfolding syscall_begin
  syscall_begin-Quiet process target =
      set_current-Quiet (set_transaction-Quiet (transaction_begin-Quiet q _ _ _) _) _

  pub syscall_finish-Quiet :
      (transaction : ℕ) (ok : Bool) → Quiet k (syscall_finish transaction ok s).1
  unfolding syscall_finish
  syscall_finish-Quiet transaction ok = elim (Bool-cases (transaction == 0)) [
    | inl e ↦ rw e (set_transaction-Quiet q _)
    | inr e ↦ elim (Bool-cases ok) [
      | inl f ↦ rw (e, f) (set_transaction-Quiet (transaction_commit-Quiet q _) _)
      | inr f ↦ rw (e, f) (set_transaction-Quiet (transaction_abort-Quiet q _ _) _)
    ]
  ]

module _ {k s : Kernel} (q : Quiet k s) where
  pub refuse_syscall-Quiet :
      (transaction : ℕ) (reason : Text) → Quiet k (refuse_syscall transaction reason s).1
  unfolding refuse_syscall
  refuse_syscall-Quiet transaction reason = syscall_finish-Quiet (printf-Quiet q _ _) _ _

  answer_config-Quiet :
      (transaction : ℕ) (process : UserProcess) (key : Text) (policy : PolicyDecision)
      (value : Option Text)
      → Quiet k (answer_config transaction process key policy value s).1
  unfolding answer_config
  answer_config-Quiet transaction process key policy none =
      syscall_finish-Quiet (event_record_kind-Quiet q _ _ _ _ _ _ _) _ _
  answer_config-Quiet transaction process key policy (some value) =
      syscall_finish-Quiet (printf-Quiet (event_record_kind-Quiet q _ _ _ _ _ _ _) _ _) _ _

  unknown_syscall-Quiet : (process : UserProcess) → Quiet k (unknown_syscall process s).1
  unfolding unknown_syscall
  unknown_syscall-Quiet process =
      syscall_finish-Quiet (event_record_kind-Quiet (syscall_begin-Quiet q _ _) _ _ _ _ _ _ _) _ _

module _ {k s : Kernel} (q : Quiet k s) (ready : HasPolicy k) (source : Text)
    (process : UserProcess) where
  pub inspect-Quiet : (query : Text) → Quiet k (object_inspect source query s).1
  inspect-Quiet query =
      Prints-Quiet q (object_inspect-Prints source query s (HasPolicy-Quiet q ready))

  -- The state in which a call has its decision.
  pub decided :
      (target operation : Text)
      → Quiet k
          (policy_check source process.thread_name target operation
            (syscall_begin process target s).1).1
  decided target operation = policy_check-Quiet (syscall_begin-Quiet q _ _) _ _ _ _ ready

schedule-Quiet : {k s : Kernel} → Quiet k s → Quiet (schedule k) (schedule s)
schedule-Quiet q = record {
  policy = q.policy;
  config = q.config;
  memory = q.memory;
  ticks = q.ticks;
  keyboard = q.keyboard;
  paging = q.paging;
  users = ap {A = Users} (λ u. record u { scheduler_index = next_index u }) q.users;
  evolves = Evolves-alike (refl, refl, refl) (refl, refl, refl) q.evolves;
}

module _ {k s : Kernel} (q : Quiet k s) (ready : HasPolicy k) (source : Text)
    (process : UserProcess) where
  user_syscall_inspect-Quiet :
      (target : Text) → Quiet k (user_syscall_inspect source process target s).1
  unfolding user_syscall_inspect
  user_syscall_inspect-Quiet target =
      let d = decided q ready source process target (text "syscall:inspect") in
      if-Quiet _ _ _ (refuse_syscall-Quiet d _ _) (
        syscall_finish-Quiet
          (inspect-Quiet (event_record_kind-Quiet d _ _ _ _ _ _ _) ready source process target) _ _)

  user_syscall_config_get-Quiet :
      (key : Text) → Quiet k (user_syscall_config_get source process key s).1
  unfolding user_syscall_config_get
  user_syscall_config_get-Quiet key =
      let d = decided q ready source process key (text "syscall:config_get") in
      if-Quiet _ _ _ (refuse_syscall-Quiet d _ _) (answer_config-Quiet d _ process key _ _)

  user_syscall_config_set_denied-Quiet :
      (key : Text) → Quiet k (user_syscall_config_set_denied source process key s).1
  unfolding user_syscall_config_set_denied
  user_syscall_config_set_denied-Quiet key =
      let d = decided q ready source process key (text "syscall:config_set") in
      if-Quiet _ _ _ (refuse_syscall-Quiet d _ _)
        (syscall_finish-Quiet (event_record_kind-Quiet d _ _ _ _ _ _ _) _ _)

  -- The scheduler moves on, if at all.
  user_syscall_yield-Quiet :
      Quiet k (user_syscall_yield source process s).1
      ⊎ Quiet (schedule k) (user_syscall_yield source process s).1
  unfolding user_syscall_yield
  user_syscall_yield-Quiet =
      let name = process.thread_name in
      let d = decided q ready source process name (text "syscall:yield") in
      let k2 =
        (policy_check source name name (text "syscall:yield") (syscall_begin process name s).1) in
      elim (Bool-cases k2.0.allowed) [
        | inr no_right ↦ inl (rw no_right (refuse_syscall-Quiet d _ _))
        | inl right ↦ inr (
            rw right (
              syscall_finish-Quiet
                (printf-Quiet
                  (event_record_kind-Quiet
                    (event_record_kind-Quiet (schedule-Quiet d) _ _ _ _ _ _ _) _ _ _ _ _ _ _)
                  _ _)
                _ _))
      ]

-- A system call of any number leaves everything alone, or moves the scheduler on.
pub dispatch_syscall-Quiet :
    {k s : Kernel} (q : Quiet k s) (ready : HasPolicy k) (source : Text) (process : UserProcess)
    (number : ℕ) (target : Text)
    → Quiet k (dispatch_syscall source process number target s).1
      ⊎ ((number ≡ 2) × Quiet (schedule k) (dispatch_syscall source process number target s).1)
unfolding dispatch_syscall
dispatch_syscall-Quiet q ready source process number target = elim (Bool-cases (number == 1)) [
  | inl e ↦ inl (rw e (user_syscall_inspect-Quiet q ready source process target))
  | inr e1 ↦ elim (Bool-cases (number == 2)) [
    | inl e ↦ elim (user_syscall_yield-Quiet q ready source process) [
      | inl stay ↦ inl (rw (e1, e) stay)
      | inr move ↦ inr (ground (arith, e), rw (e1, e) move)
    ]
    | inr e2 ↦ elim (Bool-cases (number == 3)) [
      | inl e ↦ inl (rw (e1, e2, e) (user_syscall_config_get-Quiet q ready source process target))
      | inr e3 ↦ elim (Bool-cases (number == 4)) [
        | inl e ↦ inl (
            rw (e1, e2, e3, e) (user_syscall_config_set_denied-Quiet q ready source process target))
        | inr e4 ↦ inl (rw (e1, e2, e3, e4) (unknown_syscall-Quiet q process))
      ]
    ]
  ]
]
