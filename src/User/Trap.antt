-- ===== src/User/Trap.antt =====
-- user_syscall_trap and user_handle_fault of kernel/user.c, as steps of Quiet.antt.
use glass_os.Prelude.{
  ℕ, ◌%◌, ◌≡◌, ◌≢◌, refl, ap, ◌⊎◌, inl, inr, Bool, true, false, Option, none, some, Bool-cases,
  text, ◌==◌, ◌+◌, length, arith, if◌then◌else◌,
}
use glass_os.Text.{Text}
use glass_os.Kernel.{Kernel, UserProcess, Users, Paging, event_ok, event_denied}
use glass_os.Event.{event_current}
use glass_os.Console.Output.{HasPolicy}
use glass_os.Quiet.Bounded.{Evolves-alike}
use glass_os.Quiet.{Quiet, Quiet-refl, event_record_kind-Quiet, event_record-Quiet, printf-Quiet}
use glass_os.Paging.{memory_switch_address_space}
use glass_os.User.{process_at}
use glass_os.User.Serve.{dispatch_syscall-Quiet}
use glass_os.User.Syscall.{
  schedule, next_index, serve_syscall, user_syscall_trap, trap_from, fault_from, from_user,
  contain_fault, user_handle_fault,
}

abbrev pub with_cr3 : ℕ → Kernel → Kernel
with_cr3 cr3 k = record k { paging = record k.paging { cr3 = cr3 } }

with_cr3-Quiet : (cr3 : ℕ) {k s : Kernel} → Quiet k s → Quiet (with_cr3 cr3 k) (with_cr3 cr3 s)
with_cr3-Quiet cr3 q = record {
  policy = q.policy;
  config = q.config;
  memory = q.memory;
  ticks = q.ticks;
  keyboard = q.keyboard;
  paging = ap {A = Paging} (λ p. record p { cr3 = cr3 }) q.paging;
  users = q.users;
  evolves = Evolves-alike (refl, refl, refl) (refl, refl, refl) q.evolves;
}

-- A switch to an address space.
switch-Quiet :
    (cr3 : ℕ) (actor target policy : Text) {k s : Kernel}
    → (cr3 == 0) ≡ false
    → Quiet k s
    → Quiet (with_cr3 cr3 k) (memory_switch_address_space cr3 actor target policy s).1
unfolding memory_switch_address_space
switch-Quiet cr3 actor target policy there q =
    rw there (event_record-Quiet (with_cr3-Quiet cr3 q) _ _ _ _ _ _)

module _ (source : Text) (process : UserProcess) (number user_cs argument : ℕ) (k : Kernel)
    (ready : HasPolicy k) (space : (process.cr3 == 0) ≡ false) where
  serve_syscall-Quiet :
      Quiet (with_cr3 process.cr3 k) (serve_syscall source process number user_cs argument k).1
      ⊎ ((number ≡ 2)
          × Quiet
              (schedule (with_cr3 process.cr3 k))
              (serve_syscall source process number user_cs argument k).1)
  unfolding serve_syscall
  serve_syscall-Quiet =
      let inside =
        switch-Quiet 0x1000 process.thread_name (text "kernel") (text "allow:syscall-kernel-cr3")
          refl
          (event_record_kind-Quiet (Quiet-refl {k = k}) process.thread_name (text "kernel")
            (text "cpl3_trap") (if from_user user_cs then event_ok else event_denied)
            (event_current k)
            (if from_user user_cs then text "allow:cpl3" else text "deny:not-cpl3")
            (text "syscall")) in
      elim (dispatch_syscall-Quiet inside ready source process number _) [
        | inl stay ↦ inl (switch-Quiet process.cr3 _ _ _ space stay)
        | inr (e, move) ↦ inr (e, switch-Quiet process.cr3 _ _ _ space move)
      ]

-- The state with the scheduler at the next process, and at the first one after the last.
abbrev pub moved_on : Kernel → Kernel
moved_on k = record k {
  users = record k.users {
    scheduler_index =
        if length k.users.processes == 0
        then 0
        else (k.users.scheduler_index + 1) % length k.users.processes;
  };
}

module _ (source : Text) (number user_cs argument : ℕ) (k : Kernel) (ready : HasPolicy k) where
  -- What a system call may do for the process that is active: nothing for none, and for one that has
  -- an address space it returns to it, and moves the scheduler on at most.
  abbrev pub Confined : Option ℕ → Kernel → Type 0
  Confined none k' = Quiet k k'
  Confined (some index) k' =
      ((process_at index k).cr3 ≡ 0)
      ⊎ (Quiet (with_cr3 (process_at index k).cr3 k) k'
          ⊎ ((number ≡ 2) × Quiet (moved_on (with_cr3 (process_at index k).cr3 k)) k'))

  trap_from-Confined :
      (active : Option ℕ) → Confined active (trap_from source active number user_cs argument k).1
  unfolding trap_from next_index
  trap_from-Confined none = event_record_kind-Quiet Quiet-refl _ _ _ _ _ _ _
  trap_from-Confined (some index) = elim (Bool-cases ((process_at index k).cr3 == 0)) [
    | inl missing ↦ inl (ground (arith, missing))
    | inr there ↦
        inr (serve_syscall-Quiet source (process_at index k) number user_cs argument k ready there)
  ]

  -- A system call, with a policy loaded, of any number and with any argument. With no process active
  -- it changes nothing but the registry, the journal, the screen and the ports. With a process active
  -- that has an address space, it runs on in the address space of that process, and besides that
  -- configuration, policy, allocator, heap, clock, keyboard, every byte of memory and the table of
  -- processes are what they were, but that for call 2 only the scheduler may move on by one process,
  -- from the last process of the table to the first.
  pub user_syscall_trap-Confined :
      Confined k.users.active_user_process (user_syscall_trap source number user_cs argument k).1
  unfolding user_syscall_trap
  user_syscall_trap-Confined = trap_from-Confined k.users.active_user_process

abbrev with_contained : Kernel → Kernel
with_contained k = record k { users = record k.users { user_fault_contained = true } }

module _ (vector error_code rip cs : ℕ) (k : Kernel) where
  -- What the fault handler does for the process that is active.
  abbrev pub Handled : Option ℕ → Bool × Kernel → Type 0
  Handled none r = (r.0 ≡ false) × (r.1 ≡ k)
  Handled (some index) r =
      ((vector ≡ 14) × (cs % 4 ≡ 3) × (r.0 ≡ true) × Quiet (with_cr3 0x1000 (with_contained k)) r.1)
      ⊎ (((vector ≢ 14) ⊎ (cs % 4 ≢ 3)) × (r.0 ≡ false) × (r.1 ≡ k))

  contain_fault-Quiet :
      (process : UserProcess)
      → ((contain_fault process rip error_code k).0 ≡ true)
        × Quiet (with_cr3 0x1000 (with_contained k)) (contain_fault process rip error_code k).1
  unfolding contain_fault
  contain_fault-Quiet process = (
    refl,
    printf-Quiet
        (event_record_kind-Quiet
          (contained-Quiet (
            switch-Quiet 0x1000 process.thread_name (text "kernel") (text "allow:fault-kernel-cr3")
              refl (Quiet-refl {k = k})))
          _ _ _ _ _ _ _)
        _ _,
  )
    where
      contained-Quiet : {a b : Kernel} → Quiet a b → Quiet (with_contained a) (with_contained b)
      contained-Quiet q = record {
        policy = q.policy;
        config = q.config;
        memory = q.memory;
        ticks = q.ticks;
        keyboard = q.keyboard;
        paging = q.paging;
        users = ap {A = Users} (λ u. record u { user_fault_contained = true }) q.users;
        evolves = Evolves-alike (refl, refl, refl) (refl, refl, refl) q.evolves;
      }

  fault_from-Handled :
      (active : Option ℕ) → Handled active (fault_from active vector error_code rip cs k)
  unfolding fault_from
  fault_from-Handled none = (refl, refl)
  fault_from-Handled (some index) = elim (Bool-cases (vector == 14)) [
    | inr other ↦ inr (rw other (inl (λ e. absurd (ground (arith, other))), refl, refl))
    | inl page_fault ↦ elim (Bool-cases (from_user cs)) [
      | inr kernel ↦
          inr (rw (page_fault, kernel) (inr (λ e. absurd (ground (arith, kernel))), refl, refl))
      | inl user ↦
          let done = contain_fault-Quiet (process_at index k) in
          inl (
            ground (arith, page_fault),
            ground (arith, user),
            rw (page_fault, user) done.0,
            rw (page_fault, user) done.1,
          )
    ]
  ]

  -- user_handle_fault contains a fault exactly where a process is active, the vector is 14 and the
  -- fault came from ring 3; it then marks the fault as contained and goes on in the kernel's address
  -- space, and changes nothing else but the registry, the journal, the screen and the ports. Any
  -- other fault it leaves to its caller, and changes nothing at all.
  pub user_handle_fault_lem :
      Handled k.users.active_user_process (user_handle_fault vector error_code rip cs k)
  unfolding user_handle_fault
  user_handle_fault_lem = fault_from-Handled k.users.active_user_process
