-- ===== src/Event/Frame.antt =====
-- What the recording operations of kernel/event.c leave alone: everything but the journal and the
-- serial line, and object_update_state the registry.
use glass_os.Prelude.{ℕ, ◌≡◌, refl, arith}
use glass_os.Text.{Text}
use glass_os.Kernel.{Kernel, EventResult}
use glass_os.Event.{event_record_kind, object_update_state}

module _ (actor target operation : Text) (result : EventResult) (parent : ℕ) (policy kind : Text)
    (k : Kernel) where
  pub policy-event_record_kind :
      (event_record_kind actor target operation result parent policy kind k).1.policy ≡ k.policy
  unfolding event_record_kind
  policy-event_record_kind = refl

  pub config-event_record_kind :
      (event_record_kind actor target operation result parent policy kind k).1.config ≡ k.config
  unfolding event_record_kind
  config-event_record_kind = refl

  pub memory-event_record_kind :
      (event_record_kind actor target operation result parent policy kind k).1.memory ≡ k.memory
  unfolding event_record_kind
  memory-event_record_kind = refl

  pub registry-event_record_kind :
      (event_record_kind actor target operation result parent policy kind k).1.registry ≡ k.registry
  unfolding event_record_kind
  registry-event_record_kind = refl

module _ (name state : Text) (k : Kernel) where
  pub policy-object_update_state : (object_update_state name state k).1.policy ≡ k.policy
  unfolding object_update_state event_record_kind
  policy-object_update_state = ground arith

  pub config-object_update_state : (object_update_state name state k).1.config ≡ k.config
  unfolding object_update_state event_record_kind
  config-object_update_state = ground arith

  pub memory-object_update_state : (object_update_state name state k).1.memory ≡ k.memory
  unfolding object_update_state event_record_kind
  memory-object_update_state = ground arith

pub ruleset policy_frame = (policy-event_record_kind, policy-object_update_state)

pub ruleset config_frame = (config-event_record_kind, config-object_update_state)

pub ruleset memory_frame = (memory-event_record_kind, memory-object_update_state)
