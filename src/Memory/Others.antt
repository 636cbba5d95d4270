-- ===== src/Memory/Others.antt =====
-- What the page allocator of kernel/memory.c leaves alone.
use glass_os.Prelude.{ℕ, ◌≡◌, Option-cases, inl, inr, arith}
use glass_os.Kernel.{Kernel}
use glass_os.Event.{event_record, event_record_kind}
use glass_os.Memory.{page_alloc_contiguous, find_run, search_rounds, first_page}

-- Everything but the allocator, the journal and the serial line.
pub record Others (k k' : Kernel) : Type 0 where
  pub registry : k'.registry ≡ k.registry
  pub policy : k'.policy ≡ k.policy
  pub config : k'.config ≡ k.config
  pub console : k'.console ≡ k.console
  pub screen : k'.screen ≡ k.screen
  pub keyboard : k'.keyboard ≡ k.keyboard
  pub paging : k'.paging ≡ k.paging
  pub users : k'.users ≡ k.users

pub page_alloc_contiguous-Others : (n : ℕ) (k : Kernel) → Others k (page_alloc_contiguous n k).1
unfolding page_alloc_contiguous event_record event_record_kind
page_alloc_contiguous-Others n k =
    elim (Option-cases (find_run (search_rounds n) first_page n k.memory.page_bitmap)) [
      | inl e ↦ rw e (ground arith)
      | inr (page, e) ↦ rw e (ground arith)
    ]
