-- ===== src/Process/Memory.antt =====
-- What the scheduler asks of the memory managers: the kernel heap, the page allocator and the
-- teardown of a user address space, over a state `M` of their own.
use open_idp_os.Base.{ℕ}

pub record Memory (M : Type 0) : Type 0 where
  pub kmalloc : ℕ → M → ℕ × M
  pub kfree : ℕ → M → M
  pub destroy_user_memory : ℕ → M → M
  pub pmm_free_page : ℕ → M → M
  pub create_process_pml4 : M → ℕ × M
