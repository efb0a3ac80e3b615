-- ===== src/Sysmem.antt =====
-- src/syscall/sys_memory.c: the system calls on memory, over the tasks and the page tables.
use open_idp_os.Base.{
  ℕ, zero, suc, ◌+◌, ◌-◌, ◌*◌, ◌/◌, ◌%◌, ◌^◌, Bool, true, false, not, Option, none, some, ◌>>=◌,
  List, ◌∷◌, ◌==◌, ltb, if◌then◌else◌, update, add64, sub64, and64,
}
use open_idp_os.Process.{Kernel, get_task_by_pid}
use open_idp_os.Kheap.{page_size, align_up}
use open_idp_os.Vmm.{
  Vm, write, page_align_mask, pml4_index, pdpt_index, pd_index, pt_index, phys_to_virt,
  vmm_map_page,
}

-- The tasks, the page tables with the pages, and the addresses that were set to zero, the last first.
pub record Machine (M : Type 0) : Type 0 where
  pub kernel : Kernel
  pub vm : Vm M
  pub zeroed : List ℕ

-- `(x + PAGE_SIZE - 1) & ~(PAGE_SIZE - 1)`
abbrev pub page_top : ℕ → ℕ
page_top x = add64 x (page_size - 1) / page_size * page_size

abbrev pub set_break : (task brk : ℕ) → Kernel → Kernel
set_break task brk k = record k {
  task = update k.task task (record (k.task task) { program_break = brk });
}

-- The break of a task put on a page boundary, and moved by `size`; the first is the boundary.
pub extend_break : (task size : ℕ) → Kernel → ℕ × Kernel
extend_break task size k =
    let brk = (k.task task).program_break in
    let vaddr = if not (brk % page_size == 0) then page_top brk else brk in
    (vaddr, set_break task (add64 vaddr size) k)

module _ {M : Type 0} (limine_hhdm : ℕ) (pmm_alloc_page : M → ℕ × M) where
  -- User, writable and present.
  abbrev user_page : (pml4 virt page : ℕ) → Vm M → Option (Vm M)
  user_page pml4 virt page v =
      vmm_map_page limine_hhdm pmm_alloc_page pml4 virt (sub64 page limine_hhdm) 7 v

  -- The loop of sys_sbrk; the test says whether there was a page each time.
  pub sbrk_loop : (pml4 old_page_top left i : ℕ) → Vm M → List ℕ → Option (Bool × Vm M × List ℕ)
  sbrk_loop pml4 old_page_top zero i v zeroed = some (true, v, zeroed)
  sbrk_loop pml4 old_page_top (suc left) i v zeroed =
      let (page, pages') = pmm_alloc_page v.pages in
      let map_addr = add64 old_page_top (i * page_size) in
      let rest = user_page pml4 map_addr page (record v { pages = pages' }) >>= λ v'.
      sbrk_loop pml4 old_page_top left (i + 1) v' (page ∷ map_addr ∷ zeroed) in
      if page == 0 then some (false, record v { pages = pages' }, zeroed) else rest

  -- The result of the call, -1 as 2 ^ 64 - 1. `inc` is the pattern of the signed increment.
  pub sbrk_pages : (inc : ℕ) → Machine M → Option (ℕ × Machine M)
  unfolding sbrk_loop
  sbrk_pages inc m =
      let task = m.kernel.current_task in
      let old_break = (m.kernel.task task).program_break in
      let new_break = add64 old_break inc in
      let num_pages = (page_top new_break - page_top old_break) / page_size in
      let user_pml4 = add64 (m.kernel.task task).cr3 limine_hhdm in
      sbrk_loop user_pml4 (page_top old_break) num_pages 0 m.vm m.zeroed >>= λ r. some (
        if r.0
        then (
          old_break,
          record m { kernel = set_break task new_break m.kernel; vm = r.1; zeroed = r.2 },
        )
        else (2 ^ 64 - 1, record m { vm = r.1; zeroed = r.2 }))

  pub sys_sbrk : (inc : ℕ) → Machine M → Option (ℕ × Machine M)
  unfolding sbrk_pages
  sys_sbrk inc m =
      let task = m.kernel.current_task in
      let old_break = (m.kernel.task task).program_break in
      let new_break = add64 old_break inc in
      if inc == 0
      then some (old_break, m)
      else if ltb (page_top old_break) (page_top new_break)
      then sbrk_pages inc m
      else some (old_break, record m { kernel = set_break task new_break m.kernel })

  -- The loop of sys_share_mem: a page is mapped in both; without one the machine halts.
  pub share_loop : (my_pml4 their_pml4 my_vaddr their_vaddr left i : ℕ) → Vm M → Option (Vm M)
  share_loop my_pml4 their_pml4 my_vaddr their_vaddr zero i v = some v
  share_loop my_pml4 their_pml4 my_vaddr their_vaddr (suc left) i v =
      let (page, pages') = pmm_alloc_page v.pages in
      let rest =
        user_page my_pml4 (add64 my_vaddr i) page (record v { pages = pages' })
        >>= user_page their_pml4 (add64 their_vaddr i) page
        >>= share_loop my_pml4 their_pml4 my_vaddr their_vaddr left (i + page_size) in
      if page == 0 then none else rest

  -- With a target: the two addresses, mine and theirs.
  pub share_with : (target size : ℕ) → Machine M → Option (ℕ × ℕ × Machine M)
  unfolding extend_break share_loop
  share_with target size m =
      let me = m.kernel.current_task in
      let (my_vaddr, k₁) = extend_break me size m.kernel in
      let (their_vaddr, k₂) = extend_break target size k₁ in
      share_loop (phys_to_virt limine_hhdm (k₂.task me).cr3)
        (phys_to_virt limine_hhdm (k₂.task target).cr3) my_vaddr their_vaddr (size / page_size) 0
        m.vm
      >>= λ v. some (my_vaddr, their_vaddr, record m { kernel = k₂; vm = v })

  -- `target_pid` is the 32-bit pattern of an int. The result, and what is written to the out parameter, if anything.
  pub sys_share_mem : (fuel target_pid size : ℕ) → Machine M → Option (ℕ × Option ℕ × Machine M)
  unfolding share_with
  sys_share_mem fuel target_pid size m = get_task_by_pid fuel target_pid m.kernel >>= λ target.
      if target == 0
      then some (0, none, m)
      else (share_with target (align_up size page_size) m >>= λ r. some (r.0, some r.1, r.2))

  -- One page of sys_unmap, with the walk through the tables by hand.
  pub unmap_one : (pml4 virt : ℕ) → Vm M → Vm M
  unmap_one pml4 virt v =
      let e₁ = v.entry pml4 (pml4_index virt) in
      let e₂ = v.entry (phys_to_virt limine_hhdm (and64 e₁ page_align_mask)) (pdpt_index virt) in
      let e₃ = v.entry (phys_to_virt limine_hhdm (and64 e₂ page_align_mask)) (pd_index virt) in
      let pt = phys_to_virt limine_hhdm (and64 e₃ page_align_mask) in
      if and64 e₁ 1 == 0
      then v
      else if and64 e₂ 1 == 0
      then v
      else if and64 e₃ 1 == 0
      then v
      else if and64 (v.entry pt (pt_index virt)) 1 == 0
      then v
      else record v {
        entry = write pt (pt_index virt) 0 v.entry;
        invalidated = virt ∷ v.invalidated;
      }

  pub unmap_loop : (pml4 vaddr left i : ℕ) → Vm M → Vm M
  unfolding unmap_one
  unmap_loop pml4 vaddr zero i v = v
  unmap_loop pml4 vaddr (suc left) i v =
      unmap_loop pml4 vaddr left (i + page_size) (unmap_one pml4 (add64 vaddr i) v)

  -- The call returns 0.
  pub sys_unmap : (vaddr size : ℕ) → Machine M → Machine M
  unfolding unmap_loop
  sys_unmap vaddr size m =
      let pml4 = phys_to_virt limine_hhdm (m.kernel.task m.kernel.current_task).cr3 in
      record m { vm = unmap_loop pml4 vaddr (align_up size page_size / page_size) 0 m.vm }
