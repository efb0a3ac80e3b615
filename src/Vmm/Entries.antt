-- ===== src/Vmm/Entries.antt =====
-- What the entries of the tables say.
use open_idp_os.Base.{
  ℕ, ◌+◌, ◌^◌, ◌<◌, ◌≤◌, ◌≡◌, ◌∙◌, refl, true, false, arith, ◌==◌, or64, and64, and_bits, and_digit,
  and-or-outside, and-and, and-or_self, and_le,
}
use open_idp_os.Vmm.{
  vmm_present, vmm_write, vmm_user, page_align_mask, linked, mapped, phys_to_virt, virt_to_phys,
  map_entry,
}

-- Setting the USER bit changes neither the presence nor the page.
pub present-user : (e : ℕ) → and64 (or64 e vmm_user) vmm_present ≡ and64 e vmm_present
present-user e = and-or-outside 64 e vmm_user vmm_present (unfold and_bits and_digit in refl)

pub page-user : (e : ℕ) → and64 (or64 e vmm_user) page_align_mask ≡ and64 e page_align_mask
page-user e = and-or-outside 64 e vmm_user page_align_mask (unfold and_bits and_digit in refl)

abbrev pub link_entry : (phys : ℕ) → ℕ
link_entry phys = or64 (or64 (or64 phys vmm_present) vmm_write) vmm_user

pub present-link : (p : ℕ) → and64 (link_entry p) vmm_present ≡ 1
present-link p =
    present-user (or64 (or64 p vmm_present) vmm_write)
    ∙ and-or-outside 64 (or64 p vmm_present) vmm_write vmm_present
        (unfold and_bits and_digit in refl)
    ∙ and-or_self 64 p vmm_present
    ∙ (unfold and_bits and_digit in refl)

pub page-link : (p : ℕ) → and64 (link_entry p) page_align_mask ≡ and64 p page_align_mask
page-link p =
    page-user (or64 (or64 p vmm_present) vmm_write)
    ∙ and-or-outside 64 (or64 p vmm_present) vmm_write page_align_mask
        (unfold and_bits and_digit in refl)
    ∙ and-or-outside 64 p vmm_present page_align_mask (unfold and_bits and_digit in refl)

-- The entry that vmm_map_page writes maps the page of `phys`.
pub mapped-map_entry :
    (limine_hhdm phys flags : ℕ)
    → and64 flags page_align_mask ≡ 0
    → mapped limine_hhdm (map_entry phys flags) ≡ and64 phys page_align_mask
unfolding mapped and_bits and_digit
mapped-map_entry limine_hhdm phys flags h =
    rw (and-or_self 64 (or64 (and64 phys page_align_mask) flags) vmm_present) (
      and-or-outside 64 (or64 (and64 phys page_align_mask) flags) vmm_present page_align_mask
        (unfold and_bits and_digit in refl)
      ∙ and-or-outside 64 (and64 phys page_align_mask) flags page_align_mask h
      ∙ and-and 64 phys page_align_mask)

module _ (limine_hhdm : ℕ) where
  pub linked-zero : linked limine_hhdm 0 ≡ 0
  unfolding linked
  linked-zero = unfold and_bits and_digit in refl

  pub mapped-zero : mapped limine_hhdm 0 ≡ 0
  unfolding mapped
  mapped-zero = unfold and_bits and_digit in refl

  pub linked-user : (e : ℕ) → linked limine_hhdm (or64 e vmm_user) ≡ linked limine_hhdm e
  unfolding linked
  linked-user e = rw (present-user e, page-user e) refl

  pub mapped-user : (e : ℕ) → mapped limine_hhdm (or64 e vmm_user) ≡ mapped limine_hhdm e
  unfolding mapped
  mapped-user e = rw (present-user e, page-user e) refl

  -- An entry for a table whose physical address is that of a page points to the table.
  pub linked-link :
      (t : ℕ)
      → t < 2 ^ 64
      → limine_hhdm < 2 ^ 64
      → and64 (virt_to_phys limine_hhdm t) page_align_mask ≡ virt_to_phys limine_hhdm t
      → linked limine_hhdm (link_entry (virt_to_phys limine_hhdm t)) ≡ t
  unfolding linked
  linked-link t lt h page =
      rw (present-link (virt_to_phys limine_hhdm t), page-link (virt_to_phys limine_hhdm t), page)
        (omega arith)

  -- An entry that is present points to a table that is not NULL.
  pub linked-live :
      (e : ℕ)
      → 0 < limine_hhdm
      → limine_hhdm + 2 ^ 52 ≤ 2 ^ 64
      → (and64 e vmm_present == 0) ≡ false
      → (linked limine_hhdm e ≡ phys_to_virt limine_hhdm (and64 e page_align_mask))
        × ((linked limine_hhdm e == 0) ≡ false)
  unfolding linked
  linked-live e low high p =
      let below : and64 e page_align_mask ≤ page_align_mask = and_le 64 e page_align_mask in
      rw p (refl, ground arith)

  pub linked-none : (e : ℕ) → (and64 e vmm_present == 0) ≡ true → linked limine_hhdm e ≡ 0
  unfolding linked
  linked-none e p = rw p refl
