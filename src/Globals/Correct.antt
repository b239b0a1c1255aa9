-- ===== src/Globals/Correct.antt =====
-- crt_init_globals.c: what each capability may do that a global starts with.
use cheritest.Common.{
  ◌+◌, ◌%◌, ◌^◌, ◌<◌, ◌≡◌, refl, ap, ◌∙◌, true, false, ◌==◌, List, [], ◌∷◌, bit_and, arith,
  Bool-cases, inl, inr,
}
use cheritest.Common.Masks.{disjoint_left, disjoint_right, complement_disjoint}
use cheritest.Globals.Laws.{Laws, IsData, IsCode, IsInit, AllInit}
use cheritest.Globals.{
  Capreloc, Builtins, complement64, init_reloc, init_relocs, crt_init_globals,
  function_pointer_permissions, global_pointer_permissions,
}

module _ (b : Builtins) (l : Laws b) where
  open b use {
    Cap, global_data_get, program_counter_get, permit_store_capability, permit_store,
    permit_execute,
  }
  open l use {perms, base, length, address}

  module _ (se : permit_store < 2 ^ 31) (sce : permit_store_capability < 2 ^ 31)
      (ee : permit_execute < 2 ^ 31) where
    gdc : Cap
    gdc = b.perms_and global_data_get (global_pointer_permissions b)

    pcc : Cap
    pcc = b.perms_and program_counter_get (function_pointer_permissions b)

    gdc_no_execute : bit_and (perms gdc) permit_execute ≡ 0
    unfolding gdc
    gdc_no_execute =
        ap (λ p. bit_and p permit_execute)
          (l.perms-perms_and global_data_get (global_pointer_permissions b))
        ∙ disjoint_left permit_execute (perms global_data_get) _ permit_execute (omega arith) (
            disjoint_left permit_execute (complement64 0) (complement64 permit_execute)
              permit_execute (omega arith)
              (complement_disjoint 64 permit_execute (omega (arith, ee))))

    pcc_no_store : bit_and (perms pcc) permit_store ≡ 0
    unfolding pcc
    pcc_no_store =
        ap (λ p. bit_and p permit_store)
          (l.perms-perms_and program_counter_get (function_pointer_permissions b))
        ∙ disjoint_left permit_store (perms program_counter_get) _ permit_store (omega arith) (
            disjoint_left permit_store _ (complement64 permit_store) permit_store (omega arith)
              (complement_disjoint 64 permit_store (omega (arith, se))))

    pcc_no_store_capability : bit_and (perms pcc) permit_store_capability ≡ 0
    unfolding pcc
    pcc_no_store_capability =
        ap (λ p. bit_and p permit_store_capability)
          (l.perms-perms_and program_counter_get (function_pointer_permissions b))
        ∙ disjoint_left permit_store_capability (perms program_counter_get) _
            permit_store_capability (omega arith)
            (disjoint_right permit_store_capability (complement64 permit_store) _
              permit_store_capability (omega arith)
              (disjoint_left permit_store_capability (complement64 0)
                (complement64 permit_store_capability) permit_store_capability (omega arith)
                (complement_disjoint 64 permit_store_capability (omega (arith, sce)))))

    -- The laws along the steps of one relocation, whose base keeps the bounds of `origin`.
    module _ (c : Cap) (reloc : Capreloc) where
      unbounded : Cap
      unbounded = b.offset_increment (b.offset_set c reloc.object) reloc.offset

      bounded : Cap
      bounded =
          b.offset_increment (b.bounds_set (b.offset_set c reloc.object) reloc.size) reloc.offset

      perms_unbounded : perms unbounded ≡ perms c
      unfolding unbounded
      perms_unbounded = l.perms-offset_increment _ _ ∙ l.perms-offset_set _ _

      base_unbounded : base unbounded ≡ base c
      unfolding unbounded
      base_unbounded = l.base-offset_increment _ _ ∙ l.base-offset_set _ _

      length_unbounded : length unbounded ≡ length c
      unfolding unbounded
      length_unbounded = l.length-offset_increment _ _ ∙ l.length-offset_set _ _

      address_unbounded :
          address unbounded ≡ ((base c + reloc.object) % 2 ^ 64 + reloc.offset) % 2 ^ 64
      unfolding unbounded
      address_unbounded =
          l.address-offset_increment _ _
          ∙ ap (λ a. (a + reloc.offset) % 2 ^ 64) (l.address-offset_set _ _)

      perms_bounded : perms bounded ≡ perms c
      unfolding bounded
      perms_bounded = l.perms-offset_increment _ _ ∙ l.perms-bounds_set _ _ ∙ l.perms-offset_set _ _

      base_bounded : base bounded ≡ (base c + reloc.object) % 2 ^ 64
      unfolding bounded
      base_bounded = l.base-offset_increment _ _ ∙ l.base-bounds_set _ _ ∙ l.address-offset_set _ _

      length_bounded : length bounded ≡ reloc.size
      unfolding bounded
      length_bounded = l.length-offset_increment _ _ ∙ l.length-bounds_set _ _

      address_bounded : address bounded ≡ ((base c + reloc.object) % 2 ^ 64 + reloc.offset) % 2 ^ 64
      unfolding bounded
      address_bounded =
          l.address-offset_increment _ _
          ∙ ap (λ a. (a + reloc.offset) % 2 ^ 64)
              (l.address-bounds_set _ _ ∙ l.address-offset_set _ _)

    base-gdc : base gdc ≡ base global_data_get
    unfolding gdc
    base-gdc = l.base-perms_and _ _

    length-gdc : length gdc ≡ length global_data_get
    unfolding gdc
    length-gdc = l.length-perms_and _ _

    base-pcc : base pcc ≡ base program_counter_get
    unfolding pcc
    base-pcc = l.base-perms_and _ _

    length-pcc : length pcc ≡ length program_counter_get
    unfolding pcc
    length-pcc = l.length-perms_and _ _

    unbounded-pcc-IsCode : (reloc : Capreloc) → IsCode b l reloc (unbounded pcc reloc)
    unbounded-pcc-IsCode reloc = record {
      no_store = ap (λ p. bit_and p permit_store) (perms_unbounded pcc reloc) ∙ pcc_no_store;
      no_store_capability =
          ap (λ p. bit_and p permit_store_capability) (perms_unbounded pcc reloc)
          ∙ pcc_no_store_capability;
      start = base_unbounded pcc reloc ∙ base-pcc;
      extent = length_unbounded pcc reloc ∙ length-pcc;
      cursor =
          address_unbounded pcc reloc
          ∙ ap (λ a. ((a + reloc.object) % 2 ^ 64 + reloc.offset) % 2 ^ 64) base-pcc;
    }

    unbounded-gdc-IsData :
        (reloc : Capreloc) → (reloc.size == 0) ≡ true → IsData b l reloc (unbounded gdc reloc)
    unbounded-gdc-IsData reloc z = record {
      no_execute = ap (λ p. bit_and p permit_execute) (perms_unbounded gdc reloc) ∙ gdc_no_execute;
      start = base_unbounded gdc reloc ∙ base-gdc ∙ rw z refl;
      extent = length_unbounded gdc reloc ∙ length-gdc ∙ rw z refl;
      cursor =
          address_unbounded gdc reloc
          ∙ ap (λ a. ((a + reloc.object) % 2 ^ 64 + reloc.offset) % 2 ^ 64) base-gdc;
    }

    bounded-gdc-IsData :
        (reloc : Capreloc) → (reloc.size == 0) ≡ false → IsData b l reloc (bounded gdc reloc)
    bounded-gdc-IsData reloc z = record {
      no_execute = ap (λ p. bit_and p permit_execute) (perms_bounded gdc reloc) ∙ gdc_no_execute;
      start = base_bounded gdc reloc ∙ ap (λ a. (a + reloc.object) % 2 ^ 64) base-gdc ∙ rw z refl;
      extent = length_bounded gdc reloc ∙ rw z refl;
      cursor =
          address_bounded gdc reloc
          ∙ ap (λ a. ((a + reloc.object) % 2 ^ 64 + reloc.offset) % 2 ^ 64) base-gdc;
    }

    init_reloc-IsInit : (reloc : Capreloc) → IsInit b l reloc (init_reloc b gdc pcc reloc)
    unfolding init_reloc unbounded bounded
    init_reloc-IsInit reloc = record {
      place =
          l.address-offset_set _ _ ∙ ap (λ a. (a + reloc.capability_location) % 2 ^ 64) base-gdc;
      code = λ f. rw f (unbounded-pcc-IsCode reloc);
      data_ = λ f. elim (Bool-cases (reloc.size == 0)) [
        | inl z ↦ rw (f, z) (unbounded-gdc-IsData reloc z)
        | inr z ↦ rw (f, z) (bounded-gdc-IsData reloc z)
      ];
    }

    init_relocs-AllInit :
        (relocs : List Capreloc) → AllInit b l relocs (init_relocs b gdc pcc relocs)
    unfolding init_relocs
    init_relocs-AllInit [] = tt
    init_relocs-AllInit (reloc ∷ relocs) = (init_reloc-IsInit reloc, init_relocs-AllInit relocs)

    -- With permissions below 2 ^ 31, and built-in functions that act on capabilities as the
    -- architecture says: for each relocation, in order, one capability is stored at its location. For
    -- a function it cannot be stored through and has the bounds of the program; for data it cannot be
    -- executed and has the bounds of its object, or those of all data where the size is not known;
    -- and it points to the object and offset of the relocation.
    pub crt_init_globals-AllInit :
        (relocs : List Capreloc) → AllInit b l relocs (crt_init_globals b relocs)
    unfolding crt_init_globals gdc pcc
    crt_init_globals-AllInit relocs = init_relocs-AllInit relocs
