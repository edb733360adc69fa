-- ===== src/CentralFreeList/Shrunk.antt =====
-- ShrinkCache of src/src/central_freelist.cc.
use conan_tcmalloc.Base.{
  ℕ, ◌+◌, ◌-◌, ◌<◌, ◌≡◌, ◌≢◌, inl, inr, sym, ◌∙◌, refl, Bool, true, false, some, ◌==◌, arith, has,
  Bool-cases,
}
use conan_tcmalloc.CentralFreeList.{Pages, CentralFreeList, Store, with_central}
use conan_tcmalloc.CentralFreeList.Release.{shrink_cache}
use conan_tcmalloc.CentralFreeList.Invariant.{
  Places, is_slot, is_given, IsPageHeap, IsSlot, IsValid,
}
use conan_tcmalloc.CentralFreeList.Places.{slot-not_given}
use conan_tcmalloc.CentralFreeList.Lists.{release_list-TookBack}
use conan_tcmalloc.CentralFreeList.Slots.{
  IsValid-Recached, limit-Recached, given_slot, given_slot-Recached,
}

module _ (P : Pages) (law : IsPageHeap P) (size_of batch pages : ℕ → ℕ) (classes : ℕ) where
  -- What threads have is as it was.
  pub record Undisturbed (at at' : Places) (s s' : Store P) : Type 0 where
    pub valid : IsValid P law size_of batch pages classes at' s'
    pub given : (dl b : ℕ) → is_given dl (at' b) ≡ is_given dl (at b)
    pub memory : (dl b : ℕ) → is_given dl (at b) ≡ true → s'.memory b ≡ s.memory b

  -- A step that returns a flag.
  abbrev pub Tidies : Places → Store P → Bool → Store P → Type 0
  Tidies at s b s' = (at' : Places) × Undisturbed at at' s s'

  pub unchanged :
      (at : Places) (s : Store P)
      → IsValid P law size_of batch pages classes at s
      → Undisturbed at at s s
  unchanged at s v = record { valid = v; given = λ dl b. refl; memory = λ dl b h. refl }

  pub Undisturbed-trans :
      (at₀ at₁ at₂ : Places) (s₀ s₁ s₂ : Store P)
      → Undisturbed at₀ at₁ s₀ s₁
      → Undisturbed at₁ at₂ s₁ s₂
      → Undisturbed at₀ at₂ s₀ s₂
  Undisturbed-trans at₀ at₁ at₂ s₀ s₁ s₂ t u = record {
    valid = u.valid;
    given = λ dl b. u.given dl b ∙ t.given dl b;
    memory = λ dl b h. u.memory dl b (t.given dl b ∙ h) ∙ t.memory dl b h;
  }

  -- The objects of the last slot go back to their spans.
  module _ (t : ℕ) (at : Places) (s : Store P) (lt : t < classes)
      (v : IsValid P law size_of batch pages classes at s) (some_size : (s.lists t).cache_size ≢ 0)
      (full : (s.lists t).used_slots ≡ (s.lists t).cache_size) where
    abbrev last_slot : ℕ
    last_slot = (s.lists t).used_slots - 1

    abbrev forced : CentralFreeList
    forced = record (s.lists t) { cache_size = (s.lists t).cache_size - 1; used_slots = last_slot }

    slot_before : IsSlot P law size_of batch pages at s t last_slot
    slot_before = v.slot t last_slot lt (omega arith)

    forced-IsValid :
        IsValid P law size_of batch pages classes
          (given_slot P law size_of batch pages classes t last_slot at)
          (with_central t forced s)
    forced-IsValid = IsValid-Recached P law size_of batch pages classes t at _ s forced v (
        given_slot-Recached P law size_of batch pages classes t ((s.lists t).cache_size - 1) at s lt
          v (omega arith) (omega arith) (omega (arith, v.most t lt)))

    forced_objects :
        (b : ℕ)
        → has b (slot_before.objects) ≡ true
        → is_given t (given_slot P law size_of batch pages classes t last_slot at b) ≡ true
    forced_objects b h = let on = sym (slot_before.places b) ∙ h in rw on (ground arith)

    pub force-Tidies :
        (s' : Store P) × (shrink_cache P size_of batch classes t true s ≡ some (true, s'))
        × Tidies at s true s'
    unfolding shrink_cache
    force-Tidies =
        let at₁ = given_slot P law size_of batch pages classes t last_slot at in
        let x = slot_before in
        let (at₂, s₂, is, took) =
          release_list-TookBack P law size_of batch pages classes (batch t + 1) t _ (x.objects) at₁
            (with_central t forced s) lt forced-IsValid x.holds.chain x.holds.distinct
            forced_objects (omega (arith, x.count)) in
        let nonzero : ((s.lists t).cache_size == 0) ≡ false = ground arith in
        let same : ((s.lists t).used_slots == (s.lists t).cache_size) ≡ true = ground arith in
        let before : (dl b : ℕ) → is_given dl (at₂ b) ≡ is_given dl (at b) = λ dl b.
          elim (Bool-cases (is_slot t last_slot (at b))) [
            | inl on ↦
                let in_list = x.places b ∙ on in
                took.given dl b ∙ rw (in_list, slot-not_given t last_slot dl (at b) on) refl
            | inr off ↦ let out = x.places b ∙ off in took.given dl b ∙ rw (out, off) refl
          ] in
        (
          s₂,
          rw (nonzero, same, is) refl,
          (
            at₂,
            record {
              valid = took.valid;
              given = before;
              memory = λ dl b h. took.memory dl b (before dl b ∙ h);
            },
          ),
        )

  pub shrink_cache-Tidies :
      (t : ℕ) (force : Bool) (at : Places) (s : Store P)
      → t < classes
      → IsValid P law size_of batch pages classes at s
      → (r : Bool) × (s' : Store P) × (shrink_cache P size_of batch classes t force s
          ≡ some (r, s'))
        × Tidies at s r s'
  unfolding shrink_cache
  shrink_cache-Tidies t force at s lt v = elim (Bool-cases ((s.lists t).cache_size == 0)) [
    | inl empty ↦ (false, s, rw empty refl, (at, unchanged at s v))
    | inr nonzero ↦ elim (Bool-cases ((s.lists t).used_slots == (s.lists t).cache_size)) [
      | inr space ↦
          let n = (s.lists t).cache_size - 1 in
          let l = record (s.lists t) { cache_size = n } in
          let room = v.room t lt in
          let valid = IsValid-Recached P law size_of batch pages classes t at at s l v (
            limit-Recached P law size_of batch pages classes t n at s lt v (ground arith)
              (omega (arith, v.most t lt))) in
          (
            true,
            with_central t l s,
            ground (arith, nonzero, space),
            (at, record { valid = valid; given = λ dl b. refl; memory = λ dl b h. refl }),
          )
      | inl full ↦
          elim force
            as (λ k.
              (r : Bool) × (s' : Store P) × (shrink_cache P size_of batch classes t k s
                ≡ some (r, s'))
              × Tidies at s r s') [
                | false ↦ (false, s, rw (nonzero, full) refl, (at, unchanged at s v))
                | true ↦
                    let (s', is, tidy) =
                      force-Tidies t at s lt v (λ e. ground arith) (ground arith) in
                    (true, s', is, tidy)
              ]
    ]
  ]
