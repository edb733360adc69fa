-- ===== src/CentralFreeList/Slots.antt =====
-- The transfer cache of a class (src/src/central_freelist.h): steps that change its slots and limits, and
-- leave the spans as they are.
use conan_tcmalloc.Base.{
  ℕ, ◌-◌, ◌≤◌, ◌<◌, ◌≡◌, ◌≢◌, inl, inr, sym, ap, ◌∙◌, subst, refl, true, ◌||◌, List, ◌==◌, arith,
  has, Bool-cases, if◌then◌else◌,
}
use conan_tcmalloc.CentralFreeList.{Pages, CentralFreeList, Store, with_central}
use conan_tcmalloc.CentralFreeList.Invariant.{
  in_slot, given, Places, is_span, is_slot, is_loose, IsPageHeap, linked, IsSlot, IsValid,
}
use conan_tcmalloc.CentralFreeList.Places.{slot-loose, slot-other, slot-not_span}
use conan_tcmalloc.CentralFreeList.Step.{IsSpan-frame, IsSlot-frame}

module _ (P : Pages) (law : IsPageHeap P) (size_of batch pages : ℕ → ℕ) (classes : ℕ) where
  -- The class `t` becomes `l`, with the same spans.
  pub record Recached (t : ℕ) (at at' : Places) (s : Store P) (l : CentralFreeList) : Type 0 where
    pub nonempty : l.nonempty ≡ (s.lists t).nonempty
    pub empty : l.empty ≡ (s.lists t).empty
    pub room : l.used_slots ≤ l.cache_size
    pub most : l.cache_size ≤ l.max_cache_size
    pub spans : (q b : ℕ) → is_span q (at' b) ≡ is_span q (at b)
    pub loose : (dl b : ℕ) → is_loose dl (at' b) ≡ is_loose dl (at b)
    pub others : (dl i b : ℕ) → dl ≢ t → is_slot dl i (at' b) ≡ is_slot dl i (at b)
    pub slot :
        (i : ℕ) → i < l.used_slots → IsSlot P law size_of batch pages at' (with_central t l s) t i
    pub used : (i b : ℕ) → is_slot t i (at' b) ≡ true → i < l.used_slots

  module _ (t : ℕ) (at at' : Places) (s : Store P) (l : CentralFreeList)
      (v : IsValid P law size_of batch pages classes at s) (r : Recached t at at' s l) where
    abbrev after : Store P
    after = with_central t l s

    -- A fact of every class holds if it holds of `l` and of the others.
    by_class :
        (Q : ℕ → CentralFreeList → Type 0) (dl : ℕ)
        → Q t l
        → (dl ≢ t → Q dl (s.lists dl))
        → Q dl (after.lists dl)
    by_class Q dl here other = elim (Bool-cases (dl == t)) [
      | inl same ↦ let e : t ≡ dl = ground arith in rw same (subst (λ k. Q k l) e here)
      | inr ne ↦ rw ne (other (λ e. ground arith))
    ]

    same_nonempty : (dl : ℕ) → (after.lists dl).nonempty ≡ (s.lists dl).nonempty
    same_nonempty dl =
        by_class (λ k m. m.nonempty ≡ (s.lists k).nonempty) dl r.nonempty (λ ne. refl)

    same_empty : (dl : ℕ) → (after.lists dl).empty ≡ (s.lists dl).empty
    same_empty dl = by_class (λ k m. m.empty ≡ (s.lists k).empty) dl r.empty (λ ne. refl)

    same_linked :
        (dl q : ℕ)
        → linked P law size_of batch pages dl q after ≡ linked P law size_of batch pages dl q s
    same_linked dl q =
        ap (λ e. has q e || has q (after.lists dl).empty) (same_nonempty dl)
        ∙ ap (λ e. has q (s.lists dl).nonempty || has q e) (same_empty dl)

    pub IsValid-Recached : IsValid P law size_of batch pages classes at' after
    IsValid-Recached = record {
      span = λ dl q lt on.
          let x = v.span dl q lt (sym (same_linked dl q) ∙ on) in
          IsSpan-frame P law size_of batch pages at at' s after dl q
            (record { live_still = x.live; start = refl; length = refl; sizeclass = refl }) refl
            refl (λ a. r.spans q a) (λ a h. refl) x;
      some_free = λ dl q lt on. v.some_free dl q lt (sym (ap (has q) (same_nonempty dl)) ∙ on);
      none_free = λ dl q lt on. v.none_free dl q lt (sym (ap (has q) (same_empty dl)) ∙ on);
      slot = λ dl i lt in_use. elim (Bool-cases (dl == t)) [
        | inl same ↦
            let e : t ≡ dl = ground arith in
            subst (λ k. IsSlot P law size_of batch pages at' after k i) e
              (r.slot i (rw same at in_use))
        | inr other ↦
            let ne : dl ≢ t = λ e. ground arith in
            IsSlot-frame P law size_of batch pages at at' s after dl i (rw other refl)
              (λ a. r.others dl i a ne) (λ a h. refl) (v.slot dl i lt (rw other at in_use))
      ];
      used = λ dl i a.
          by_class (λ k m. is_slot k i (at' a) ≡ true → i < m.used_slots) dl (r.used i a)
            (λ ne h. v.used dl i a (sym (r.others dl i a ne) ∙ h));
      room = λ dl lt. by_class (λ k m. m.used_slots ≤ m.cache_size) dl r.room (λ ne. v.room dl lt);
      most =
          λ dl lt. by_class (λ k m. m.cache_size ≤ m.max_cache_size) dl r.most (λ ne. v.most dl lt);
      origin = λ dl a lt h.
          let (q, on, inside) = v.origin dl a lt (sym (r.loose dl a) ∙ h) in
          (q, same_linked dl q ∙ on, inside);
      bounded = λ dl a h. v.bounded dl a (sym (r.loose dl a) ∙ h);
      home = λ q a h.
          let (dl, lt, on) = v.home q a (sym (r.spans q a) ∙ h) in (dl, lt, same_linked dl q ∙ on);
    }

  -- A slot as it was, where the objects stay.
  pub slot_kept :
      (t i : ℕ) (at at' : Places) (s : Store P) (l : CentralFreeList)
      → l.tc_slots i ≡ (s.lists t).tc_slots i
      → ((b : ℕ) → is_slot t i (at' b) ≡ is_slot t i (at b))
      → IsSlot P law size_of batch pages at s t i
      → IsSlot P law size_of batch pages at' (with_central t l s) t i
  slot_kept t i at at' s l entry places x =
      let here : (t == t) ≡ true = ground arith in
      IsSlot-frame P law size_of batch pages at at' s (with_central t l s) t i (rw here entry)
        places (λ a h. refl) x

  -- Only the limit changes.
  pub limit-Recached :
      (t n : ℕ) (at : Places) (s : Store P)
      → t < classes
      → IsValid P law size_of batch pages classes at s
      → (s.lists t).used_slots ≤ n
      → n ≤ (s.lists t).max_cache_size
      → Recached t at at s (record (s.lists t) { cache_size = n })
  limit-Recached t n at s lt v room most = record {
    nonempty = refl;
    empty = refl;
    room = room;
    most = most;
    spans = λ q b. refl;
    loose = λ dl b. refl;
    others = λ dl i b ne. refl;
    slot = λ i in_use. slot_kept t i at at s _ refl (λ b. refl) (v.slot t i lt in_use);
    used = λ i b h. v.used t i b h;
  }

  -- The objects of a slot are given away.
  abbrev pub given_slot : (t i : ℕ) → Places → Places
  given_slot t i at b = if is_slot t i (at b) then given t else at b

  pub given_slot-Recached :
      (t n : ℕ) (at : Places) (s : Store P)
      → t < classes
      → IsValid P law size_of batch pages classes at s
      → 0 < (s.lists t).used_slots
      → (s.lists t).used_slots - 1 ≤ n
      → n ≤ (s.lists t).max_cache_size
      → Recached t at
          (given_slot t ((s.lists t).used_slots - 1) at)
          s
          (record (s.lists t) { cache_size = n; used_slots = (s.lists t).used_slots - 1 })
  given_slot-Recached t n at s lt v some_used room most =
      let i = (s.lists t).used_slots - 1 in
      record {
        nonempty = refl;
        empty = refl;
        room = room;
        most = most;
        spans = λ q b. elim (Bool-cases (is_slot t i (at b))) [
          | inl on ↦ rw (on, slot-not_span t i q (at b) on) refl
          | inr off ↦ rw off refl
        ];
        loose = λ dl b. elim (Bool-cases (is_slot t i (at b))) [
          | inl on ↦ rw (on, slot-loose t i dl (at b) on) refl
          | inr off ↦ rw off refl
        ];
        others = λ dl j b ne. elim (Bool-cases (is_slot t i (at b))) [
          | inl on ↦ rw (on, slot-other t i dl j (at b) on (ground arith)) refl
          | inr off ↦ rw off refl
        ];
        slot = λ j in_use.
            slot_kept t j at (given_slot t i at) s _ refl
              (λ b. elim (Bool-cases (is_slot t i (at b))) [
                | inl on ↦ rw (on, slot-other t i t j (at b) on (ground arith)) refl
                | inr off ↦ rw off refl
              ])
              (v.slot t j lt (omega arith));
        used = λ j b h. elim (Bool-cases (is_slot t i (at b))) [
          | inl on ↦ let h' = rw on at h in absurd (cc h')
          | inr off ↦
              let h' = rw off at h in
              let below = v.used t j b h' in
              elim (Bool-cases (j == i)) [
                | inl same ↦
                    let e : j ≡ i = ground arith in
                    absurd (cc (subst (λ k. is_slot t k (at b) ≡ true) e h', off))
                | inr other ↦ ground arith
              ]
        ];
      }

  -- Objects that were given come to a new slot.
  abbrev pub to_slot : (t i : ℕ) → List ℕ → Places → Places
  to_slot t i xs at b = if has b xs then in_slot t i else at b
