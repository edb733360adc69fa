-- ===== src/CentralFreeList/Local.antt =====
-- The central lists (src/src/central_freelist.h) own the objects that no thread has: writes to the others, and
-- calls of the page heap that keep the spans, leave them valid.
use conan_tcmalloc.Base.{ℕ, ◌≡◌, refl, true}
use conan_tcmalloc.LinkedList.{Memory}
use conan_tcmalloc.CentralFreeList.{Pages, Store}
use conan_tcmalloc.CentralFreeList.Invariant.{Places, is_span, is_slot, Same, IsPageHeap, IsValid}
use conan_tcmalloc.CentralFreeList.Step.{IsSpan-frame, IsSlot-frame, objects-Same}

module _ (P : Pages) (law : IsPageHeap P) (size_of batch pages : ℕ → ℕ) (classes : ℕ) where
  -- Memory and heap change where the lists do not look.
  pub IsValid-local :
      (at : Places) (s : Store P) (h : P.State) (m : Memory)
      → ((q : ℕ) → law.live s.heap q ≡ true → Same P law.live q s.heap h)
      → ((q b : ℕ) → is_span q (at b) ≡ true → m b ≡ s.memory b)
      → ((cl i b : ℕ) → is_slot cl i (at b) ≡ true → m b ≡ s.memory b)
      → IsValid P law size_of batch pages classes at s
      → IsValid P law size_of batch pages classes at (record s { heap = h; memory = m })
  IsValid-local at s h m same on_span on_slot v = record {
    span = λ cl p lt on.
        let x = v.span cl p lt on in
        IsSpan-frame P law size_of batch pages at at s (record s { heap = h; memory = m }) cl p
          (same p x.live) refl refl (λ a. refl) (λ a. on_span p a) x;
    some_free = v.some_free;
    none_free = v.none_free;
    slot = λ cl i lt in_use.
        IsSlot-frame P law size_of batch pages at at s (record s { heap = h; memory = m }) cl i refl
          (λ a. refl) (λ a. on_slot cl i a) (v.slot cl i lt in_use);
    used = v.used;
    room = v.room;
    most = v.most;
    origin = λ cl a lt h'.
        let (q, on, inside) = v.origin cl a lt h' in
        let x = v.span cl q lt on in
        (q, on, rw (objects-Same P law size_of batch pages s.heap h cl q (same q x.live)) inside);
    bounded = v.bounded;
    home = v.home;
  }
