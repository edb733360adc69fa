-- ===== src/PageHeap/Geometry/Stock.antt =====
-- The Span objects that the allocator of src/src/span.cc still has, and those in use.
use conan_tcmalloc.Base.{ℕ, ◌≤◌, ◌<◌, ◌≡◌, true, none, some, ◌∷◌, arith, has, Distinct}
use conan_tcmalloc.PageMap.{update}
use conan_tcmalloc.PageHeap.State.{Span, Directory}
use conan_tcmalloc.PageHeap.Spans.{fresh, allocated}

-- An object that is deleted or was never handed out holds no span, nor does nullptr.
pub record Stock (d : Directory) : Type 0 where
  pub null : d.spans 0 ≡ none
  pub born : 0 < d.next_span
  pub unborn : (p : ℕ) → d.next_span ≤ p → d.spans p ≡ none
  pub distinct : Distinct d.deleted
  pub dead : (p : ℕ) → has p d.deleted ≡ true → d.spans p ≡ none
  pub dead_born : (p : ℕ) → has p d.deleted ≡ true → (0 < p) × (p < d.next_span)

-- The next object is none that is in use, and not nullptr.
pub fresh-none : (d : Directory) → Stock d → d.spans (fresh d) ≡ none
fresh-none d k = ground (arith, k.unborn d.next_span, k.dead (fresh d))

pub fresh_pos : (d : Directory) → Stock d → 0 < fresh d
fresh_pos d k = ground (arith, k.dead_born (fresh d))

pub Stock-allocated :
    (d : Directory) (s : Span)
    → Stock d
    → Stock (record (allocated d) { spans = update d.spans (fresh d) (some s) })
Stock-allocated d s k = record {
  null = ground (arith, k.null, fresh_pos d k);
  born = ground (arith, k.born);
  unborn = λ q h. ground (arith, k.unborn q, k.dead_born (fresh d), k.unborn d.next_span);
  distinct = ground (arith, k.distinct);
  dead = λ q h. ground (arith, k.dead q, k.distinct, k.dead_born q);
  dead_born = λ q h. ground (arith, k.dead_born q);
}

pub Stock-update :
    (d : Directory) (p : ℕ) (s t : Span)
    → d.spans p ≡ some s
    → Stock d
    → Stock (record d { spans = update d.spans p (some t) })
Stock-update d p s t e k = record {
  null = ground (arith, k.null);
  born = k.born;
  unborn = λ q h. ground (arith, k.unborn q h);
  distinct = k.distinct;
  dead = λ q h. ground (arith, k.dead q h);
  dead_born = k.dead_born;
}

pub Stock-delete :
    (d : Directory) (p : ℕ) (s : Span)
    → d.spans p ≡ some s
    → Stock d
    → Stock (record d { spans = update d.spans p none; deleted = p ∷ d.deleted })
Stock-delete d p s e k = record {
  null = ground (arith, k.null);
  born = k.born;
  unborn = λ q h. ground (arith, k.unborn q h);
  distinct = (ground (arith, k.dead p), k.distinct);
  dead = λ q h. ground (arith, k.dead q);
  dead_born = λ q h. ground (arith, k.dead_born q, k.null, k.unborn p);
}

-- The numbers of spans are below the next one.
pub lt-next_span :
    (d : Directory) {p : ℕ} {s : Span} → Stock d → d.spans p ≡ some s → p < d.next_span
lt-next_span d {p} k e = ground (arith, k.unborn p)

pub fresh-lt : (d : Directory) → Stock d → fresh d < (allocated d).next_span
fresh-lt d k = ground (arith, k.dead_born (fresh d))

pub next_span-le : (d : Directory) → d.next_span ≤ (allocated d).next_span
next_span-le d = ground arith
