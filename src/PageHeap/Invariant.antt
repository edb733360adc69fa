-- ===== src/PageHeap/Invariant.antt =====
-- The invariant of a PageHeap (src/src/page_heap.h), and the rules for what its operations are made of.
pub mod Counting
pub mod Rules
pub mod Merges
pub mod Free
pub mod Coalesce
pub mod Kept
pub mod Freed
pub mod Cuts
pub mod Carved
pub mod Rounds
pub mod Released
pub mod Deleted
pub mod Searched
pub mod Added
pub mod Grown
pub mod New
pub mod SizeClass
pub mod Checked
pub mod Ranges
pub mod Start
use conan_tcmalloc.Base.{
  ℕ, ◌+◌, ◌%◌, ◌^◌, ◌<◌, ◌≡◌, refl, Bool, true, false, Option, none, some, word, if◌then◌else◌,
}
use conan_tcmalloc.PageHeap.State.{
  PageHeap, System, Run, ok, fault, out_of_fuel, M, and_then, Span, bytes,
}
use conan_tcmalloc.PageHeap.FreeLists.{is_returned}
use conan_tcmalloc.PageHeap.Geometry.{Geometry}
use conan_tcmalloc.PageHeap.Listed.{Listed}
use conan_tcmalloc.PageHeap.Tally.{normal_pages, pages_of, Counts, Owns}

-- Spans that do not overlap, free lists that agree with them, and the byte counts: of the memory from
-- the system each byte is committed or unmapped, the free bytes are those of the spans on normal lists,
-- and the spans have no more bytes than came from the system, which is less than 16 TiB. Spans that
-- are `held` are on no list, and `owed` bytes are not among the committed or unmapped ones.
pub record Inv (held : ℕ → Bool) (owed : ℕ) (h : PageHeap) : Type 0 where
  pub geometry : Geometry h.directory
  pub listed : Listed held h.spans h.lists
  pub balanced :
      (h.stats.unmapped_bytes + h.stats.committed_bytes + owed) % word ≡ h.stats.system_bytes
  pub counted : Counts (normal_pages held h.spans) h.next_span h.stats.free_bytes
  pub owned : Owns (pages_of h.spans) h.next_span h.stats.system_bytes
  pub limited : h.stats.system_bytes < 2 ^ 44

abbrev pub none_held : ℕ → Bool
none_held p = false

abbrev pub IsValid : PageHeap → Type 0
IsValid h = Inv none_held 0 h

-- What a span counts for among the unmapped bytes.
abbrev pub charge : Span → ℕ
charge s = if is_returned s.location then bytes s.length else 0

-- What TCMalloc_SystemRelease answered to some call.
abbrev pub Answered : System → Bool → Type 0
Answered sys done = (i a n : ℕ) × (done ≡ sys.release i a n)

-- A run that ends without a fault and on its fuel, and what then holds.
pub data Returns {A : Type 0} (P : A → PageHeap → Type 0) : Run A → Type 0 where
  returns : {a : A} {h : PageHeap} → P a h → Returns P (ok a h)

module _ {A : Type 0} {P : A → PageHeap → Type 0} where
  pub bind :
      {B : Type 0} {Q : B → PageHeap → Type 0} {r : Run A} {k : A → M B}
      → Returns P r
      → ((a : A) (h : PageHeap) → P a h → Returns Q (k a h))
      → Returns Q (and_then r k)
  bind (returns p) next = next _ _ p

  pub mono :
      {Q : A → PageHeap → Type 0} {r : Run A}
      → Returns P r
      → ((a : A) (h : PageHeap) → P a h → Q a h)
      → Returns Q r
  mono (returns p) weaken = returns (weaken _ _ p)

-- A test chooses the step.
pub run_if :
    {A : Type 0} {P : A → PageHeap → Type 0} (b : Bool) (x y : M A) (h : PageHeap)
    → (b ≡ true → Returns P (x h))
    → (b ≡ false → Returns P (y h))
    → Returns P ((if b then x else y) h)
run_if true x y h f g = f refl
run_if false x y h f g = g refl

-- A value that may be missing chooses the step.
pub run_option :
    {A B : Type 0} {P : A → PageHeap → Type 0} (o : Option B) (x : M A) (f : B → M A) (h : PageHeap)
    → (o ≡ none → Returns P (x h))
    → ((b : B) → o ≡ some b → Returns P (f b h))
    → Returns P ((elim o as (λ _. M A) [ none ↦ x | some b ↦ f b ]) h)
run_option none x f h p q = p refl
run_option (some b) x f h p q = q b refl

module _ {A B C : Type 0} {P : B → PageHeap → Type 0} {Q : C → PageHeap → Type 0} where
  -- Two steps with one rule, and then the others.
  pub bind₂ :
      (r : Run A) (k : A → M B) {l : B → M C}
      → Returns P (and_then r k)
      → ((b : B) (h : PageHeap) → P b h → Returns Q (l b h))
      → Returns Q (and_then r (λ a h. and_then (k a h) l))
  bind₂ (ok a h) k p next = bind p next
  bind₂ fault k p next = bind p next
  bind₂ out_of_fuel k p next = bind p next
