-- ===== src/CentralFreeList/Places.antt =====
-- A place of an object of the central lists (src/src/central_freelist.h) is no other place.
use conan_tcmalloc.Base.{ℕ, ◌≡◌, ◌≢◌, refl, true, false, ◌&&◌, ◌==◌, arith}
use conan_tcmalloc.CentralFreeList.Invariant.{
  Place, elsewhere, in_span, in_slot, given, is_span, is_slot, is_given, is_loose,
}

pub given-not_span : (cl p : ℕ) (x : Place) → is_given cl x ≡ true → is_span p x ≡ false
given-not_span cl p elsewhere h = refl
given-not_span cl p (in_span q) h = cc
given-not_span cl p (in_slot dl i) h = refl
given-not_span cl p (given dl) h = refl

pub given-not_slot : (cl dl i : ℕ) (x : Place) → is_given cl x ≡ true → is_slot dl i x ≡ false
given-not_slot cl dl i elsewhere h = refl
given-not_slot cl dl i (in_span q) h = refl
given-not_slot cl dl i (in_slot el j) h = cc
given-not_slot cl dl i (given el) h = refl

pub given-loose : (cl : ℕ) (x : Place) → is_given cl x ≡ true → is_loose cl x ≡ true
given-loose cl elsewhere h = cc
given-loose cl (in_span q) h = cc
given-loose cl (in_slot dl i) h = cc
given-loose cl (given dl) h = h

pub loose-not_span : (cl p : ℕ) (x : Place) → is_loose cl x ≡ true → is_span p x ≡ false
loose-not_span cl p elsewhere h = refl
loose-not_span cl p (in_span q) h = cc
loose-not_span cl p (in_slot dl i) h = refl
loose-not_span cl p (given dl) h = refl

pub span-not_given : (cl p : ℕ) (x : Place) → is_span p x ≡ true → is_given cl x ≡ false
span-not_given cl p elsewhere h = refl
span-not_given cl p (in_span q) h = refl
span-not_given cl p (in_slot dl i) h = refl
span-not_given cl p (given dl) h = cc

pub span-not_slot : (dl i p : ℕ) (x : Place) → is_span p x ≡ true → is_slot dl i x ≡ false
span-not_slot dl i p elsewhere h = refl
span-not_slot dl i p (in_span q) h = refl
span-not_slot dl i p (in_slot el j) h = cc
span-not_slot dl i p (given el) h = refl

pub span-not_other : (p q : ℕ) (x : Place) → is_span p x ≡ true → q ≢ p → is_span q x ≡ false
span-not_other p q elsewhere h ne = refl
span-not_other p q (in_span r) h ne = ground arith
span-not_other p q (in_slot el j) h ne = refl
span-not_other p q (given el) h ne = refl

pub slot-loose : (t i dl : ℕ) (x : Place) → is_slot t i x ≡ true → is_loose dl x ≡ (t == dl)
slot-loose t i dl elsewhere h = cc
slot-loose t i dl (in_span q) h = cc
slot-loose t i dl (in_slot el j) h = ground arith
slot-loose t i dl (given el) h = cc

pub slot-other :
    (t i dl j : ℕ) (x : Place)
    → is_slot t i x ≡ true
    → (dl == t) && (j == i) ≡ false
    → is_slot dl j x ≡ false
slot-other t i dl j elsewhere h ne = cc
slot-other t i dl j (in_span q) h ne = cc
slot-other t i dl j (in_slot el k) h ne = ground arith
slot-other t i dl j (given el) h ne = cc

pub slot-not_span : (t i q : ℕ) (x : Place) → is_slot t i x ≡ true → is_span q x ≡ false
slot-not_span t i q elsewhere h = cc
slot-not_span t i q (in_span r) h = cc
slot-not_span t i q (in_slot el k) h = refl
slot-not_span t i q (given el) h = cc

pub given-is_loose : (t dl : ℕ) (x : Place) → is_given t x ≡ true → is_loose dl x ≡ (t == dl)
given-is_loose t dl elsewhere h = cc
given-is_loose t dl (in_span r) h = cc
given-is_loose t dl (in_slot el k) h = cc
given-is_loose t dl (given el) h = ground arith

pub slot-not_given : (t i dl : ℕ) (x : Place) → is_slot t i x ≡ true → is_given dl x ≡ false
slot-not_given t i dl elsewhere h = cc
slot-not_given t i dl (in_span r) h = refl
slot-not_given t i dl (in_slot el k) h = refl
slot-not_given t i dl (given el) h = cc

pub given_one : (cl dl : ℕ) (x : Place) → is_given cl x ≡ true → is_given dl x ≡ (cl == dl)
given_one cl dl elsewhere h = cc
given_one cl dl (in_span r) h = cc
given_one cl dl (in_slot el k) h = cc
given_one cl dl (given el) h = ground arith

pub slot-is_loose : (cl i : ℕ) (x : Place) → is_slot cl i x ≡ true → is_loose cl x ≡ true
slot-is_loose cl i elsewhere h = cc
slot-is_loose cl i (in_span r) h = cc
slot-is_loose cl i (in_slot el k) h = ground arith
slot-is_loose cl i (given el) h = cc
