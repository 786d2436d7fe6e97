-- ===== src/Base/Vecs.antt =====
-- Arrays of shared cells: a cell is found by its index, and the length is kept beside.
use Prim.Native.Nat.{ℕ, zero, suc, ◌+◌, ◌≤◌, ◌<◌}
use mathlib.Core.Path.{◌≡◌, refl}
use mathlib.Core.Logic.{◌≢◌, inl, inr}
use mathlib.Core.Bool.{Bool, true, false}
use native.Mathlib.Omega.{arith}
use tansiv.Base.Tests.{◌==◌, if◌then◌else◌, Bool-cases}

module _ {ℓ} {A : Type ℓ} where
  -- The array `f` with `v` stored at index `i`.
  abbrev pub update : (ℕ → A) → ℕ → A → ℕ → A
  update f i v j = if i == j then v else f j

  pub update_self : (f : ℕ → A) (i : ℕ) (v : A) → update f i v i ≡ v
  update_self f i v = ground arith

  pub update_ne : (f : ℕ → A) (i j : ℕ) (v : A) → i ≢ j → update f i v j ≡ f j
  update_ne f i j v h = ground arith

abbrev pub bit : Bool → ℕ
bit true = 1
bit false = 0

-- How many of the first `n` flags are set.
abbrev pub count : ℕ → (ℕ → Bool) → ℕ
count zero f = 0
count (suc n) f = bit (f n) + count n f

pub count-le : (n : ℕ) (f : ℕ → Bool) → count n f ≤ n
count-le zero f = omega arith
count-le (suc n) f = ground (arith, count-le n f)

pub count-update_above :
    (n i : ℕ) (f : ℕ → Bool) (b : Bool) → n ≤ i → count n (update f i b) ≡ count n f
count-update_above zero i f b h = refl
count-update_above (suc n) i f b h = ground (arith, count-update_above n i f b)

-- Storing a flag moves the count by the change of that flag.
pub count-update :
    (n i : ℕ) (f : ℕ → Bool) (b : Bool)
    → i < n
    → count n (update f i b) + bit (f i) ≡ count n f + bit b
count-update zero i f b h = elim h [ ]
count-update (suc n) i f b h = elim (Bool-cases (i == n)) [
  | inl e ↦ ground (arith, count-update_above n i f b)
  | inr ne ↦ ground (arith, count-update n i f b)
]

pub count_all : (n : ℕ) (f : ℕ → Bool) → ((i : ℕ) → i < n → f i ≡ true) → count n f ≡ n
count_all zero f h = refl
count_all (suc n) f h = ground (arith, h n, count_all n f (λ i lt. h i (omega arith)))

pub count_none : (n : ℕ) (f : ℕ → Bool) → ((i : ℕ) → i < n → f i ≡ false) → count n f ≡ 0
count_none zero f h = refl
count_none (suc n) f h = ground (arith, h n, count_none n f (λ i lt. h i (omega arith)))

-- A full count leaves no flag unset.
pub count_full : (n : ℕ) (f : ℕ → Bool) → count n f ≡ n → (i : ℕ) → i < n → f i ≡ true
count_full zero f e i h = elim h [ ]
count_full (suc n) f e i h = elim (Bool-cases (i == n)) [
  | inl q ↦ ground (arith, count-le n f)
  | inr q ↦ count_full n f (ground (arith, count-le n f)) i (ground arith)
]

-- The sum of the first `n` entries.
abbrev pub sum : ℕ → (ℕ → ℕ) → ℕ
sum zero f = 0
sum (suc n) f = f n + sum n f

pub sum_same : (n : ℕ) (f g : ℕ → ℕ) → ((j : ℕ) → f j ≡ g j) → sum n f ≡ sum n g
sum_same zero f g h = refl
sum_same (suc n) f g h = omega (arith, h n, sum_same n f g h)

sum_same_above : (n i : ℕ) (f g : ℕ → ℕ) → n ≤ i → ((j : ℕ) → j ≢ i → f j ≡ g j) → sum n f ≡ sum n g
sum_same_above zero i f g le h = refl
sum_same_above (suc n) i f g le h =
    omega (arith, h n (omega arith), sum_same_above n i f g (omega arith) h)

-- A change of one entry moves the sum by the change of that entry.
pub sum_change :
    (n i : ℕ) (f g : ℕ → ℕ) → i < n → ((j : ℕ) → j ≢ i → f j ≡ g j) → sum n f + g i ≡ sum n g + f i
sum_change zero i f g lt h = elim lt [ ]
sum_change (suc n) i f g lt h = elim (Bool-cases (i == n)) [
  | inl e ↦ ground (arith, sum_same_above n i f g (ground arith) h)
  | inr ne ↦ ground (arith, h n (ground arith), sum_change n i f g (ground arith) h)
]

pub sum-add : (n : ℕ) (f g : ℕ → ℕ) → sum n (λ i. f i + g i) ≡ sum n f + sum n g
sum-add zero f g = omega arith
sum-add (suc n) f g = omega (arith, sum-add n f g)

pub count-sum : (n : ℕ) (f : ℕ → Bool) → count n f ≡ sum n (λ i. bit (f i))
count-sum zero f = refl
count-sum (suc n) f = omega (arith, count-sum n f)
