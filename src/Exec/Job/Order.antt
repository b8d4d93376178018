-- ===== src/Exec/Job/Order.antt =====
-- The numbers of the jobs stand in order, each once; what that says of finding and removing.
use opsh_actual.Base.{
  ℕ, suc, ◌+◌, ◌≤◌, ◌<◌, ◌≡◌, refl, ap, Bool, false, ◌==◌, ◌||◌, if◌then◌else◌, none, List, [], ◌∷◌,
  ◌++◌, arith, Bool-cases, inl, inr,
}
use opsh_actual.Exec.Job.{Job, find_job}

abbrev pub ids : List Job → List ℕ
ids [] = []
ids (j ∷ js) = j.id ∷ ids js

-- The numbers grow, from `low` on and below `high`.
abbrev pub Ascending : ℕ → ℕ → List ℕ → Type 0
Ascending low high [] = low ≤ high
Ascending low high (i ∷ is) = (low ≤ i) × Ascending (suc i) high is

abbrev pub is_in : ℕ → List ℕ → Bool
is_in q [] = false
is_in q (i ∷ is) = i == q || is_in q is

pub Ascending-le : (low high : ℕ) (is : List ℕ) → Ascending low high is → low ≤ high
Ascending-le low high [] h = h
Ascending-le low high (i ∷ is) (le, h) = omega (arith, Ascending-le (suc i) high is h)

pub Ascending-lower :
    (low low' high : ℕ) (is : List ℕ) → low' ≤ low → Ascending low high is → Ascending low' high is
Ascending-lower low low' high [] le h = omega arith
Ascending-lower low low' high (i ∷ is) le (le', h) = (omega arith, h)

-- A number outside the range is not there.
pub is_in-below :
    (low high q : ℕ) (is : List ℕ) → q < low → Ascending low high is → is_in q is ≡ false
is_in-below low high q [] lt h = refl
is_in-below low high q (i ∷ is) lt (le, h) =
    ground (arith, is_in-below (suc i) high q is (omega arith) h)

pub is_in-above :
    (low high q : ℕ) (is : List ℕ) → high ≤ q → Ascending low high is → is_in q is ≡ false
is_in-above low high q [] le h = refl
is_in-above low high q (i ∷ is) le (le', h) =
    ground (arith, is_in-above (suc i) high q is le h, Ascending-le (suc i) high is h)

-- The next number goes to the end.
pub Ascending-push :
    (low high : ℕ) (is : List ℕ)
    → Ascending low high is
    → Ascending low (high + 1) (is ++ high ∷ [])
Ascending-push low high [] h = (h, omega arith)
Ascending-push low high (i ∷ is) (le, h) = (le, Ascending-push (suc i) high is h)

pub ids-append : (js ks : List Job) → ids (js ++ ks) ≡ ids js ++ ids ks
ids-append [] ks = refl
ids-append (j ∷ js) ks = ap (λ is. j.id ∷ is) (ids-append js ks)

pub is_in-append : (q : ℕ) (is ks : List ℕ) → is_in q (is ++ ks) ≡ (is_in q is || is_in q ks)
is_in-append q [] ks = refl
is_in-append q (i ∷ is) ks = ground (arith, is_in-append q is ks)

-- A job is found exactly under the numbers of the table.
pub find-is_in :
    (q : ℕ) (js : List Job) → is_in q (ids js) ≡ false → find_job (λ j. j.id == q) js ≡ none
unfolding find_job
find-is_in q [] h = refl
find-is_in q (j ∷ js) h = ground (arith, find-is_in q js)

-- The list without one number.
abbrev pub without : ℕ → List ℕ → List ℕ
without q [] = []
without q (i ∷ is) = if i == q then is else i ∷ without q is

pub Ascending-without :
    (low high q : ℕ) (is : List ℕ) → Ascending low high is → Ascending low high (without q is)
Ascending-without low high q [] h = h
Ascending-without low high q (i ∷ is) (le, h) = elim (Bool-cases (i == q)) [
  | inl same ↦ rw same (Ascending-lower (suc i) low high is (omega arith) h)
  | inr other ↦ rw other (le, Ascending-without (suc i) high q is h)
]

pub is_in-without :
    (low high q r : ℕ) (is : List ℕ)
    → Ascending low high is
    → is_in r (without q is) ≡ (if r == q then false else is_in r is)
is_in-without low high q r [] h = ground arith
is_in-without low high q r (i ∷ is) (le, h) =
    ground
      (arith, is_in-without (suc i) high q r is h, is_in-below (suc i) high i is (omega arith) h)
