-- ===== src/Store/Search/Steps.antt =====
-- Sums over the jobs of a search, and the bound on its matches.
use veloria.Base.{ℕ, ◌+◌, ◌≤◌, ◌≡◌, refl, ap, List, [], ◌∷◌, ◌++◌, arith}
use veloria.Store.Search.{
  Phase, queued, started, searching, counted, finished, skipped, Job, slots, active,
}

-- the sum of a weight over the jobs
abbrev pub sum_of : (Job → ℕ) → List Job → ℕ
sum_of g [] = 0
sum_of g (j ∷ js) = g j + sum_of g js

pub sum_of-middle :
    (g : Job → ℕ) (xs : List Job) (j : Job) (ys : List Job)
    → sum_of g (xs ++ j ∷ ys) ≡ g j + sum_of g (xs ++ ys)
sum_of-middle g [] j ys = refl
sum_of-middle g (x ∷ xs) j ys = omega (arith, sum_of-middle g xs j ys)

-- a weight behind the change of one job
pub sum_of_change :
    (g : Job → ℕ) {js : List Job} (xs ys : List Job) (j k : Job)
    → js ≡ xs ++ j ∷ ys
    → sum_of g (xs ++ k ∷ ys) + g j ≡ sum_of g js + g k
sum_of_change g xs ys j k e =
    let p = sum_of-middle g xs j ys in let q = sum_of-middle g xs k ys in rw e (omega (arith, p, q))

abbrev pub slot_of : Job → ℕ
slot_of j = slots j.phase

pub active_sum : (js : List Job) → active js ≡ sum_of slot_of js
unfolding active
active_sum [] = refl
active_sum (j ∷ js) = ap (λ n. slots j.phase + n) (active_sum js)

abbrev pub search_slot : Phase → ℕ
search_slot searching = 1
search_slot queued = 0
search_slot started = 0
search_slot counted = 0
search_slot finished = 0
search_slot skipped = 0

abbrev pub searching_of : Job → ℕ
searching_of j = search_slot j.phase

search_slot_le : (p : Phase) → search_slot p ≤ slots p
unfolding slots
search_slot_le queued = omega arith
search_slot_le started = omega arith
search_slot_le searching = omega arith
search_slot_le counted = omega arith
search_slot_le finished = omega arith
search_slot_le skipped = omega arith

pub searching_active : (js : List Job) → sum_of searching_of js ≤ sum_of slot_of js
searching_active [] = omega arith
searching_active (j ∷ js) = omega (arith, search_slot_le j.phase, searching_active js)
