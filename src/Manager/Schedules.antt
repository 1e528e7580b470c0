-- ===== src/Manager/Schedules.antt =====
-- A run of tasks under any order in which the goroutines finish, and a context that may be done.
use mathlib.Core.List.{Perm, Permᴰ, perm_middle}
use mathlib.Core.Logic.{∥∥₁_elim, ∥∥₁_prop}
use mathlib.Core.List.Perm
use veloria.Base.{
  ℕ, zero, suc, ◌+◌, ◌≤◌, ◌<◌, ◌≡◌, refl, sym, ◌∙◌, ap, subst, Bool, true, false, Option, List, [],
  ◌∷◌, ◌++◌, arith, select, take, length, ltb, Bytes, if◌then◌else◌, ◌⊎◌, inl, inr, Bool-cases,
}
use veloria.Manager.{IndexTask, TaskError, Journal, dispatch, Schedule, run_scheduled}
use veloria.Manager.Runs.{run_fails, calls_of, records_of, run_tasks_outcome}

next : (m i : ℕ) → suc m + i ≡ m + suc i
next m i = omega arith

zero_add : (i : ℕ) → 0 + i ≡ i
zero_add i = omega arith

dispatch-take :
    (is_done : ℕ → Bool) (m : ℕ) (ts : List IndexTask) (k : ℕ)
    → k ≤ length ts
    → ((i : ℕ) → i < k → is_done (m + i) ≡ false)
    → (k ≡ length ts) ⊎ (is_done (m + k) ≡ true)
    → dispatch is_done m ts ≡ (take k ts, ltb k (length ts))
unfolding dispatch
dispatch-take is_done m [] zero h live end = refl
dispatch-take is_done m [] (suc k) h live end = absurd (omega (arith, h))
dispatch-take is_done m (t ∷ ts) zero h live (inl e) = absurd (omega (arith, e))
dispatch-take is_done m (t ∷ ts) zero h live (inr e) =
    let done : is_done m ≡ true = ap is_done (omega arith) ∙ e in
    let less : ltb 0 (suc (length ts)) ≡ true = ground arith in rw (done, less) refl
dispatch-take is_done m (t ∷ ts) (suc k) h live end =
    let here : is_done m ≡ false = ap is_done (omega arith) ∙ live 0 (omega arith) in
    let rest =
      dispatch-take is_done (suc m) ts k (omega (arith, h))
        (λ i l. ap is_done (next m i) ∙ live (suc i) (omega (arith, l)))
        (elim end [ inl e ↦ inl (omega (arith, e)) | inr e ↦ inr (ap is_done (next m k) ∙ e) ]) in
    let less : ltb (suc k) (suc (length ts)) ≡ ltb k (length ts) = ground arith in
    rw (here, rest, less) refl

swap_blocks : {A : Type 0} (xs ys zs : List A) → Perm (xs ++ (ys ++ zs)) (ys ++ (xs ++ zs))
swap_blocks [] ys zs = Perm.refl (ys ++ zs)
swap_blocks (x ∷ xs) ys zs =
    Perm.trans (Perm.cons x (swap_blocks xs ys zs)) (Perm.symm (perm_middle ys (xs ++ zs)))

eq_perm : {A : Type 0} {xs ys : List A} → xs ≡ ys → Perm xs ys
eq_perm {xs} e = subst (λ zs. Perm xs zs) e (Perm.refl xs)

-- A function that goes through a list element by element keeps permutations.
module _ {A B : Type 0} (f : A → List B) (g : List A → List B)
    (step : (x : A) (xs : List A) → g (x ∷ xs) ≡ f x ++ g xs) where
  blocks_permᴰ : {xs ys : List A} → Permᴰ xs ys → Perm (g xs) (g ys)
  blocks_permᴰ Permᴰ.nil = Perm.refl (g [])
  blocks_permᴰ (Permᴰ.cons {a} {b} {l₁} {l₂} e d) = Perm.trans (eq_perm (step a l₁)) (
      Perm.trans (Perm.append_left (f a) (blocks_permᴰ d))
        (eq_perm (ap (λ c. f c ++ g l₂) e ∙ sym (step b l₂))))
  blocks_permᴰ (Permᴰ.swap {a} {b} {a'} {b'} {l} e d) =
      Perm.trans (eq_perm (step a (b ∷ l) ∙ ap (λ zs. f a ++ zs) (step b l))) (
        Perm.trans (swap_blocks (f a) (f b) (g l)) (
          eq_perm (
            ap (λ c. f c ++ (f a ++ g l)) d
            ∙ ap (λ c. f a' ++ (f c ++ g l)) e
            ∙ ap (λ zs. f a' ++ zs) (sym (step b' l))
            ∙ sym (step a' (b' ∷ l)))))
  blocks_permᴰ (Permᴰ.trans d e) = Perm.trans (blocks_permᴰ d) (blocks_permᴰ e)

  blocks_perm : {xs ys : List A} → Perm xs ys → Perm (g xs) (g ys)
  blocks_perm {xs} {ys} p = ∥∥₁_elim p ∥∥₁_prop blocks_permᴰ

select_step :
    {A : Type 0} (p : A → Bool) (x : A) (xs : List A)
    → select p (x ∷ xs) ≡ (if p x then x ∷ [] else []) ++ select p xs
select_step p x xs = ground arith

-- Suppose that goroutines finish in an order that is a permutation of them, and that the loop starts the
-- first `n` tasks: before each the context is not done, and it is done then or they are all. The records
-- of the sources grow, in that order, by one success for each of these that succeeds, one failure for
-- each that fails and nothing for a skipped one, nor for one whose type has no source; so whatever the
-- order is, they grow by the same up to order. What is returned is, up to order, the tasks that failed
-- other than by a skipped download: of all tasks, or, if the loop stops before the last, of those that
-- finished before it returned.
pub run_scheduled_outcome :
    (has_source : Bytes → Bool) (run : IndexTask → Option TaskError) (c : Schedule)
    (tasks : List IndexTask) (j : Journal) (n : ℕ)
    → ((ts : List IndexTask) → Perm (c.order ts) ts)
    → n ≤ length tasks
    → ((i : ℕ) → i < n → c.is_done i ≡ false)
    → (n ≡ length tasks) ⊎ (c.is_done n ≡ true)
    → ((run_scheduled has_source run c tasks j).1.records
        ≡ j.records ++ records_of has_source run (c.order (take n tasks)))
      × Perm
          (records_of has_source run (c.order (take n tasks)))
          (records_of has_source run (take n tasks))
      × Perm (run_scheduled has_source run c tasks j).0 (
          select (run_fails run) (
            if ltb n (length tasks)
            then take c.finished (c.order (take n tasks))
            else take n tasks))
unfolding run_scheduled
run_scheduled_outcome has_source run c tasks j n any size live end =
    let started = take n tasks in
    let loop : dispatch c.is_done 0 tasks ≡ (started, ltb n (length tasks)) =
      dispatch-take c.is_done 0 tasks n size (λ i l. ap c.is_done (zero_add i) ∙ live i l)
        (elim end [ inl e ↦ inl e | inr e ↦ inr (ap c.is_done (zero_add n) ∙ e) ]) in
    let whole = run_tasks_outcome has_source run (c.order started) j in
    let part = run_tasks_outcome has_source run (take c.finished (c.order started)) j in
    (
      rw loop whole.1,
      blocks_perm (calls_of has_source run) (records_of has_source run) (λ t ts. refl)
          (any started),
      elim (Bool-cases (ltb n (length tasks))) [
        | inl e ↦ rw (loop, e) (eq_perm part.0)
        | inr e ↦
            rw (loop, e)
              (Perm.trans (eq_perm whole.0) (
                blocks_perm (λ t. if run_fails run t then t ∷ [] else []) (select (run_fails run))
                  (select_step (run_fails run)) (any started)))
      ],
    )
