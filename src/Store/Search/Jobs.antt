-- ===== src/Store/Search/Jobs.antt =====
-- Changes of one job, in predicates on all jobs and in the list of the extensions.
use mathlib.Core.List.{Memᴰ}
use veloria.Base.{◌≡◌, refl, sym, ap, ◌∙◌, subst, List, [], ◌∷◌, ◌++◌, All}
use veloria.Store.{Extension}
use veloria.Store.Search.{Phase, Job, job, queue}

module _ {A : Type 0} (P : A → Type 0) where
  All_replace : (xs ys : List A) (j k : A) → P k → All P (xs ++ j ∷ ys) → All P (xs ++ k ∷ ys)
  All_replace [] ys j k p (_, ps) = (p, ps)
  All_replace (x ∷ xs) ys j k p (a, ps) = (a, All_replace xs ys j k p ps)

  pub All_change :
      {js : List A} (xs ys : List A) (j k : A)
      → js ≡ xs ++ j ∷ ys
      → P k
      → All P js
      → All P (xs ++ k ∷ ys)
  All_change xs ys j k e p a = All_replace xs ys j k p (subst (All P) e a)

pub All_map :
    {A : Type 0} {P Q : A → Type 0} (xs : List A) → ((a : A) → P a → Q a) → All P xs → All Q xs
All_map [] f a = a
All_map (x ∷ xs) f (a, ps) = (f x a, All_map xs f ps)

pub Mem-left : {A : Type 0} {a : A} (xs ys : List A) → Memᴰ a xs → Memᴰ a (xs ++ ys)
Mem-left _ ys (Memᴰ.head e) = Memᴰ.head e
Mem-left _ ys (Memᴰ.tail {xs = xs} h) = Memᴰ.tail (Mem-left xs ys h)

pub Mem-last : {A : Type 0} (a : A) (xs : List A) → Memᴰ a (xs ++ a ∷ [])
Mem-last a [] = Memᴰ.head refl
Mem-last a (x ∷ xs) = Memᴰ.tail (Mem-last a xs)

unfoldable pub extensions_of : List Job → List Extension
extensions_of [] = []
extensions_of (j ∷ js) = j.extension ∷ extensions_of js

extensions_replace :
    (xs ys : List Job) (e : Extension) (p q : Phase)
    → extensions_of (xs ++ job e q ∷ ys) ≡ extensions_of (xs ++ job e p ∷ ys)
unfolding extensions_of
extensions_replace [] ys e p q = refl
extensions_replace (x ∷ xs) ys e p q = ap (λ l. x.extension ∷ l) (extensions_replace xs ys e p q)

pub extensions_change :
    {js : List Job} {es : List Extension} (xs ys : List Job) (e : Extension) (p q : Phase)
    → js ≡ xs ++ job e p ∷ ys
    → extensions_of js ≡ es
    → extensions_of (xs ++ job e q ∷ ys) ≡ es
extensions_change xs ys e p q k h = extensions_replace xs ys e p q ∙ (sym (ap extensions_of k) ∙ h)

pub extensions_queue : (es : List Extension) → extensions_of (queue es) ≡ es
unfolding extensions_of queue
extensions_queue [] = refl
extensions_queue (e ∷ es) = ap (λ l. e ∷ l) (extensions_queue es)
