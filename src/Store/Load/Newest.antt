-- ===== src/Store/Load/Newest.antt =====
-- Which index of a slug is loaded.
use mathlib.Core.List.{Mem, mem-cons_self, mem-cons_of_mem}
use mathlib.Core.List.Perm
use veloria.Base.{
  ℕ, ◌≡◌, sym, subst, ◌∙◌, ◌≤◌, Bool, true, false, Option, none, some, List, [], ◌∷◌, ◌++◌, arith,
  All, Bool-cases, Option-cases, inl, inr, ◌⊎◌, if◌then◌else◌, or_default, Bytes, bytes_eq,
  bytes_eq_iff, append_assoc, append-nil,
}
use veloria.Base.Maps.{lookup, Distinct, lookup-insert, insert-Distinct}
use veloria.Base.Exchange.{
  exchange_sort, IsOrdered, exchange_sort-IsOrdered, exchange_sort-perm, All-exchange_sort,
}
use veloria.Store.Load.{IndexInfo, Groups, parse_name, add_dir, group_dirs, newer, try_open}

newer_asymm : (a b : IndexInfo) → newer a b ≡ true → newer b a ≡ false
unfolding newer
newer_asymm a b h = ground arith

newer_trans : (a b c : IndexInfo) → newer b a ≡ false → newer c b ≡ false → newer c a ≡ false
unfolding newer
newer_trans a b c h k = ground arith

newer_irrefl : (a : IndexInfo) → newer a a ≡ false
unfolding newer
newer_irrefl a = ground arith

newer-le : (i j : IndexInfo) → newer j i ≡ false → j.timestamp ≤ i.timestamp
unfolding newer
newer-le i j h = ground arith

module _ (opens : Bytes → Option ℕ) where
  -- a directory that is not preferred to `i`
  abbrev pub IsBehind : IndexInfo → IndexInfo → Type 0
  IsBehind i j = (opens j.path ≡ none) ⊎ (j.timestamp ≤ i.timestamp)

  -- `p` is a directory of the list with its index, and none of the list that opens is newer
  abbrev pub IsNewest : List IndexInfo → IndexInfo × ℕ → Type 0
  IsNewest is p = Mem p.0 is × (opens p.0.path ≡ some p.1) × All (IsBehind p.0) is

  -- what the attempts to open the directories of a slug find
  abbrev pub IsChosen : List IndexInfo → Option (IndexInfo × ℕ) → Type 0
  IsChosen is none = All (λ j. opens j.path ≡ none) is
  IsChosen is (some p) = IsNewest is p

  All-IsBehind :
      (i : IndexInfo) (js : List IndexInfo) → All (λ j. newer j i ≡ false) js → All (IsBehind i) js
  All-IsBehind i [] h = tt
  All-IsBehind i (j ∷ js) h = (inr (newer-le i j h.0), All-IsBehind i js h.1)

  add_failed :
      (i : IndexInfo) (is : List IndexInfo) (o : Option (IndexInfo × ℕ))
      → opens i.path ≡ none
      → IsChosen is o
      → IsChosen (i ∷ is) o
  add_failed i is none e h = (e, h)
  add_failed i is (some p) e h = (mem-cons_of_mem _ h.0, h.1, (inl e, h.2))

  try_open_failed :
      (i : IndexInfo) (is : List IndexInfo)
      → opens i.path ≡ none
      → (try_open opens is).0 ≡ (try_open opens (i ∷ is)).0
  unfolding try_open
  try_open_failed i is e = rw (e, try_open)

  try_open_opened :
      (i : IndexInfo) (is : List IndexInfo) (idx : ℕ)
      → opens i.path ≡ some idx
      → some (i, idx) ≡ (try_open opens (i ∷ is)).0
  unfolding try_open
  try_open_opened i is idx e = rw (e, try_open)

  try_open-IsChosen : (is : List IndexInfo) → IsOrdered newer is → IsChosen is (try_open opens is).0
  try_open-IsChosen [] h = unfold try_open in tt
  try_open-IsChosen (i ∷ is) h = elim (Option-cases (opens i.path)) [
    | inl e ↦
        subst (IsChosen (i ∷ is)) (try_open_failed i is e)
          (add_failed i is (try_open opens is).0 e (try_open-IsChosen is h.1))
    | inr (idx, e) ↦
        subst (IsChosen (i ∷ is)) (try_open_opened i is idx e)
          (mem-cons_self, e, (inr (omega arith), All-IsBehind i is h.0))
  ]

  -- the directory that is loaded for a slug
  abbrev pub chosen : List IndexInfo → Option (IndexInfo × ℕ)
  chosen is = (try_open opens (exchange_sort newer is)).0

  unsorted :
      (is : List IndexInfo) (o : Option (IndexInfo × ℕ))
      → IsChosen (exchange_sort newer is) o
      → IsChosen is o
  unsorted is none h = All-exchange_sort newer (λ j. opens j.path ≡ none) is h
  unsorted is (some p) h = (
    Perm.subset (exchange_sort-perm newer is) p.0 h.0,
    h.1,
    All-exchange_sort newer (IsBehind p.0) is h.2,
  )

  pub chosen-IsChosen : (is : List IndexInfo) → IsChosen is (chosen is)
  chosen-IsChosen is = unsorted is (chosen is) (
      try_open-IsChosen (exchange_sort newer is)
        (exchange_sort-IsOrdered newer newer_asymm newer_trans newer_irrefl is))

-- the directories of a slug
abbrev pub infos_step : Bytes → Bytes → List IndexInfo → List IndexInfo
infos_step slug name rest =
    if bytes_eq (parse_name name).0 slug
    then record { path = name; timestamp = (parse_name name).1 } ∷ rest
    else rest

abbrev pub infos_of : Bytes → List (Bytes × Bool) → List IndexInfo
infos_of slug [] = []
infos_of slug ((name, is_dir) ∷ ds) =
    if is_dir then infos_step slug name (infos_of slug ds) else infos_of slug ds

-- the directories in a group, if there is one
abbrev pub held : Option (List IndexInfo) → List IndexInfo
held o = or_default o []

add_dir-held :
    (name slug : Bytes) (m : Groups) (rest : List IndexInfo)
    → held (lookup slug (add_dir name m)) ++ rest
      ≡ held (lookup slug m) ++ infos_step slug name rest
unfolding add_dir
add_dir-held name slug m rest =
    let n = (parse_name name).0 in
    let i : IndexInfo = record { path = name; timestamp = (parse_name name).1 } in
    let l = lookup-insert n slug (held (lookup n m) ++ i ∷ []) m in
    elim (Bool-cases (bytes_eq n slug)) [
      | inl e ↦
          let same = (bytes_eq_iff n slug).0 e in
          rw (l, e) (rw same (append_assoc (held (lookup slug m)) (i ∷ []) rest))
      | inr e ↦ rw (l, e)
    ]

group_dirs-held :
    (dirs : List (Bytes × Bool)) (slug : Bytes) (m : Groups)
    → held (lookup slug (group_dirs dirs m)) ≡ held (lookup slug m) ++ infos_of slug dirs
unfolding group_dirs
group_dirs-held [] slug m = sym (append-nil _)
group_dirs-held ((name, true) ∷ ds) slug m =
    group_dirs-held ds slug (add_dir name m) ∙ add_dir-held name slug m (infos_of slug ds)
group_dirs-held ((name, false) ∷ ds) slug m = group_dirs-held ds slug m

pub infos_held :
    (dirs : List (Bytes × Bool)) (slug : Bytes)
    → held (lookup slug (group_dirs dirs [])) ≡ infos_of slug dirs
infos_held dirs slug = unfold lookup in group_dirs-held dirs slug []

pub group_dirs-Distinct :
    (dirs : List (Bytes × Bool)) (m : Groups) → Distinct m → Distinct (group_dirs dirs m)
unfolding group_dirs
group_dirs-Distinct [] m h = h
group_dirs-Distinct ((name, true) ∷ ds) m h =
    group_dirs-Distinct ds (add_dir name m) (unfold add_dir in insert-Distinct _ _ m h)
group_dirs-Distinct ((name, false) ∷ ds) m h = group_dirs-Distinct ds m h
