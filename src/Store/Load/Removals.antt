-- ===== src/Store/Load/Removals.antt =====
-- Which directories the loading of indexes removes.
use veloria.Base.{
  ℕ, ◌≡◌, ◌≢◌, refl, sym, ap, subst, Bool, true, false, Option, none, some, List, [], ◌∷◌, ◌++◌,
  arith, All, All-append, Bool-cases, Option-cases, inl, inr, ◌⊎◌, Bytes, bytes_eq, is_some, not,
  ◌&&◌, bytes_eq_iff, bytes_eq_refl,
}
use veloria.Base.Maps.{lookup, Distinct}
use veloria.Base.Exchange.{exchange_sort, exchange_sort-All}
use veloria.Store.{Store}
use veloria.Store.Load.{
  IndexInfo, Groups, parse_name, group_dirs, newer, try_open, legacy, install, load_group,
  load_groups, load_indexes,
}
use veloria.Store.Load.Newest.{chosen, infos_of, infos_step, held, infos_held, group_dirs-Distinct}

-- the directory belongs to the slug
abbrev OfSlug : Bytes → IndexInfo → Type 0
OfSlug slug i = (parse_name i.path).0 ≡ slug

infos_of-OfSlug :
    (slug : Bytes) (dirs : List (Bytes × Bool)) → All (OfSlug slug) (infos_of slug dirs)
infos_of-OfSlug slug [] = tt
infos_of-OfSlug slug ((name, false) ∷ ds) = infos_of-OfSlug slug ds
infos_of-OfSlug slug ((name, true) ∷ ds) = elim (Bool-cases (bytes_eq (parse_name name).0 slug)) [
  | inl e ↦ rw (e, infos_step) ((bytes_eq_iff _ slug).0 e, infos_of-OfSlug slug ds)
  | inr e ↦ rw (e, infos_step) (infos_of-OfSlug slug ds)
]

-- each group holds the directories of its slug
abbrev IsGrouped : List (Bytes × Bool) → Groups → Type 0
IsGrouped dirs m = All (λ g. g.1 ≡ infos_of g.0 dirs) m

IsGrouped-from :
    (dirs : List (Bytes × Bool)) (m : Groups)
    → Distinct m
    → ((k : Bytes) → is_some (lookup k m) ≡ true → held (lookup k m) ≡ infos_of k dirs)
    → IsGrouped dirs m
IsGrouped-from dirs [] d h = tt
IsGrouped-from dirs ((k, is) ∷ m) d h =
    let found : lookup k ((k, is) ∷ m) ≡ some is = unfold lookup in rw (bytes_eq_refl k) in
    let head : is ≡ infos_of k dirs =
      subst (λ o. is_some o ≡ true → held o ≡ infos_of k dirs) found (h k) refl in
    let rest = λ (j : Bytes) (e : is_some (lookup j m) ≡ true).
      let other : lookup j ((k, is) ∷ m) ≡ lookup j m =
        unfold lookup in ground (arith, bytes_eq_iff k j, d.0, e, ap (λ x. is_some (lookup x m))) in
      subst (λ o. is_some o ≡ true → held o ≡ infos_of j dirs) other (h j) e in
    (head, IsGrouped-from dirs m d.1 rest)

module _ (opens : Bytes → Option ℕ) (dirs : List (Bytes × Bool)) where
  -- It does not open, or it is a legacy directory of a slug for which another one is loaded.
  abbrev pub IsSuperseded : Bytes → Type 0
  IsSuperseded p =
      (opens p ≡ none)
      ⊎ ((q : IndexInfo × ℕ) × (chosen opens (infos_of (parse_name p).0 dirs) ≡ some q)
          × (p ≢ q.0.path)
          × (p ≢ (parse_name p).0))

  try_open-failed : (is : List IndexInfo) → All IsSuperseded (try_open opens is).1
  unfolding try_open
  try_open-failed [] = tt
  try_open-failed (i ∷ is) = elim (Option-cases (opens i.path)) [
    | inl e ↦ rw (e, try_open) (inl e, try_open-failed is)
    | inr (idx, e) ↦ rw (e, try_open) tt
  ]

  legacy-IsSuperseded :
      (slug : Bytes) (q : IndexInfo × ℕ) (is : List IndexInfo)
      → chosen opens (infos_of slug dirs) ≡ some q
      → All (OfSlug slug) is
      → All IsSuperseded (legacy slug q.0.path is)
  unfolding legacy
  legacy-IsSuperseded slug q [] e h = tt
  legacy-IsSuperseded slug q (i ∷ is) e h =
      let rest = legacy-IsSuperseded slug q is e h.1 in
      let own = h.0 in
      elim (Bool-cases (not (bytes_eq i.path q.0.path) && not (bytes_eq i.path slug))) [
        | inr c ↦ rw c rest
        | inl c ↦
            let away : i.path ≢ q.0.path =
              λ x. ground (arith, (bytes_eq_iff i.path q.0.path).1 x, c) in
            let named : i.path ≢ slug = λ x. ground (arith, (bytes_eq_iff i.path slug).1 x, c) in
            rw c (
              inr (
                q,
                subst (λ k. chosen opens (infos_of k dirs) ≡ some q) (sym own) e,
                away,
                subst (λ k. i.path ≢ k) (sym own) named,
              ),
              rest,
            )
      ]

  install-IsSuperseded :
      (slug : Bytes) (is : List IndexInfo) (o : Option (IndexInfo × ℕ)) (failed : List Bytes)
      (s : Store) (removed : List Bytes)
      → chosen opens (infos_of slug dirs) ≡ o
      → All (OfSlug slug) is
      → All IsSuperseded failed
      → All IsSuperseded removed
      → All IsSuperseded (install opens slug is (o, failed) (s, removed)).1
  unfolding install
  install-IsSuperseded slug is none failed s removed e h f r =
      All-append IsSuperseded removed failed r f
  install-IsSuperseded slug is (some q) failed s removed e h f r =
      All-append IsSuperseded removed (failed ++ legacy slug q.0.path is) r (
        All-append IsSuperseded failed (legacy slug q.0.path is) f
          (legacy-IsSuperseded slug q is e h))

  load_groups-IsSuperseded :
      (m : Groups) (s : Store) (removed : List Bytes)
      → IsGrouped dirs m
      → All IsSuperseded removed
      → All IsSuperseded (load_groups opens m (s, removed)).1
  unfolding load_groups load_group
  load_groups-IsSuperseded [] s removed g r = r
  load_groups-IsSuperseded ((slug, is) ∷ m) s removed g r =
      let sorted = exchange_sort newer is in
      let o = try_open opens sorted in
      let st = install opens slug sorted o (s, removed) in
      let named =
        exchange_sort-All newer (OfSlug slug) is
          (subst (All (OfSlug slug)) (sym g.0) (infos_of-OfSlug slug dirs)) in
      let picked : chosen opens (infos_of slug dirs) ≡ o.0 = ap (chosen opens) (sym g.0) in
      load_groups-IsSuperseded m st.0 st.1 g.1
        (install-IsSuperseded slug sorted o.0 o.1 s removed picked named (try_open-failed sorted) r)

  -- Each directory that a load of the indexes removes either does not open, or is not the one that is
  -- loaded for its slug, while one is, and its name is not the bare slug.
  pub load_indexes-IsSuperseded :
      (s : Store) → All IsSuperseded (load_indexes opens (some dirs) s).1
  unfolding load_indexes
  load_indexes-IsSuperseded s =
      let m = group_dirs dirs [] in
      load_groups-IsSuperseded m s []
        (IsGrouped-from dirs m (group_dirs-Distinct dirs [] tt) (λ k e. infos_held dirs k)) tt
