-- ===== src/Store/Load/Places.antt =====
-- What the loading of indexes does to the place of an extension's index.
use veloria.Base.{
  ℕ, ◌≡◌, ◌≢◌, refl, sym, ap, subst, ◌∙◌, Bool, Option, none, some, List, [], ◌∷◌, arith, All,
  Bool-cases, Option-cases, inl, inr, ◌⊎◌, Bytes, bytes_eq, bytes_eq_iff,
}
use veloria.Base.Maps.{lookup, Distinct}
use veloria.Base.Exchange.{exchange_sort}
use veloria.Store.{Extension, Store, update_index, swap_index}
use veloria.Store.Load.{
  IndexInfo, Groups, group_dirs, newer, try_open, install, load_group, load_groups, load_indexes,
}
use veloria.Store.Load.Newest.{
  IsNewest, IsChosen, chosen, chosen-IsChosen, infos_of, held, infos_held, group_dirs-Distinct,
}
use veloria.Store.Updates.Handles.{HasPlace}

-- no other extension has its index in the place
abbrev pub IsAlone : Bytes → ℕ → List (Bytes × Extension) → Type 0
IsAlone slug a es =
    (k : Bytes) (e : Extension) → lookup k es ≡ some e → e.indexed ≡ some a → k ≡ slug

-- what is in the place behind the attempts to load
abbrev result : Option (IndexInfo × ℕ) → Option ℕ → Option ℕ
result none old = old
result (some p) old = some p.1

update_index-entries :
    (idx : ℕ) (k : Bytes) (s : Store) → (update_index idx k s).1.entries ≡ s.entries
unfolding update_index swap_index
update_index-entries idx k s = ground arith

update_index-own :
    (idx : ℕ) (slug : Bytes) (a : ℕ) (s : Store)
    → HasPlace s slug a
    → (update_index idx slug s).1.index_at a ≡ some idx
unfolding update_index swap_index
update_index-own idx slug a s h = rw (h.listed, update_index) (rw (h.place) (ground arith))

update_index-other :
    (idx : ℕ) (k slug : Bytes) (a : ℕ) (s : Store)
    → IsAlone slug a s.entries
    → k ≢ slug
    → (update_index idx k s).1.index_at a ≡ s.index_at a
unfolding update_index swap_index
update_index-other idx k slug a s alone ne = elim (Option-cases (lookup k s.entries)) [
  | inl e ↦ ground (arith, e)
  | inr (x, e) ↦ ground (arith, e, alone k x e)
]

module _ (opens : Bytes → Option ℕ) where
  load_group-entries :
      (k : Bytes) (is : List IndexInfo) (o : Option (IndexInfo × ℕ) × List Bytes) (s : Store)
      (removed : List Bytes)
      → (install opens k is o (s, removed)).0.entries ≡ s.entries
  unfolding install
  load_group-entries k is (none, failed) s removed = refl
  load_group-entries k is (some (i, idx), failed) s removed = update_index-entries idx k s

  install-own :
      (slug : Bytes) (a : ℕ) (is : List IndexInfo) (o : Option (IndexInfo × ℕ) × List Bytes)
      (s : Store) (removed : List Bytes)
      → HasPlace s slug a
      → (install opens slug is o (s, removed)).0.index_at a ≡ result o.0 (s.index_at a)
  unfolding install
  install-own slug a is (none, failed) s removed h = refl
  install-own slug a is (some (i, idx), failed) s removed h = update_index-own idx slug a s h

  install-other :
      (k slug : Bytes) (a : ℕ) (is : List IndexInfo) (o : Option (IndexInfo × ℕ) × List Bytes)
      (s : Store) (removed : List Bytes)
      → IsAlone slug a s.entries
      → k ≢ slug
      → (install opens k is o (s, removed)).0.index_at a ≡ s.index_at a
  unfolding install
  install-other k slug a is (none, failed) s removed h ne = refl
  install-other k slug a is (some (i, idx), failed) s removed h ne =
      update_index-other idx k slug a s h ne

  HasPlace-kept :
      (s t : Store) (k : Bytes) (a : ℕ) → t.entries ≡ s.entries → HasPlace s k a → HasPlace t k a
  HasPlace-kept s t k a e h = record {
    extension = h.extension;
    listed = ap (lookup k) e ∙ h.listed;
    place = h.place;
  }

  -- A group of another slug does nothing to the place.
  load_groups-other :
      (m : Groups) (s : Store) (removed : List Bytes) (slug : Bytes) (a : ℕ)
      → lookup slug m ≡ none
      → IsAlone slug a s.entries
      → (load_groups opens m (s, removed)).0.index_at a ≡ s.index_at a
  unfolding load_groups load_group lookup
  load_groups-other [] s removed slug a missing alone = refl
  load_groups-other ((k, is) ∷ m) s removed slug a missing alone =
      let sorted = exchange_sort newer is in
      let st = install opens k sorted (try_open opens sorted) (s, removed) in
      let kept = load_group-entries k sorted (try_open opens sorted) s removed in
      let ne : k ≢ slug = λ e. ground (arith, (bytes_eq_iff k slug).1 e, missing) in
      let rest : lookup slug m ≡ none = ground (arith, missing) in
      load_groups-other m st.0 st.1 slug a rest (subst (IsAlone slug a) (sym kept) alone)
      ∙ install-other k slug a sorted (try_open opens sorted) s removed alone ne

  chosen_nil : chosen opens [] ≡ none
  unfolding exchange_sort try_open
  chosen_nil = refl

  load_groups-place :
      (m : Groups) (s : Store) (removed : List Bytes) (slug : Bytes) (a : ℕ)
      → Distinct m
      → HasPlace s slug a
      → IsAlone slug a s.entries
      → (load_groups opens m (s, removed)).0.index_at a
        ≡ result (chosen opens (held (lookup slug m))) (s.index_at a)
  unfolding load_groups load_group lookup
  load_groups-place [] s removed slug a d h alone = rw chosen_nil
  load_groups-place ((k, is) ∷ m) s removed slug a d h alone =
      let sorted = exchange_sort newer is in
      let o = try_open opens sorted in
      let st = install opens k sorted o (s, removed) in
      let kept = load_group-entries k sorted o s removed in
      let alone' = subst (IsAlone slug a) (sym kept) alone in
      elim (Bool-cases (bytes_eq k slug)) [
        | inr e ↦
            let ne : k ≢ slug = λ x. ground (arith, (bytes_eq_iff k slug).1 x) in
            rw e (
              load_groups-place m st.0 st.1 slug a d.1 (HasPlace-kept s st.0 slug a kept h) alone'
              ∙ ap (result (chosen opens (held (lookup slug m))))
                  (install-other k slug a sorted o s removed alone ne))
        | inl e ↦
            let same = (bytes_eq_iff k slug).0 e in
            let missing : lookup slug m ≡ none =
              subst (λ x. lookup x m ≡ none) same (ground (arith, d.0)) in
            rw e (
              load_groups-other m st.0 st.1 slug a missing alone'
              ∙ install-own k a sorted o s removed (subst (λ x. HasPlace s x a) (sym same) h))
      ]

  -- what is in a place behind a load from the directories of its slug, and what was before
  abbrev pub Loaded : List IndexInfo → Option ℕ → Option ℕ → Type 0
  Loaded is old new =
      ((p : IndexInfo × ℕ) × (new ≡ some p.1) × IsNewest opens is p)
      ⊎ ((new ≡ old) × All (λ j. opens j.path ≡ none) is)

  Loaded-result :
      (is : List IndexInfo) (o : Option (IndexInfo × ℕ)) (old : Option ℕ)
      → IsChosen opens is o
      → Loaded is old (result o old)
  Loaded-result is none old h = inr (refl, h)
  Loaded-result is (some p) old h = inl (p, refl, h)

  -- Behind a load of the indexes, the place of an extension that the store lists holds the index of a
  -- directory of its slug that opens and is as new as every other one that opens; or none of them opens,
  -- and the place holds what it held before. No other extension may have the same place.
  pub load_indexes-Loaded :
      (dirs : List (Bytes × Bool)) (s : Store) (slug : Bytes) (a : ℕ)
      → HasPlace s slug a
      → IsAlone slug a s.entries
      → Loaded (infos_of slug dirs) (s.index_at a) ((load_indexes opens (some dirs) s).0.index_at a)
  unfolding load_indexes
  load_indexes-Loaded dirs s slug a h alone =
      let m = group_dirs dirs [] in
      let distinct = group_dirs-Distinct dirs [] tt in
      let infos : held (lookup slug m) ≡ infos_of slug dirs = infos_held dirs slug in
      let placed =
        load_groups-place m s [] slug a distinct h alone
        ∙ ap (λ is. result (chosen opens is) (s.index_at a)) infos in
      subst (Loaded (infos_of slug dirs) (s.index_at a)) (sym placed) (
        Loaded-result (infos_of slug dirs) (chosen opens (infos_of slug dirs)) (s.index_at a)
          (chosen-IsChosen opens (infos_of slug dirs)))
