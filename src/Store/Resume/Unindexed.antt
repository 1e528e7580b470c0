-- ===== src/Store/Resume/Unindexed.antt =====
-- The extensions of the list that have no index.
use mathlib.Core.List.{Mem, mem-cons_self, mem-cons_of_mem}
use veloria.Base.{
  ◌≡◌, ◌≢◌, refl, sym, ap, subst, ◌∙◌, true, false, none, some, List, [], ◌∷◌, ◌++◌, arith, All,
  All-append, if◌then◌else◌, Bytes, bytes_eq, bytes_eq_iff, Bool-cases, inl, inr, is_some,
}
use veloria.Base.Maps.{lookup, Distinct}
use veloria.Store.{Extension, Store}
use veloria.Store.Resume.{is_unindexed, unindexed}

-- each extension is listed under its slug
abbrev pub IsKeyed : List (Bytes × Extension) → Type 0
IsKeyed m = All (λ p. p.1.slug ≡ p.0) m

-- no two have one slug
abbrev pub IsApart : List Extension → Type 0
IsApart [] = Unit
IsApart (e ∷ es) = All (λ f. e.slug ≢ f.slug) es × IsApart es

pub IsApart-append :
    (es fs : List Extension)
    → IsApart es
    → IsApart fs
    → All (λ e. All (λ f. e.slug ≢ f.slug) fs) es
    → IsApart (es ++ fs)
IsApart-append [] fs h k a = k
IsApart-append (e ∷ es) fs h k a =
    (All-append (λ f. e.slug ≢ f.slug) es fs h.0 a.0, IsApart-append es fs h.1 k a.1)

-- an extension of the list that can be downloaded
abbrev pub IsListed : Store → Extension → Type 0
IsListed s e = (lookup e.slug s.entries ≡ some e) × (e.download_link ≢ [])

module _ (closed : List Bytes) (s : Store) where
  unindexed-away :
      (k : Bytes) (m : List (Bytes × Extension))
      → lookup k m ≡ none
      → IsKeyed m
      → All (λ f. k ≢ f.slug) (unindexed closed s m)
  unfolding unindexed lookup
  unindexed-away k [] h key = tt
  unindexed-away k ((j, e) ∷ m) h key =
      let other : bytes_eq j k ≡ false = ground (arith, h) in
      let rest : lookup k m ≡ none = ground (arith, h) in
      let away : k ≢ e.slug =
        λ x. ground (arith, other, (bytes_eq_iff j k).1 (sym key.0 ∙ sym x)) in
      let ih = unindexed-away k m rest key.1 in
      elim (Bool-cases (is_unindexed closed s e)) [ inl t ↦ rw t (away, ih) | inr t ↦ rw t ih ]

  pub unindexed-IsApart :
      (m : List (Bytes × Extension)) → Distinct m → IsKeyed m → IsApart (unindexed closed s m)
  unfolding unindexed
  unindexed-IsApart [] d key = tt
  unindexed-IsApart ((k, e) ∷ m) d key =
      let ih = unindexed-IsApart m d.1 key.1 in
      let missing : lookup k m ≡ none = ground (arith, d.0) in
      let away =
        subst (λ x. All (λ f. x ≢ f.slug) (unindexed closed s m)) (sym key.0)
          (unindexed-away k m missing key.1) in
      elim (Bool-cases (is_unindexed closed s e)) [ inl t ↦ rw t (away, ih) | inr t ↦ rw t ih ]

  pub unindexed-Mem :
      (k : Bytes) (e : Extension) (m : List (Bytes × Extension))
      → lookup k m ≡ some e
      → is_unindexed closed s e ≡ true
      → Mem e (unindexed closed s m)
  unfolding unindexed lookup
  unindexed-Mem k e [] h t = cc
  unindexed-Mem k e ((j, f) ∷ m) h t = elim (Bool-cases (bytes_eq j k)) [
    | inl same ↦
        let e' : f ≡ e = ground (arith, h, same) in
        subst
          (λ x.
            Mem e
              (if is_unindexed closed s x then x ∷ unindexed closed s m else unindexed closed s m))
          (sym e') (rw t mem-cons_self)
    | inr other ↦
        let ih = unindexed-Mem k e m (ground (arith, h, other)) t in
        elim (Bool-cases (is_unindexed closed s f)) [
          | inl u ↦ rw u (mem-cons_of_mem f ih)
          | inr u ↦ rw u ih
        ]
  ]

  is_unindexed-link : (e : Extension) → is_unindexed closed s e ≡ true → e.download_link ≢ []
  unfolding is_unindexed
  is_unindexed-link e t x = ground (arith, t, (bytes_eq_iff e.download_link []).1 x)

  pub unindexed-IsListed :
      (m : List (Bytes × Extension))
      → Distinct m
      → IsKeyed m
      → ((k : Bytes) (e : Extension) → lookup k m ≡ some e → lookup k s.entries ≡ some e)
      → All (IsListed s) (unindexed closed s m)
  unfolding unindexed lookup
  unindexed-IsListed [] d key sub = tt
  unindexed-IsListed ((k, e) ∷ m) d key sub =
      let tail = λ (j : Bytes) (f : Extension) (h : lookup j m ≡ some f).
        sub j f (ground (arith, bytes_eq_iff k j, d.0, h, ap (λ x. is_some (lookup x m)))) in
      let ih = unindexed-IsListed m d.1 key.1 tail in
      let here : lookup k s.entries ≡ some e =
        sub k e (ground (arith, (bytes_eq_iff k k).1 refl)) in
      elim (Bool-cases (is_unindexed closed s e)) [
        | inl t ↦
            rw t (
              (subst (λ x. lookup x s.entries ≡ some e) (sym key.0) here, is_unindexed-link e t),
              ih,
            )
        | inr t ↦ rw t ih
      ]
