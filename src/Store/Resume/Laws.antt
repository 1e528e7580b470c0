-- ===== src/Store/Resume/Laws.antt =====
-- Which extensions are resumed.
use mathlib.Core.List.{Mem, mem-append_left, mem-cons_self, mem-cons_of_mem}
use veloria.Base.{
  ◌≡◌, ◌≢◌, refl, sym, subst, Bool, true, false, Option, none, some, List, [], ◌∷◌, arith, All,
  All-append, Bytes, bytes_eq, bytes_eq_iff, Bool-cases, Option-cases, ◌⊎◌, inl, inr, All-map,
}
use veloria.Base.Maps.{lookup, Distinct}
use veloria.Store.{Extension, Store}
use veloria.Store.Updates.{seen_before}
use veloria.Store.Resume.Unindexed.{
  IsKeyed, IsApart, IsApart-append, IsListed, unindexed-IsApart, unindexed-Mem, unindexed-IsListed,
}
use veloria.Store.Resume.Stale.{lookup-IsKeyed, stale_failures-slug}
use veloria.Store.Resume.Wanted.{IsWanted, IsWanted-is_unindexed, unindexed-IsWanted}
use veloria.Store.Resume.{
  unindexed, slugs_of, to_retry, stale_round, stale_failures, resume_unindexed,
}

All-trivial : (es : List Extension) → All (λ e. Unit {0}) es
All-trivial [] = tt
All-trivial (e ∷ es) = (tt, All-trivial es)

All-both :
    (es : List Extension) (f : Extension) (fs : List Extension)
    → All (λ e. e.slug ≢ f.slug) es
    → All (λ e. All (λ g. e.slug ≢ g.slug) fs) es
    → All (λ e. All (λ g. e.slug ≢ g.slug) (f ∷ fs)) es
All-both [] f fs h k = tt
All-both (e ∷ es) f fs h k = ((h.0, k.0), All-both es f fs h.1 k.1)

module _ (closed : List Bytes) (s : Store) where
  -- what is retried for a slug
  to_retry-IsListed :
      (slug : Bytes) (e : Extension)
      → IsKeyed s.entries
      → to_retry (lookup slug s.entries) ≡ some e
      → (e.slug ≡ slug) × IsListed s e
  unfolding to_retry
  to_retry-IsListed slug e key h = elim (Option-cases (lookup slug s.entries)) [
    | inl n ↦ cc (rw (n, to_retry) at h)
    | inr (f, l) ↦ elim (Bool-cases (bytes_eq f.download_link [])) [
      | inl t ↦ cc (rw (l, to_retry, t) at h)
      | inr t ↦
          let got = rw (l, to_retry) at h in
          let same : f ≡ e = ground (arith, got, t) in
          let named = lookup-IsKeyed slug f s.entries key l in
          subst (λ x. (x.slug ≡ slug) × IsListed s x) same
            (
              named,
              (
                subst (λ x. lookup x s.entries ≡ some f) (sym named) l,
                λ x. ground (arith, t, (bytes_eq_iff f.download_link []).1 x),
              ),
            )
    ]
  ]

  -- what the second loop adds, behind `seen`
  abbrev IsAdded : List Bytes → List Extension → Type 0
  IsAdded seen es = All (λ f. (seen_before f.slug seen ≡ false) × IsListed s f) es × IsApart es

  unseen_more :
      (slug : Bytes) (seen : List Bytes) (es : List Extension)
      → All (λ f. (seen_before f.slug (slug ∷ seen) ≡ false) × IsListed s f) es
      → All (λ f. (seen_before f.slug seen ≡ false) × IsListed s f) es × All (λ f. slug ≢ f.slug) es
  unfolding seen_before
  unseen_more slug seen [] h = (tt, tt)
  unseen_more slug seen (e ∷ es) h =
      let (a, b) = unseen_more slug seen es h.1 in
      (
        ((ground (arith, h.0.0), h.0.1), a),
        (λ x. ground (arith, h.0.0, (bytes_eq_iff slug e.slug).1 x), b),
      )

  stale_round-IsAdded :
      (continue : List Bytes → List Extension) (slug : Bytes) (seen : List Bytes) (old : Bool)
      (o : Option Extension)
      → ((seen' : List Bytes) → IsAdded seen' (continue seen'))
      → seen_before slug seen ≡ old
      → ((e : Extension) → o ≡ some e → (e.slug ≡ slug) × IsListed s e)
      → IsAdded seen (stale_round continue slug seen old o)
  unfolding stale_round
  stale_round-IsAdded continue slug seen true o ih h l = ih seen
  stale_round-IsAdded continue slug seen false none ih h l = ih seen
  stale_round-IsAdded continue slug seen false (some e) ih h l =
      let (named, listed) = l e refl in
      let (all, apart) = ih (slug ∷ seen) in
      let (unseen, away) = unseen_more slug seen (continue (slug ∷ seen)) all in
      let away' = subst (λ x. All (λ f. x ≢ f.slug) (continue (slug ∷ seen))) (sym named) away in
      let new : seen_before e.slug seen ≡ false =
        subst (λ x. seen_before x seen ≡ false) (sym named) h in
      (((new, listed), unseen), (away', apart))

  stale_failures-IsAdded :
      (slugs seen : List Bytes) → IsKeyed s.entries → IsAdded seen (stale_failures s slugs seen)
  unfolding stale_failures
  stale_failures-IsAdded [] seen key = (tt, tt)
  stale_failures-IsAdded (slug ∷ slugs) seen key =
      stale_round-IsAdded (stale_failures s slugs) slug seen (seen_before slug seen)
        (to_retry (lookup slug s.entries)) (λ seen'. stale_failures-IsAdded slugs seen' key) refl
        (λ e. to_retry-IsListed slug e key)

  -- one whose slug was not seen differs from all that were
  unseen-away :
      (es : List Extension) (slug : Bytes)
      → seen_before slug (slugs_of es) ≡ false
      → All (λ e. e.slug ≢ slug) es
  unfolding seen_before slugs_of
  unseen-away [] slug h = tt
  unseen-away (e ∷ es) slug h = (
    λ x. ground (arith, h, (bytes_eq_iff e.slug slug).1 x),
    unseen-away es slug (ground (arith, h)),
  )

  across :
      (es fs : List Extension)
      → All (λ f. (seen_before f.slug (slugs_of es) ≡ false) × IsListed s f) fs
      → All (λ e. All (λ f. e.slug ≢ f.slug) fs) es
  across es [] h = All-trivial es
  across es (f ∷ fs) h = All-both es f fs (unseen-away es f.slug h.0.0) (across es fs h.1)

  IsListed-only :
      (seen : List Bytes) (fs : List Extension)
      → All (λ f. (seen_before f.slug seen ≡ false) × IsListed s f) fs
      → All (IsListed s) fs
  IsListed-only seen [] h = tt
  IsListed-only seen (f ∷ fs) h = (h.0.1, IsListed-only seen fs h.1)

  -- what is added has a slug of a stale failure
  all-Mem : (ks : List Bytes) → All (λ k. Mem k ks) ks
  all-Mem [] = tt
  all-Mem (k ∷ ks) = (
    mem-cons_self,
    All-map (λ j. Mem j ks) (λ j. Mem j (k ∷ ks)) (λ j. mem-cons_of_mem k) ks (all-Mem ks),
  )

  -- The tasks to resume are of different extensions, each of them listed and with a download link. Each is
  -- an extension that is not closed and has no index, or has a slug of the stale failures; and every listed
  -- extension that is not closed, has no index and has a download link is among them. The list must have
  -- each extension once, under its slug.
  pub resume_unindexed-IsListed :
      (stale : List Bytes)
      → Distinct s.entries
      → IsKeyed s.entries
      → IsApart (resume_unindexed closed stale s)
        × All (IsListed s) (resume_unindexed closed stale s)
        × All (λ e. IsWanted closed s e ⊎ Mem e.slug stale) (resume_unindexed closed stale s)
        × ((k : Bytes) (e : Extension)
            → lookup k s.entries ≡ some e
            → IsWanted closed s e
            → Mem e (resume_unindexed closed stale s))
  unfolding resume_unindexed
  resume_unindexed-IsListed stale d key =
      let first = unindexed closed s s.entries in
      let more = stale_failures s stale (slugs_of first) in
      let (added, apart) = stale_failures-IsAdded stale (slugs_of first) key in
      let Either = λ (e : Extension). IsWanted closed s e ⊎ Mem e.slug stale in
      let named =
        stale_failures-slug (λ k. Mem k stale) s stale (slugs_of first) key (all-Mem stale) in
      (
        IsApart-append first more (unindexed-IsApart closed s s.entries d key) apart
            (across first more added),
        All-append (IsListed s) first more
            (unindexed-IsListed closed s s.entries d key (λ k e h. h))
            (IsListed-only (slugs_of first) more added),
        All-append Either first more
            (All-map (IsWanted closed s) Either (λ e. inl) first
              (unindexed-IsWanted closed s s.entries))
            (All-map (λ e. Mem e.slug stale) Either (λ e. inr) more named),
        λ k e h w.
            mem-append_left more
              (unindexed-Mem closed s k e s.entries h (IsWanted-is_unindexed closed s e w)),
      )
