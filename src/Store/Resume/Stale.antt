-- ===== src/Store/Resume/Stale.antt =====
-- What the second loop adds has one of the slugs that it goes over.
use veloria.Base.{
  ◌≡◌, refl, sym, subst, Bool, true, false, Option, none, some, List, [], ◌∷◌, arith, All, Bytes,
  bytes_eq, bytes_eq_iff, Bool-cases, inl, inr,
}
use veloria.Base.Maps.{lookup}
use veloria.Store.{Extension, Store}
use veloria.Store.Updates.{seen_before}
use veloria.Store.Resume.{to_retry, stale_round, stale_failures}
use veloria.Store.Resume.Unindexed.{IsKeyed}

pub lookup-IsKeyed :
    (slug : Bytes) (e : Extension) (m : List (Bytes × Extension))
    → IsKeyed m
    → lookup slug m ≡ some e
    → e.slug ≡ slug
unfolding lookup
lookup-IsKeyed slug e [] key h = cc
lookup-IsKeyed slug e ((k, f) ∷ m) key h =
    ground (arith, key.0, bytes_eq_iff k slug, lookup-IsKeyed slug e m key.1)

to_retry_same : (o : Option Extension) (e : Extension) → to_retry o ≡ some e → o ≡ some e
unfolding to_retry
to_retry_same none e k = cc
to_retry_same (some f) e k = elim (Bool-cases (bytes_eq f.download_link [])) [
  | inl b ↦ cc (rw b at k)
  | inr b ↦ rw b at k
]

module _ (P : Bytes → Type 0) (s : Store) where
  round-slug :
      (continue : List Bytes → List Extension) (slug : Bytes) (seen : List Bytes) (old : Bool)
      (o : Option Extension)
      → ((seen' : List Bytes) → All (λ e. P e.slug) (continue seen'))
      → ((e : Extension) → o ≡ some e → P e.slug)
      → All (λ e. P e.slug) (stale_round continue slug seen old o)
  unfolding stale_round
  round-slug continue slug seen true o ih h = ih seen
  round-slug continue slug seen false none ih h = ih seen
  round-slug continue slug seen false (some e) ih h = (h e refl, ih (slug ∷ seen))

  -- whatever holds of the slugs holds of those that are retried for them
  pub stale_failures-slug :
      (slugs seen : List Bytes)
      → IsKeyed s.entries
      → All P slugs
      → All (λ e. P e.slug) (stale_failures s slugs seen)
  unfolding stale_failures
  stale_failures-slug [] seen key h = tt
  stale_failures-slug (slug ∷ slugs) seen key h =
      round-slug (stale_failures s slugs) slug seen (seen_before slug seen)
        (to_retry (lookup slug s.entries)) (λ seen'. stale_failures-slug slugs seen' key h.1)
        (λ e t.
          subst P
            (sym (lookup-IsKeyed slug e s.entries key (to_retry_same (lookup slug s.entries) e t)))
            h.0)
