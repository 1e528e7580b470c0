-- ===== src/Store/Updates/Laws.antt =====
-- The tasks of an update, and the extensions that it lists.
use veloria.Base.{
  ℕ, ◌≡◌, refl, sym, ap, ◌∙◌, subst, Bool, true, false, Option, none, some, List, [], ◌∷◌, All,
  if◌then◌else◌, Bytes, bytes_eq, bytes_eq_iff, bytes_eq_refl, is_some, arith, Bool-cases, inl, inr,
}
use veloria.Base.Maps.{lookup, lookup-insert}
use veloria.Store.{Extension, Store, get, put}
use veloria.Store.Updates.{
  seen_before, is_skipped, reuse, reuse_existing, ensure_indexed, allocate, prepared, list_prepared,
  prepare, prepare_updates,
}

allocate-entries : (o : Option ℕ) (s : Store) → (allocate o s).entries ≡ s.entries
unfolding allocate
allocate-entries none s = refl
allocate-entries (some b) s = refl

pub list_prepared-lookup :
    (ext : Extension) (s : Store) (k : Bytes)
    → lookup k (list_prepared ext s).entries
      ≡ (if bytes_eq ext.slug k then some (prepared ext s) else lookup k s.entries)
unfolding list_prepared put
list_prepared-lookup ext s k =
    rw (allocate-entries (reuse_existing (get ext.slug s) ext).indexed s)
      (lookup-insert ext.slug k (prepared ext s) s.entries)

reuse-slug : (o : Option ℕ) (ext : Extension) → (reuse o ext).slug ≡ ext.slug
unfolding reuse
reuse-slug none ext = refl
reuse-slug (some a) ext = refl

reuse_existing-slug :
    (o : Option Extension) (ext : Extension) → (reuse_existing o ext).slug ≡ ext.slug
unfolding reuse_existing
reuse_existing-slug none ext = refl
reuse_existing-slug (some x) ext = reuse-slug x.indexed ext

ensure_indexed-slug :
    (o : Option ℕ) (a : ℕ) (ext : Extension) → (ensure_indexed o a ext).slug ≡ ext.slug
unfolding ensure_indexed
ensure_indexed-slug none a ext = refl
ensure_indexed-slug (some b) a ext = refl

prepared-slug : (ext : Extension) (s : Store) → (prepared ext s).slug ≡ ext.slug
unfolding prepared
prepared-slug ext s =
    ensure_indexed-slug _ s.next_indexed (reuse_existing (get ext.slug s) ext)
    ∙ reuse_existing-slug (get ext.slug s) ext

ensure_indexed-some :
    (o : Option ℕ) (a : ℕ) (ext : Extension)
    → ext.indexed ≡ o
    → is_some (ensure_indexed o a ext).indexed ≡ true
unfolding ensure_indexed
ensure_indexed-some none a ext h = refl
ensure_indexed-some (some b) a ext h = ap is_some h

prepared-indexed : (ext : Extension) (s : Store) → is_some (prepared ext s).indexed ≡ true
unfolding prepared
prepared-indexed ext s =
    ensure_indexed-some _ s.next_indexed (reuse_existing (get ext.slug s) ext) refl

-- what the guards let through
unskipped :
    (save : Extension → Bool) (ext : Extension) (seen : List Bytes)
    → is_skipped save ext seen ≡ false
    → (bytes_eq ext.slug [] ≡ false) × (seen_before ext.slug seen ≡ false)
unfolding is_skipped
unskipped save ext seen h = ground (arith, h)

seen_eq :
    (j k : Bytes) (seen : List Bytes)
    → seen_before k seen ≡ true
    → seen_before j seen ≡ false
    → bytes_eq j k ≡ false
seen_eq j k seen h g = elim (Bool-cases (bytes_eq j k)) [
  | inl e ↦ absurd (cc (h, g, (bytes_eq_iff j k).0 e))
  | inr e ↦ e
]

-- an extension that was listed before stays as it is
prepare_keeps :
    (save : Extension → Bool) (exts : List Extension) (seen : List Bytes) (s : Store) (k : Bytes)
    → seen_before k seen ≡ true
    → lookup k (prepare save exts seen s).1.entries ≡ lookup k s.entries
unfolding prepare seen_before
prepare_keeps save [] seen s k h = refl
prepare_keeps save (ext ∷ exts) seen s k h = elim (Bool-cases (is_skipped save ext seen)) [
  | inl e ↦ rw (e, prepare) (prepare_keeps save exts seen s k h)
  | inr e ↦
      let n = seen_eq ext.slug k seen h (unskipped save ext seen e).1 in
      let l : seen_before k (ext.slug ∷ seen) ≡ true = rw (n, h) in
      rw (e, prepare)
        (prepare_keeps save exts (ext.slug ∷ seen) (list_prepared ext s) k l
          ∙ (list_prepared-lookup ext s k ∙ rw n))
]

-- no two extensions have the same slug
abbrev pub DistinctSlugs : List Extension → Type 0
DistinctSlugs [] = Unit
DistinctSlugs (t ∷ ts) = All (λ u. bytes_eq t.slug u.slug ≡ false) ts × DistinctSlugs ts

-- The store lists the extension under its slug, with a place for an index; the slug is not empty.
pub record IsListed (s : Store) (t : Extension) : Type 0 where
  pub listed : lookup t.slug s.entries ≡ some t
  pub has_place : is_some t.indexed ≡ true
  pub has_slug : bytes_eq t.slug [] ≡ false

-- the tasks of the loop, from the slugs seen so far on
record IsBatch (seen : List Bytes) (s : Store) (ts : List Extension) : Type 0 where
  fresh : All (λ t. seen_before t.slug seen ≡ false) ts
  distinct : DistinctSlugs ts
  tasks_listed : All (IsListed s) ts

weaken_fresh :
    (k : Bytes) (seen : List Bytes) (ts : List Extension)
    → All (λ t. seen_before t.slug (k ∷ seen) ≡ false) ts
    → All (λ t. seen_before t.slug seen ≡ false) ts × All (λ t. bytes_eq k t.slug ≡ false) ts
unfolding seen_before
weaken_fresh k seen [] h = (tt, tt)
weaken_fresh k seen (t ∷ ts) (h, hs) =
    let (a, b) = weaken_fresh k seen ts hs in ((ground (arith, h), a), (ground (arith, h), b))

task-IsListed :
    (save : Extension → Bool) (exts : List Extension) (ext : Extension) (seen : List Bytes)
    (s : Store)
    → bytes_eq ext.slug [] ≡ false
    → IsListed (prepare save exts (ext.slug ∷ seen) (list_prepared ext s)).1 (prepared ext s)
unfolding seen_before
task-IsListed save exts ext seen s h =
    let p = prepared-slug ext s in
    let here : seen_before ext.slug (ext.slug ∷ seen) ≡ true = rw (bytes_eq_refl ext.slug) in
    record {
      listed =
          ap (λ k. lookup k (prepare save exts (ext.slug ∷ seen) (list_prepared ext s)).1.entries) p
          ∙ (prepare_keeps save exts (ext.slug ∷ seen) (list_prepared ext s) ext.slug here
              ∙ (list_prepared-lookup ext s ext.slug ∙ rw (bytes_eq_refl ext.slug)));
      has_place = prepared-indexed ext s;
      has_slug = ap (λ k. bytes_eq k []) p ∙ h;
    }

prepare-IsBatch :
    (save : Extension → Bool) (exts : List Extension) (seen : List Bytes) (s : Store)
    → IsBatch seen (prepare save exts seen s).1 (prepare save exts seen s).0
unfolding prepare
prepare-IsBatch save [] seen s = record { fresh = tt; distinct = tt; tasks_listed = tt }
prepare-IsBatch save (ext ∷ exts) seen s = elim (Bool-cases (is_skipped save ext seen)) [
  | inl e ↦ rw (e, prepare) (prepare-IsBatch save exts seen s)
  | inr e ↦
      let ih = prepare-IsBatch save exts (ext.slug ∷ seen) (list_prepared ext s) in
      let (n, f) = unskipped save ext seen e in
      let p = prepared-slug ext s in
      let (a, b) = weaken_fresh ext.slug seen _ ih.fresh in
      rw (e, prepare)
        (record {
          fresh = (ap (λ k. seen_before k seen) p ∙ f, a);
          distinct = (
            subst
                (λ k.
                  All (λ u. bytes_eq k u.slug ≡ false)
                    (prepare save exts (ext.slug ∷ seen) (list_prepared ext s)).0)
                (sym p) b,
            ih.distinct,
          );
          tasks_listed = (task-IsListed save exts ext seen s n, ih.tasks_listed);
        })
]

-- The tasks of an update have different slugs, none of them empty, and behind the update the store
-- lists each task's extension under its slug, with a place for an index.
pub prepare_updates_tasks :
    (save : Extension → Bool) (exts ts : List Extension) (s : Store)
    → (prepare_updates save (some exts) s).0 ≡ some ts
    → DistinctSlugs ts × All (IsListed (prepare_updates save (some exts) s).1) ts
unfolding prepare_updates
prepare_updates_tasks save exts ts s h =
    let b = prepare-IsBatch save exts [] s in
    let e : (prepare save exts [] s).0 ≡ ts = cc in
    subst (λ l. DistinctSlugs l × All (IsListed (prepare save exts [] s).1) l) e
      (b.distinct, b.tasks_listed)
