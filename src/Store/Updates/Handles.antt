-- ===== src/Store/Updates/Handles.antt =====
-- An update keeps the place of each index, which searches hold.
use veloria.Base.{
  ℕ, ◌≡◌, ap, ◌∙◌, Bool, Option, none, some, List, [], ◌∷◌, Bytes, bytes_eq, bytes_eq_iff,
  Bool-cases, inl, inr,
}
use veloria.Base.Maps.{lookup}
use veloria.Store.{Extension, Store, get}
use veloria.Store.Updates.{
  is_skipped, reuse, reuse_existing, ensure_indexed, prepared, list_prepared, prepare,
  prepare_updates,
}
use veloria.Store.Updates.Laws.{list_prepared-lookup}

reuse-handle :
    (o : Option ℕ) (ext : Extension) (a : ℕ) → o ≡ some a → (reuse o ext).indexed ≡ some a
unfolding reuse
reuse-handle none ext a h = cc
reuse-handle (some b) ext a h = h

reuse_existing-handle :
    (o : Option Extension) (ext old : Extension) (a : ℕ)
    → o ≡ some old
    → old.indexed ≡ some a
    → (reuse_existing o ext).indexed ≡ some a
unfolding reuse_existing
reuse_existing-handle none ext old a h k = cc
reuse_existing-handle (some x) ext old a h k =
    let e : x ≡ old = cc in reuse-handle x.indexed ext a (ap (λ y. y.indexed) e ∙ k)

ensure_indexed-handle :
    (o : Option ℕ) (n a : ℕ) (ext : Extension)
    → o ≡ some a
    → ext.indexed ≡ some a
    → (ensure_indexed o n ext).indexed ≡ some a
unfolding ensure_indexed
ensure_indexed-handle none n a ext h k = cc
ensure_indexed-handle (some b) n a ext h k = k

prepared-handle :
    (ext old : Extension) (s : Store) (a : ℕ)
    → lookup ext.slug s.entries ≡ some old
    → old.indexed ≡ some a
    → (prepared ext s).indexed ≡ some a
unfolding prepared get
prepared-handle ext old s a h k =
    let r = reuse_existing-handle (lookup ext.slug s.entries) ext old a h k in
    ensure_indexed-handle _ s.next_indexed a _ r r

-- the store lists an extension under `k`, and its index has the place `a`
pub record HasPlace (s : Store) (k : Bytes) (a : ℕ) : Type 0 where
  pub extension : Extension
  pub listed : lookup k s.entries ≡ some extension
  pub place : extension.indexed ≡ some a

list_prepared-HasPlace :
    (ext : Extension) (s : Store) (k : Bytes) (a : ℕ)
    → HasPlace s k a
    → HasPlace (list_prepared ext s) k a
list_prepared-HasPlace ext s k a h = elim (Bool-cases (bytes_eq ext.slug k)) [
  | inl e ↦
      let p : lookup ext.slug s.entries ≡ some h.extension =
        ap (λ j. lookup j s.entries) ((bytes_eq_iff ext.slug k).0 e) ∙ h.listed in
      record {
        extension = prepared ext s;
        listed = list_prepared-lookup ext s k ∙ rw e;
        place = prepared-handle ext h.extension s a p h.place;
      }
  | inr e ↦ record {
    extension = h.extension;
    listed = list_prepared-lookup ext s k ∙ (rw e h.listed);
    place = h.place;
  }
]

prepare-HasPlace :
    (save : Extension → Bool) (exts : List Extension) (seen : List Bytes) (s : Store) (k : Bytes)
    (a : ℕ)
    → HasPlace s k a
    → HasPlace (prepare save exts seen s).1 k a
unfolding prepare
prepare-HasPlace save [] seen s k a h = h
prepare-HasPlace save (ext ∷ exts) seen s k a h = elim (Bool-cases (is_skipped save ext seen)) [
  | inl e ↦ rw (e, prepare) (prepare-HasPlace save exts seen s k a h)
  | inr e ↦
      rw (e, prepare)
        (prepare-HasPlace save exts (ext.slug ∷ seen) (list_prepared ext s) k a
          (list_prepared-HasPlace ext s k a h))
]

-- An extension that is listed with a place for its index is still listed behind an update, whatever
-- the update holds, and with the same place.
pub prepare_updates-HasPlace :
    (save : Extension → Bool) (fetched : Option (List Extension)) (s : Store) (k : Bytes) (a : ℕ)
    → HasPlace s k a
    → HasPlace (prepare_updates save fetched s).1 k a
unfolding prepare_updates
prepare_updates-HasPlace save none s k a h = h
prepare_updates-HasPlace save (some exts) s k a h = prepare-HasPlace save exts [] s k a h
