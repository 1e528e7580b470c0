-- ===== src/Store/Updates.antt =====
-- `PrepareUpdates` of internal/repo/repository.go. The fetch of the pending extensions and the save of
-- one to the database are parameters.
pub mod Laws
pub mod Handles
use veloria.Base.{
  ℕ, ◌+◌, Bool, true, false, ◌||◌, not, Option, none, some, List, [], ◌∷◌, if◌then◌else◌, Bytes,
  bytes_eq, is_some, ◌==◌,
}
use veloria.Store.{Extension, Store, get, put}

unfoldable pub seen_before : Bytes → List Bytes → Bool
seen_before slug [] = false
seen_before slug (k ∷ ks) = bytes_eq k slug || seen_before slug ks

-- the `continue`s of the loop
unfoldable pub is_skipped : (Extension → Bool) → Extension → List Bytes → Bool
is_skipped save ext seen =
    (bytes_eq ext.slug [] || seen_before ext.slug seen)
    || (bytes_eq ext.download_link [] || not (save ext))

-- `ext.SetIndexedExtension(existingIE)`, if the existing extension has one
unfoldable pub reuse : Option ℕ → Extension → Extension
reuse none ext = ext
reuse (some a) ext = record ext { indexed = some a }

unfoldable pub reuse_existing : Option Extension → Extension → Extension
reuse_existing none ext = ext
reuse_existing (some existing) ext = reuse existing.indexed ext

-- `NewIndexedExtension`, if the extension has none
unfoldable pub ensure_indexed : Option ℕ → ℕ → Extension → Extension
ensure_indexed none a ext = record ext { indexed = some a }
ensure_indexed (some b) a ext = ext

unfoldable pub allocate : Option ℕ → Store → Store
allocate (some b) s = s
allocate none s = record s {
  index_at = λ b. if b == s.next_indexed then none else s.index_at b;
  next_indexed = s.next_indexed + 1;
}

-- the extension as it is listed
unfoldable pub prepared : Extension → Store → Extension
prepared ext s =
    let e = reuse_existing (get ext.slug s) ext in ensure_indexed e.indexed s.next_indexed e

-- the store with it
unfoldable pub list_prepared : Extension → Store → Store
list_prepared ext s =
    put ext.slug (prepared ext s) (allocate (reuse_existing (get ext.slug s) ext).indexed s)

-- the loop; a task is its extension
unfoldable pub prepare :
    (Extension → Bool) → List Extension → List Bytes → Store → List Extension × Store
prepare save [] seen s = ([], s)
prepare save (ext ∷ exts) seen s = elim (is_skipped save ext seen) [
  | true ↦ prepare save exts seen s
  | false ↦
      let r = prepare save exts (ext.slug ∷ seen) (list_prepared ext s) in
      (prepared ext s ∷ r.0, r.1)
]

-- `none` for the error of the fetch
unfoldable pub prepare_updates :
    (Extension → Bool) → Option (List Extension) → Store → Option (List Extension) × Store
prepare_updates save none s = (none, s)
prepare_updates save (some exts) s = let r = prepare save exts [] s in (some r.0, r.1)
