-- ===== src/Store.antt =====
-- The extension store of internal/repo/repository.go: its maps, and the operations on one extension.
use veloria.Base.{
  ℕ, zero, suc, ◌+◌, Bool, true, false, ◌&&◌, ◌||◌, not, Option, none, some, List, [], ◌∷◌, ◌++◌,
  length, if◌then◌else◌, Bytes, codes, bytes_eq, is_some, ◌==◌, ◌⊎◌, inl, inr,
}
pub mod Task
pub mod Search
pub mod Updates
pub mod Load
pub mod Resume
pub mod Rows
use veloria.Base.Maps.{lookup, insert, erase}

pub data ExtensionType : Type 0 where
  plugins themes cores : ExtensionType

pub record ExtractStats : Type 0 where
  pub file_count : ℕ
  pub total_size : ℕ

-- An extension. `indexed` is the address of its `IndexedExtension`, or `none` for nil.
pub record Extension : Type 0 where
  pub slug : Bytes
  pub name : Bytes
  pub version : Bytes
  pub source : Bytes
  pub download_link : Bytes
  pub indexed : Option ℕ

-- A store. `index_at` is the memory of the `IndexedExtension`s: the index that each holds, by its
-- number; `next_indexed` is the first free address. `closing` lists the indexes handed to
-- `scheduleIndexClose`, `closed` and `saved_stats` the rows written to the database, and
-- `stats_cache` and `status_cache` the two cached snapshots.
pub record Store : Type 0 where
  pub repo_type : ExtensionType
  pub entries : List (Bytes × Extension)
  pub total : ℕ
  pub index_at : ℕ → Option ℕ
  pub next_indexed : ℕ
  pub closing : List ℕ
  pub closed : List (Bytes × Bytes)
  pub saved_stats : List (Bytes × ExtractStats)
  pub stats_cache : Option (ℕ × ℕ)
  pub status_cache : Option (List (Bytes × Bool))

unfoldable pub get : Bytes → Store → Option Extension
get slug s = lookup slug s.entries

unfoldable pub exists : Bytes → Store → Bool
exists slug s = is_some (lookup slug s.entries)

-- `Set`
unfoldable pub put : Bytes → Extension → Store → Store
put slug ext s = let m = insert slug ext s.entries in record s { entries = m; total = length m }

unfoldable pub unlist : Bytes → Store → Store
unlist slug s = let m = erase slug s.entries in record s { entries = m; total = length m }

-- `ie != nil && ie.HasIndex()`
unfoldable pub has_index : Extension → Store → Bool
has_index ext s = elim ext.indexed [ none ↦ false | some a ↦ is_some (s.index_at a) ]

unfoldable pub count_indexed : List (Bytes × Extension) → Store → ℕ
count_indexed [] s = 0
count_indexed ((k, e) ∷ m) s = (if has_index e s then 1 else 0) + count_indexed m s

-- `Stats`, with its cache; the entry's expiry is not modelled
unfoldable pub stats : Store → (ℕ × ℕ) × Store
stats s = elim s.stats_cache [
  | some pair ↦ (pair, s)
  | none ↦
      let pair : ℕ × ℕ = (s.total, count_indexed s.entries s) in
      (pair, record s { stats_cache = some pair })
]

unfoldable pub status_of : List (Bytes × Extension) → Store → List (Bytes × Bool)
status_of [] s = []
status_of ((k, e) ∷ m) s = (k, has_index e s) ∷ status_of m s

-- `IndexStatus`
unfoldable pub index_status : Store → List (Bytes × Bool) × Store
index_status s = elim s.status_cache [
  | some m ↦ (m, s)
  | none ↦ let m = status_of s.entries s in (m, record s { status_cache = some m })
]

-- `IndexedExtension.UpdateIndex`: the swap of the index at an address, and of the old one's closing
unfoldable pub swap_index : ℕ → ℕ → Store → Store
swap_index a idx s = record s {
  index_at = λ b. if a == b then some idx else s.index_at b;
  closing = elim (s.index_at a) [ none ↦ s.closing | some old ↦ s.closing ++ old ∷ [] ];
}

-- `nil_pointer` is the panic of a method call on a nil `IndexedExtension`.
pub data StoreError : Type 0 where
  ext_not_found no_index nil_pointer : StoreError

-- `UpdateIndex`
unfoldable pub update_index : ℕ → Bytes → Store → Option StoreError × Store
update_index idx slug s = elim (lookup slug s.entries) [
  | none ↦ (some ext_not_found, s)
  | some ext ↦ elim ext.indexed [
    | none ↦ (some nil_pointer, s)
    | some a ↦ (none, record (swap_index a idx s) { stats_cache = none; status_cache = none })
  ]
]

-- `IndexedExtension.SearchCompiled` and `ResolveSourceDir` begin with this look at the index.
unfoldable pub index_of : Bytes → Store → ℕ ⊎ StoreError
index_of slug s = elim (lookup slug s.entries) [
  | none ↦ inr ext_not_found
  | some ext ↦ elim ext.indexed [
    | none ↦ inr no_index
    | some a ↦ elim (s.index_at a) [ none ↦ inr no_index | some i ↦ inl i ]
  ]
]
