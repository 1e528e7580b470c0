-- ===== src/Store/Load.antt =====
-- The loading of a store: `LoadFromDB` and `LoadIndexes` of internal/repo/repository.go. The listing of
-- the index directory and `index.Open` are parameters; a directory is its name below the index
-- directory.
pub mod Newest
pub mod Places
pub mod Removals
use veloria.Base.{
  ℕ, zero, suc, ◌+◌, Bool, true, false, ◌&&◌, ◌||◌, not, Option, none, some, List, [], ◌∷◌, ◌++◌,
  length, ltb, ◌==◌, if◌then◌else◌, or_default, Bytes, bytes_eq,
}
use veloria.Base.Int.{ℤ, pos, negsuc}
use veloria.Base.Atoi.{all_digits, atoi}
use veloria.Base.Maps.{lookup, insert}
use veloria.Base.Exchange.{exchange_sort}
use veloria.Store.{Extension, Store, update_index}

-- `r.List[ext.GetSlug()] = ext` for each
unfoldable pub list_all : List Extension → List (Bytes × Extension) → List (Bytes × Extension)
list_all [] m = m
list_all (e ∷ es) m = list_all es (insert e.slug e m)

-- `LoadFromDB`; the flag tells that the loader succeeds
unfoldable pub load_from_db : Option (List Extension) → Store → Bool × Store
load_from_db none s = (false, s)
load_from_db (some es) s = (true, record s { entries = list_all es s.entries; total = length es })

-- the directories of one slug
pub record IndexInfo : Type 0 where
  pub path : Bytes
  pub timestamp : ℕ

-- `isTimestampSuffix`
unfoldable pub is_timestamp_suffix : Bytes → Bool
is_timestamp_suffix s = not (ltb (length s) 9) && all_digits s

-- what stands before and behind the last dot (`strings.LastIndex`)
unfoldable pub cut_last_dot : Bytes → Option (Bytes × Bytes)
cut_last_dot [] = none
cut_last_dot (c ∷ s) = elim (cut_last_dot s) [
  | some (front, back) ↦ some (c ∷ front, back)
  | none ↦ if c == 46 then some ([], s) else none
]

-- the slug and the timestamp, where the suffix is a number that fits
unfoldable pub stamped : Bytes → Bytes → Option ℤ → Bytes × ℕ
stamped name front (some (pos ts)) = (front, ts)
stamped name front (some (negsuc n)) = (name, 0)
stamped name front none = (name, 0)

unfoldable pub split_name : Bytes → Option (Bytes × Bytes) → Bytes × ℕ
split_name name none = (name, 0)
split_name name (some ([], back)) = (name, 0)
split_name name (some (c ∷ front, back)) =
    if is_timestamp_suffix back then stamped name (c ∷ front) (atoi back) else (name, 0)

-- the slug and the timestamp of a directory's name
unfoldable pub parse_name : Bytes → Bytes × ℕ
parse_name name = split_name name (cut_last_dot name)

abbrev pub Groups : Type 0
Groups = List (Bytes × List IndexInfo)

unfoldable pub add_dir : Bytes → Groups → Groups
add_dir name m =
    let slug = (parse_name name).0 in
    insert slug
      (or_default (lookup slug m) []
        ++ record { path = name; timestamp = (parse_name name).1 } ∷ [])
      m

-- `slugToIndexes`; an entry is a name, and whether it is a directory
unfoldable pub group_dirs : List (Bytes × Bool) → Groups → Groups
group_dirs [] m = m
group_dirs ((name, is_dir) ∷ ds) m = group_dirs ds (if is_dir then add_dir name m else m)

-- The test of the sort: a later timestamp comes first.
unfoldable pub newer : IndexInfo → IndexInfo → Bool
newer j i = ltb i.timestamp j.timestamp

-- the legacy directories beside the loaded one
unfoldable pub legacy : Bytes → Bytes → List IndexInfo → List Bytes
legacy slug loaded [] = []
legacy slug loaded (i ∷ is) =
    let rest = legacy slug loaded is in
    if not (bytes_eq i.path loaded) && not (bytes_eq i.path slug) then i.path ∷ rest else rest

module _ (opens : Bytes → Option ℕ) where
  -- The first that opens, with its index, and the paths that are removed on the way.
  unfoldable pub try_open : List IndexInfo → Option (IndexInfo × ℕ) × List Bytes
  try_open [] = (none, [])
  try_open (i ∷ is) = elim (opens i.path) [
    | some idx ↦ (some (i, idx), [])
    | none ↦ let r = try_open is in (r.0, i.path ∷ r.1)
  ]

  -- one round of the loop over the slugs, behind the attempts to open
  unfoldable pub install :
      Bytes
      → List IndexInfo
      → Option (IndexInfo × ℕ) × List Bytes
      → Store × List Bytes
      → Store × List Bytes
  install slug is (none, failed) (s, removed) = (s, removed ++ failed)
  install slug is (some (i, idx), failed) (s, removed) =
      ((update_index idx slug s).1, removed ++ (failed ++ legacy slug i.path is))

  unfoldable pub load_group : Bytes → List IndexInfo → Store × List Bytes → Store × List Bytes
  load_group slug is st =
      let sorted = exchange_sort newer is in install slug sorted (try_open sorted) st

  -- the map's slugs, one after another
  unfoldable pub load_groups : Groups → Store × List Bytes → Store × List Bytes
  load_groups [] st = st
  load_groups ((slug, is) ∷ m) st = load_groups m (load_group slug is st)

  -- `LoadIndexes`, with the paths that it removes; `none` where the index directory cannot be read
  unfoldable pub load_indexes : Option (List (Bytes × Bool)) → Store → Store × List Bytes
  load_indexes none s = (s, [])
  load_indexes (some dirs) s = load_groups (group_dirs dirs []) (s, [])
