-- ===== src/Extract.antt =====
-- The extraction of a release with its statistics: internal/index/extract.go. The archive's entries,
-- what reading and writing them gives, and package filepath's `Join`, `Clean` and `Dir` are
-- parameters.
pub mod Heap
pub mod Paths
pub mod Stats
use veloria.Base.{
  ℕ, zero, suc, ◌+◌, ◌*◌, Bool, true, false, ◌&&◌, ◌||◌, not, Option, none, some, List, [], ◌∷◌,
  ◌++◌, reverse, length, ltb, leb, ◌==◌, if◌then◌else◌, Bytes, codes, bytes_eq, starts_with, drop,
  min,
}

-- `maxDecompressSize`
abbrev pub max_decompress_size : ℕ
max_decompress_size = 256 * 1024 * 1024

pub record FileStat : Type 0 where
  pub path : Bytes
  pub size : ℕ

pub record ExtractStats : Type 0 where
  pub file_count : ℕ
  pub text_file_count : ℕ
  pub total_size : ℕ
  pub largest_files : List FileStat

-- The heap of package container/heap as the list of its elements, the smallest first: `Push` inserts,
-- `Pop` takes the first, which `(*h)[0]` is too.
unfoldable pub push : FileStat → List FileStat → List FileStat
push f [] = f ∷ []
push f (g ∷ h) = let rest = push f h in if leb f.size g.size then f ∷ (g ∷ h) else g ∷ rest

-- the replacement of the smallest element
unfoldable pub replace_least : FileStat → List FileStat → List FileStat
replace_least f [] = []
replace_least f (g ∷ h) = if ltb g.size f.size then push f h else g ∷ h

unfoldable pub track : ℕ → FileStat → List FileStat → List FileStat
track top_n f h = if ltb (length h) top_n then push f h else replace_least f h

-- the elements popped into the slice from its end; the sort behind leaves them as they are
unfoldable pub largest : List FileStat → List FileStat
largest h = reverse h

-- `strings.ToLower` on ASCII text
unfoldable pub to_lower : Bytes → Bytes
to_lower [] = []
to_lower (c ∷ s) =
    let rest = to_lower s in if leb 65 c && leb c 90 then (c + 32) ∷ rest else c ∷ rest

-- `filepath.Ext`: from the last dot of the last element on
unfoldable pub ext_from : Bytes → Bytes → Bytes
ext_from found [] = found
ext_from found (c ∷ s) =
    if c == 47 then ext_from [] s else if c == 46 then ext_from (c ∷ s) s else ext_from found s

unfoldable pub member : Bytes → List Bytes → Bool
member x [] = false
member x (y ∷ ys) = bytes_eq x y || member x ys

abbrev pub indexable_extensions : List Bytes
indexable_extensions =
    codes ".txt"
    ∷ codes ".md"
    ∷ codes ".html"
    ∷ codes ".xml"
    ∷ codes ".json"
    ∷ codes ".yaml"
    ∷ codes ".yml"
    ∷ codes ".php"
    ∷ codes ".js"
    ∷ codes ".jsx"
    ∷ codes ".css"
    ∷ codes ".ts"
    ∷ codes ".tsx"
    ∷ codes ".sql"
    ∷ codes ".pot"
    ∷ codes ".twig"
    ∷ codes ".mustache"
    ∷ codes ".svg"
    ∷ codes ".less"
    ∷ codes ".scss"
    ∷ codes ".sass"
    ∷ codes ".vue"
    ∷ codes ".svelte"
    ∷ []

unfoldable pub is_text : Bytes → Bool
is_text name = member (to_lower (ext_from [] name)) indexable_extensions

-- the part in front of the first slash, if there is one
unfoldable pub first_dir : Bytes → Option Bytes
first_dir [] = none
first_dir (c ∷ s) =
    if c == 47 then some [] else elim (first_dir s) [ none ↦ none | some d ↦ some (c ∷ d) ]

-- The loop of `findCommonPrefix`. An empty directory counts as none found so far.
unfoldable pub agree : Bytes → Bytes → Option Bytes
agree [] dir = some dir
agree (c ∷ common) dir = if bytes_eq dir (c ∷ common) then some (c ∷ common) else none

unfoldable pub or_none : Option Bytes → (Bytes → Option Bytes) → Option Bytes
or_none none rest = none
or_none (some d) rest = rest d

unfoldable pub common_dir : Bytes → List Bytes → Option Bytes
common_dir common [] = some common
common_dir common (name ∷ names) =
    or_none (first_dir name) (λ dir. or_none (agree common dir) (λ d. common_dir d names))

unfoldable pub prefix_of : Option Bytes → Bytes
prefix_of none = []
prefix_of (some []) = []
prefix_of (some (c ∷ d)) = (c ∷ d) ++ codes "/"

-- `findCommonPrefix`
unfoldable pub find_common_prefix : List Bytes → Bytes
find_common_prefix names = prefix_of (common_dir [] names)

-- `strings.TrimPrefix`
unfoldable pub trim_prefix : Bytes → Bytes → Bytes
trim_prefix prefix name = if starts_with prefix name then drop (length prefix) name else name

-- An entry: its name, whether it is a directory, whether the directories for it can be made, and how
-- much there is to extract, `none` for an error.
pub record ZipEntry : Type 0 where
  pub name : Bytes
  pub is_dir : Bool
  pub makes_dirs : Bool
  pub content : Option ℕ

-- `extractFileWithSize`: at most one byte more than the maximum is copied
unfoldable pub extract_file : Option ℕ → Option ℕ
extract_file none = none
extract_file (some size) =
    let written = min size (max_decompress_size + 1) in
    if ltb max_decompress_size written then none else some written

-- The variables of the loop; the paths of the entries that directories are made at or files written to; and
-- the paths of the directories that are made for files (`MkdirAll`).
pub record Extraction : Type 0 where
  pub file_count : ℕ
  pub text_file_count : ℕ
  pub total_size : ℕ
  pub heap : List FileStat
  pub touched : List Bytes
  pub parents : List Bytes

module _ (join : Bytes → Bytes → Bytes) (clean dir : Bytes → Bytes) (dest : Bytes) (top_n : ℕ) where
  -- the check of the path
  unfoldable pub is_legal : Bytes → Bool
  is_legal fpath =
      starts_with (clean dest ++ codes "/") (clean fpath) || bytes_eq (clean fpath) (clean dest)

  unfoldable pub count_file : Bytes → ℕ → Extraction → Extraction
  count_file name written x = record x {
    file_count = x.file_count + 1;
    total_size = x.total_size + written;
    text_file_count = if is_text name then x.text_file_count + 1 else x.text_file_count;
    heap = track top_n (record { path = name; size = written }) x.heap;
  }

  unfoldable pub write_file : Bytes → Option ℕ → Extraction → Option Extraction
  write_file name none x = none
  write_file name (some written) x = some (count_file name written x)

  unfoldable pub place_dir : Bytes → Extraction → Extraction
  place_dir fpath x = record x { touched = fpath ∷ x.touched }

  unfoldable pub place_file : Bytes → Extraction → Extraction
  place_file fpath x = record x { touched = fpath ∷ x.touched; parents = dir fpath ∷ x.parents }

  unfoldable pub place : Bytes → Bytes → ZipEntry → Extraction → Option Extraction
  place fpath name f x =
      if f.makes_dirs
      then if f.is_dir
        then some (place_dir fpath x)
        else write_file name (extract_file f.content) (place_file fpath x)
      else none

  -- an entry with its name behind the prefix
  unfoldable pub extract_entry : Bytes → ZipEntry → Extraction → Option Extraction
  extract_entry name f x =
      if is_legal (join dest name) then place (join dest name) name f x else none

  unfoldable pub extract_named : Bytes → Bytes → ZipEntry → Extraction → Option Extraction
  extract_named prefix [] f x = if bytes_eq prefix [] then extract_entry [] f x else some x
  extract_named prefix (c ∷ name) f x = extract_entry (c ∷ name) f x

  unfoldable pub proceed : Option Extraction → (Extraction → Option Extraction) → Option Extraction
  proceed none rest = none
  proceed (some x) rest = rest x

  unfoldable pub extract_loop : Bytes → List ZipEntry → Extraction → Option Extraction
  extract_loop prefix [] x = some x
  extract_loop prefix (f ∷ fs) x =
      proceed (extract_named prefix (trim_prefix prefix f.name) f x) (extract_loop prefix fs)

  unfoldable pub names : List ZipEntry → List Bytes
  names [] = []
  names (f ∷ fs) = f.name ∷ names fs

  unfoldable pub stats_of : Option Extraction → Option ExtractStats
  stats_of none = none
  stats_of (some x) = some (record {
    file_count = x.file_count;
    text_file_count = x.text_file_count;
    total_size = x.total_size;
    largest_files = largest x.heap;
  })

  unfoldable pub extract_all : List ZipEntry → Option Extraction
  extract_all fs = extract_loop (find_common_prefix (names fs)) fs (record {
    file_count = 0;
    text_file_count = 0;
    total_size = 0;
    heap = [];
    touched = [];
    parents = [];
  })

  -- `unzipWithFilterAndStats` without a filter
  unfoldable pub unzip_with_stats : List ZipEntry → Option ExtractStats
  unzip_with_stats fs = stats_of (extract_all fs)
