-- ===== src/Examples/Indexing.antt =====
-- A run of the indexer that fails late, and an archive that is extracted.
use veloria.Base.{
  ◌≡◌, refl, true, false, none, some, List, [], ◌∷◌, ◌++◌, Bytes, codes, starts_with, bytes_eq,
}
use veloria.Indexer.{Disk, Calls, run}
use veloria.Indexer.Laws.{Gives, run-Gives}
use veloria.Extract.{
  ZipEntry, ExtractStats, Extraction, find_common_prefix, names, unzip_with_stats, extract_all,
  extract_loop, extract_named, extract_entry, proceed, place, place_dir, place_file, write_file,
  extract_file, count_file, is_legal, trim_prefix, track, push, replace_least, largest, stats_of,
  is_text, to_lower, ext_from, member, first_dir, agree, or_none, common_dir, prefix_of,
}
use veloria.Extract.Stats.{IsStatsOf, files_of, unzip_with_stats-IsStatsOf}
use veloria.Extract.Paths.{IsInside, IsParent, DirStays, extract_all-IsInside}
use veloria.Base.{All, inl, inr, Option, or_default, Option-cases, if◌then◌else◌, ◌==◌, []}

abbrev installed : Disk
installed = record { source = some 1; old = none; staging = none; temporary = none; index = some 1 }

-- the staging directory cannot be moved
abbrev stuck : Calls
stuck = record {
  config_loads = true;
  locks = true;
  downloads = true;
  clears_staging = true;
  makes_staging = true;
  unzips = true;
  makes_index_dir = true;
  creates_index = true;
  compresses = true;
  clears_old = true;
  moves_old = true;
  moves_staging = false;
  restores = true;
  moves_index = true;
  release = 2;
}

run-Gives_example : Gives stuck installed (run stuck installed)
run-Gives_example = run-Gives stuck installed refl refl refl

abbrev join : Bytes → Bytes → Bytes
join dir name = dir ++ codes "/" ++ name

abbrev clean : Bytes → Bytes
clean path = path

-- what stands in front of the last slash
abbrev front : Bytes → Option Bytes
front [] = none
front (c ∷ s) = elim (front s) [ some f ↦ some (c ∷ f) | none ↦ if c == 47 then some [] else none ]

abbrev parent : Bytes → Bytes
parent path = or_default (front path) (codes ".")

abbrev destination : Bytes
destination = codes "/d"

abbrev archive : List ZipEntry
archive =
    record { name = codes "a/"; is_dir = true; makes_dirs = true; content = none }
    ∷ record { name = codes "a/x.php"; is_dir = false; makes_dirs = true; content = some 30 }
    ∷ record { name = codes "a/y.txt"; is_dir = false; makes_dirs = true; content = some 10 }
    ∷ record { name = codes "a/z.png"; is_dir = false; makes_dirs = true; content = some 20 }
    ∷ []

abbrev archive_stats : ExtractStats
archive_stats = record {
  file_count = 3;
  text_file_count = 2;
  total_size = 60;
  largest_files =
      record { path = codes "x.php"; size = 30 } ∷ record { path = codes "z.png"; size = 20 } ∷ [];
}

archive_extracted : unzip_with_stats join clean parent destination 2 archive ≡ some archive_stats
unfolding unzip_with_stats extract_all extract_loop extract_named extract_entry proceed place
    place_dir place_file write_file extract_file count_file is_legal trim_prefix track push
    replace_least largest stats_of is_text to_lower ext_from member first_dir agree or_none
    common_dir prefix_of find_common_prefix names bytes_eq starts_with
archive_extracted = refl

unzip_with_stats-IsStatsOf_example :
    IsStatsOf 2 archive_stats
      (files_of (find_common_prefix (names join clean parent destination 2 archive)) archive)
unzip_with_stats-IsStatsOf_example =
    unzip_with_stats-IsStatsOf join clean parent destination 2 archive archive_stats
      archive_extracted

abbrev extracted : Extraction
extracted = record {
  file_count = 3;
  text_file_count = 2;
  total_size = 60;
  heap =
      record { path = codes "z.png"; size = 20 } ∷ record { path = codes "x.php"; size = 30 } ∷ [];
  touched = codes "/d/z.png" ∷ codes "/d/y.txt" ∷ codes "/d/x.php" ∷ [];
  parents = codes "/d" ∷ codes "/d" ∷ codes "/d" ∷ [];
}

archive_touched : extract_all join clean parent destination 2 archive ≡ some extracted
unfolding extract_all extract_loop extract_named extract_entry proceed place place_dir place_file
    write_file extract_file count_file is_legal trim_prefix track push replace_least is_text
    to_lower ext_from member first_dir agree or_none common_dir prefix_of find_common_prefix names
    bytes_eq starts_with
archive_touched = refl

-- `clean` is the identity here.
parent-DirStays : DirStays clean parent destination
parent-DirStays p rest e = elim (Option-cases (front rest)) [
  | inl n ↦ rw (e, n) (inl refl)
  | inr (f, h) ↦ rw (e, h) (inr (f, refl))
]

extract_all-IsInside_example :
    All (IsInside clean destination) extracted.touched
    × All (IsParent clean parent destination) extracted.parents
extract_all-IsInside_example =
    extract_all-IsInside join clean parent destination 2 parent-DirStays archive extracted
      archive_touched
