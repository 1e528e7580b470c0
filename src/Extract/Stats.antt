-- ===== src/Extract/Stats.antt =====
-- The statistics of an extraction: internal/index/extract.go (unzipWithFilterAndStats).
use mathlib.Core.List.{Perm, perm_middle, reverse-reverse}
use mathlib.Core.List.Perm
use mathlib.Core.Option.{some_inj}
use veloria.Base.{
  ℕ, ◌+◌, ◌≤◌, ◌≡◌, refl, sym, ap, ◌∙◌, List, [], ◌∷◌, ◌++◌, length, Bytes, All, All-append, arith,
  subst, append-nil, true, false, Bool, Option, none, some, or_default, not, ◌&&◌, bytes_eq, ◌||◌,
  if◌then◌else◌, reverse, length-append,
}
use veloria.Extract.{
  FileStat, ExtractStats, ZipEntry, Extraction, is_text, trim_prefix, extract_file,
  max_decompress_size, count_file, write_file, place, place_dir, place_file, extract_entry,
  extract_named, proceed, extract_loop, names, stats_of, extract_all, unzip_with_stats,
  find_common_prefix, largest,
}
use veloria.Extract.Heap.{IsTop, IsTop-none, IsTop-perm, track-IsTop}

abbrev sum_of_sizes : List FileStat → ℕ
sum_of_sizes [] = 0
sum_of_sizes (f ∷ fs) = f.size + sum_of_sizes fs

abbrev texts : List FileStat → ℕ
texts [] = 0
texts (f ∷ fs) = (if is_text f.path then 1 else 0) + texts fs

sum_of_sizes-append :
    (xs ys : List FileStat) → sum_of_sizes (xs ++ ys) ≡ sum_of_sizes xs + sum_of_sizes ys
sum_of_sizes-append [] ys = omega arith
sum_of_sizes-append (x ∷ xs) ys = omega (arith, sum_of_sizes-append xs ys)

texts-append : (xs ys : List FileStat) → texts (xs ++ ys) ≡ texts xs + texts ys
texts-append [] ys = omega arith
texts-append (x ∷ xs) ys = omega (arith, texts-append xs ys)

append_perm : (a b d : List FileStat) → Perm (b ++ (a ++ d)) ((a ++ b) ++ d)
append_perm [] b d = Perm.refl (b ++ d)
append_perm (x ∷ a) b d = Perm.trans (perm_middle b (a ++ d)) (Perm.cons x (append_perm a b d))

-- An archive's entry stands for a file, but if it is a directory or nothing of its name is left behind
-- the prefix.
abbrev is_empty : Bytes → Bool
is_empty [] = true
is_empty (c ∷ s) = false

abbrev file_of : Bytes → Bytes → ZipEntry → List FileStat
file_of prefix name f =
    if f.is_dir || (is_empty name && not (is_empty prefix))
    then []
    else record { path = name; size = or_default f.content 0 } ∷ []

abbrev pub files_of : Bytes → List ZipEntry → List FileStat
files_of prefix [] = []
files_of prefix (f ∷ fs) = file_of prefix (trim_prefix prefix f.name) f ++ files_of prefix fs

-- The statistics `s` are those of `files`.
pub record IsStatsOf (n : ℕ) (s : ExtractStats) (files : List FileStat) : Type 0 where
  pub are_counted : s.file_count ≡ length files
  pub texts_are_counted : s.text_file_count ≡ texts files
  pub sizes_are_summed : s.total_size ≡ sum_of_sizes files
  pub each_fits : All (λ f. f.size ≤ max_decompress_size) files
  pub are_top : IsTop n (reverse s.largest_files) files

-- From `x` to `y`, `files` are counted.
record Counts (n : ℕ) (x y : Extraction) (files : List FileStat) : Type 0 where
  counts_files : y.file_count ≡ x.file_count + length files
  counts_texts : y.text_file_count ≡ x.text_file_count + texts files
  sums_sizes : y.total_size ≡ x.total_size + sum_of_sizes files
  fit_limit : All (λ f. f.size ≤ max_decompress_size) files
  keeps_top : (done : List FileStat) → IsTop n x.heap done → IsTop n y.heap (files ++ done)

Counts-none :
    (n : ℕ) (x y : Extraction)
    → y.file_count ≡ x.file_count
    → y.text_file_count ≡ x.text_file_count
    → y.total_size ≡ x.total_size
    → y.heap ≡ x.heap
    → Counts n x y []
Counts-none n x y p q r s = record {
  counts_files = omega (arith, p);
  counts_texts = omega (arith, q);
  sums_sizes = omega (arith, r);
  fit_limit = tt;
  keeps_top = λ done t. subst (λ h. IsTop n h done) (sym s) t;
}

Counts-append :
    (n : ℕ) (x y z : Extraction) (xs ys : List FileStat)
    → Counts n x y xs
    → Counts n y z ys
    → Counts n x z (xs ++ ys)
Counts-append n x y z xs ys c d = record {
  counts_files = omega (arith, c.counts_files, d.counts_files, length-append xs ys);
  counts_texts = omega (arith, c.counts_texts, d.counts_texts, texts-append xs ys);
  sums_sizes = omega (arith, c.sums_sizes, d.sums_sizes, sum_of_sizes-append xs ys);
  fit_limit = All-append (λ f. f.size ≤ max_decompress_size) xs ys c.fit_limit d.fit_limit;
  keeps_top = λ done t.
      IsTop-perm n z.heap (ys ++ (xs ++ done)) ((xs ++ ys) ++ done) (append_perm xs ys done)
        (d.keeps_top (xs ++ done) (c.keeps_top done t));
}

or_false : (b : Bool) → (b || false) ≡ b
or_false b = ground arith

or_true : (b : Bool) → (b || true) ≡ true
or_true b = ground arith

extract_file_fits : (c w : ℕ) → extract_file (some c) ≡ some w → (c ≤ max_decompress_size) × (w ≡ c)
unfolding extract_file
extract_file_fits c w h = ground arith

module _ (join : Bytes → Bytes → Bytes) (clean dir : Bytes → Bytes) (dest : Bytes) (top_n : ℕ) where
  count_file-Counts :
      (name : Bytes) (size : ℕ) (x : Extraction)
      → size ≤ max_decompress_size
      → Counts top_n x
          (count_file join clean dir dest top_n name size x)
          (record { path = name; size = size } ∷ [])
  unfolding count_file
  count_file-Counts name size x l = record {
    counts_files = omega arith;
    counts_texts = ground arith;
    sums_sizes = omega arith;
    fit_limit = (l, tt);
    keeps_top = λ done t. track-IsTop top_n (record { path = name; size = size }) x.heap done t;
  }

  write_file-Counts :
      (name : Bytes) (c o : Option ℕ) (x y : Extraction)
      → extract_file c ≡ o
      → write_file join clean dir dest top_n name o x ≡ some y
      → Counts top_n x y (record { path = name; size = or_default c 0 } ∷ [])
  unfolding write_file
  write_file-Counts name c none x y h e = absurd (cc e)
  write_file-Counts name none (some w) x y h e = unfold extract_file in absurd (cc h)
  write_file-Counts name (some c) (some w) x y h e =
      let l = extract_file_fits c w h in
      subst (λ z. Counts top_n x z (record { path = name; size = c } ∷ []))
        (ap (λ v. count_file join clean dir dest top_n name v x) (sym l.1) ∙ some_inj.0 e)
        (count_file-Counts name c x l.0)

  place-Counts :
      (fpath name : Bytes) (f : ZipEntry) (x y : Extraction) (b d : Bool)
      → f.makes_dirs ≡ b
      → f.is_dir ≡ d
      → place join clean dir dest top_n fpath name f x ≡ some y
      → Counts top_n x y
          (if d then [] else record { path = name; size = or_default f.content 0 } ∷ [])
  unfolding place place_dir place_file
  place-Counts fpath name f x y false d hb hd h = absurd (ground arith)
  place-Counts fpath name f x y true true hb hd h =
      let t : Extraction = place_dir join clean dir dest top_n fpath x in
      let e : t ≡ y = ground arith in
      subst (λ z. Counts top_n x z []) e (Counts-none top_n x t refl refl refl refl)
  place-Counts fpath name f x y true false hb hd h =
      let t : Extraction = place_file join clean dir dest top_n fpath x in
      let e : write_file join clean dir dest top_n name (extract_file f.content) t ≡ some y =
        ground arith in
      Counts-append top_n x t y [] (record { path = name; size = or_default f.content 0 } ∷ [])
        (Counts-none top_n x t refl refl refl refl)
        (write_file-Counts name f.content (extract_file f.content) t y refl e)

  extract_entry-Counts :
      (name : Bytes) (f : ZipEntry) (x y : Extraction)
      → extract_entry join clean dir dest top_n name f x ≡ some y
      → Counts top_n x y
          (if f.is_dir then [] else record { path = name; size = or_default f.content 0 } ∷ [])
  unfolding extract_entry
  extract_entry-Counts name f x y h =
      place-Counts (join dest name) name f x y f.makes_dirs f.is_dir refl refl (ground arith)

  extract_named-Counts :
      (prefix name : Bytes) (f : ZipEntry) (x y : Extraction)
      → extract_named join clean dir dest top_n prefix name f x ≡ some y
      → Counts top_n x y (file_of prefix name f)
  unfolding extract_named bytes_eq
  extract_named-Counts [] [] f x y h = rw (or_false f.is_dir) (extract_entry-Counts [] f x y h)
  extract_named-Counts (p ∷ prefix) [] f x y h =
      rw (or_true f.is_dir) (
        subst (λ z. Counts top_n x z []) (some_inj.0 h) (Counts-none top_n x x refl refl refl refl))
  extract_named-Counts prefix (c ∷ name) f x y h =
      rw (or_false f.is_dir) (extract_entry-Counts (c ∷ name) f x y h)

  pub proceed_next :
      (o : Option Extraction) (rest : Extraction → Option Extraction) (y : Extraction)
      → proceed join clean dir dest top_n o rest ≡ some y
      → (z : Extraction) × (o ≡ some z) × (rest z ≡ some y)
  unfolding proceed
  proceed_next none rest y h = absurd (cc h)
  proceed_next (some z) rest y h = (z, refl, h)

  extract_loop-Counts :
      (prefix : Bytes) (fs : List ZipEntry) (x y : Extraction)
      → extract_loop join clean dir dest top_n prefix fs x ≡ some y
      → Counts top_n x y (files_of prefix fs)
  unfolding extract_loop
  extract_loop-Counts prefix [] x y h =
      subst (λ z. Counts top_n x z []) (some_inj.0 h) (Counts-none top_n x x refl refl refl refl)
  extract_loop-Counts prefix (f ∷ fs) x y h =
      let (z, hz, hy) =
        proceed_next
          (extract_named join clean dir dest top_n prefix (trim_prefix prefix f.name) f x)
          (extract_loop join clean dir dest top_n prefix fs) y h in
      Counts-append top_n x z y (file_of prefix (trim_prefix prefix f.name) f) (files_of prefix fs)
        (extract_named-Counts prefix (trim_prefix prefix f.name) f x z hz)
        (extract_loop-Counts prefix fs z y hy)

  abbrev nothing_extracted : Extraction
  nothing_extracted = record {
    file_count = 0;
    text_file_count = 0;
    total_size = 0;
    heap = [];
    touched = [];
    parents = [];
  }

  stats_of-some :
      (o : Option Extraction) (s : ExtractStats)
      → stats_of join clean dir dest top_n o ≡ some s
      → (x : Extraction) × (o ≡ some x)
        × (record {
          file_count = x.file_count;
          text_file_count = x.text_file_count;
          total_size = x.total_size;
          largest_files = largest x.heap;
        }
            ≡ s)
  unfolding stats_of
  stats_of-some none s h = absurd (cc h)
  stats_of-some (some x) s h = (x, refl, some_inj.0 h)

  stats-IsStatsOf :
      (x : Extraction) (files : List FileStat)
      → Counts top_n nothing_extracted x files
      → IsStatsOf top_n
          (record {
            file_count = x.file_count;
            text_file_count = x.text_file_count;
            total_size = x.total_size;
            largest_files = largest x.heap;
          })
          files
  unfolding largest
  stats-IsStatsOf x files c = record {
    are_counted = omega (arith, c.counts_files);
    texts_are_counted = omega (arith, c.counts_texts);
    sizes_are_summed = omega (arith, c.sums_sizes);
    each_fits = c.fit_limit;
    are_top = rw (reverse-reverse x.heap, ← append-nil files) (c.keeps_top [] (IsTop-none top_n));
  }

  -- The statistics of an archive that is extracted are those of its files, the entries that are no
  -- directories and have a name left behind the common prefix: how many there are, how many have one of
  -- the extensions that are indexed, and the sum of their sizes, of which none is above
  -- `max_decompress_size`. The largest files are listed in descending order, at most `top_n` of them; a
  -- file is left out only if `top_n` are listed, and only if none of these is smaller.
  pub unzip_with_stats-IsStatsOf :
      (fs : List ZipEntry) (s : ExtractStats)
      → unzip_with_stats join clean dir dest top_n fs ≡ some s
      → IsStatsOf top_n s (files_of (find_common_prefix (names join clean dir dest top_n fs)) fs)
  unfolding unzip_with_stats extract_all
  unzip_with_stats-IsStatsOf fs s h =
      let prefix : Bytes = find_common_prefix (names join clean dir dest top_n fs) in
      let (x, hx, hs) = stats_of-some (extract_all join clean dir dest top_n fs) s h in
      subst (λ t. IsStatsOf top_n t (files_of prefix fs)) hs
        (stats-IsStatsOf x (files_of prefix fs)
          (extract_loop-Counts prefix fs nothing_extracted x hx))
