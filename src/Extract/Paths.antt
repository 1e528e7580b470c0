-- ===== src/Extract/Paths.antt =====
-- The paths that an extraction writes to: internal/index/extract.go (unzipWithFilterAndStats).
use mathlib.Core.Option.{some_inj}
use veloria.Base.{
  ℕ, ◌≡◌, ◌⊎◌, inl, inr, refl, subst, ◌∙◌, List, [], ◌∷◌, ◌++◌, Bytes, arith, bytes_eq,
  bytes_eq_iff, All, Bool-cases, true, Option, none, some, codes, drop, length, starts_with,
  starts_with_parts, append_assoc,
}
use veloria.Extract.{
  ZipEntry, Extraction, is_legal, trim_prefix, extract_file, count_file, write_file, place,
  place_dir, place_file, extract_entry, extract_named, extract_loop, names, extract_all,
  find_common_prefix,
}
use veloria.Extract.Stats.{proceed_next}

-- as cleaned paths, `p` is the destination, or the destination and a slash are in front of the rest of it
abbrev pub IsInside : (Bytes → Bytes) → Bytes → Bytes → Type 0
IsInside clean dest p =
    (clean p ≡ clean dest) ⊎ ((rest : Bytes) × (clean p ≡ clean dest ++ 47 ∷ rest))

-- it stands inside, or is the parent of the destination
abbrev pub IsParent : (Bytes → Bytes) → (Bytes → Bytes) → Bytes → Bytes → Type 0
IsParent clean dir dest p =
    IsInside clean dest p ⊎ ((q : Bytes) × (clean q ≡ clean dest) × (p ≡ dir q))

-- what `Dir` gives for a path below the destination
abbrev pub DirStays : (Bytes → Bytes) → (Bytes → Bytes) → Bytes → Type 0
DirStays clean dir dest =
    (p rest : Bytes) → clean p ≡ clean dest ++ 47 ∷ rest → IsInside clean dest (dir p)

abbrev IsKept : (Bytes → Bytes) → (Bytes → Bytes) → Bytes → Extraction → Type 0
IsKept clean dir dest x =
    All (IsInside clean dest) x.touched × All (IsParent clean dir dest) x.parents

module _ (join : Bytes → Bytes → Bytes) (clean dir : Bytes → Bytes) (dest : Bytes) (top_n : ℕ)
    (stays : DirStays clean dir dest) where
  is_legal-IsInside :
      (p : Bytes) → is_legal join clean dir dest top_n p ≡ true → IsInside clean dest p
  unfolding is_legal
  is_legal-IsInside p h = elim (Bool-cases (starts_with (clean dest ++ codes "/") (clean p))) [
    | inl e ↦
        let parts = starts_with_parts (clean dest ++ codes "/") (clean p) e in
        let rest = drop (length (clean dest ++ codes "/")) (clean p) in
        inr (rest, parts ∙ append_assoc (clean dest) (codes "/") rest)
    | inr e ↦ inl (ground (arith, h, e, bytes_eq_iff (clean p) (clean dest)))
  ]

  dir-IsParent : (p : Bytes) → IsInside clean dest p → IsParent clean dir dest (dir p)
  dir-IsParent p (inl e) = inr (p, e, refl)
  dir-IsParent p (inr (rest, e)) = inl (stays p rest e)

  write_file-IsKept :
      (name : Bytes) (o : Option ℕ) (x y : Extraction)
      → write_file join clean dir dest top_n name o x ≡ some y
      → IsKept clean dir dest x
      → IsKept clean dir dest y
  unfolding write_file count_file
  write_file-IsKept name none x y h i = absurd (cc h)
  write_file-IsKept name (some w) x y h i = subst (IsKept clean dir dest) (some_inj.0 h) i

  place-IsKept :
      (fpath name : Bytes) (f : ZipEntry) (x y : Extraction)
      → is_legal join clean dir dest top_n fpath ≡ true
      → place join clean dir dest top_n fpath name f x ≡ some y
      → IsKept clean dir dest x
      → IsKept clean dir dest y
  unfolding place place_dir place_file
  place-IsKept fpath name f x y l h i =
      let inside = is_legal-IsInside fpath l in
      elim (Bool-cases f.makes_dirs) [
        | inr m ↦ cc (rw m at h)
        | inl m ↦ elim (Bool-cases f.is_dir) [
          | inl d ↦ subst (IsKept clean dir dest) (some_inj.0 (rw (m, d) at h)) ((inside, i.0), i.1)
          | inr d ↦
              write_file-IsKept name (extract_file f.content)
                (place_file join clean dir dest top_n fpath x) y (rw (m, d) at h)
                ((inside, i.0), (dir-IsParent fpath inside, i.1))
        ]
      ]

  extract_entry-IsKept :
      (name : Bytes) (f : ZipEntry) (x y : Extraction)
      → extract_entry join clean dir dest top_n name f x ≡ some y
      → IsKept clean dir dest x
      → IsKept clean dir dest y
  unfolding extract_entry
  extract_entry-IsKept name f x y h i =
      elim (Bool-cases (is_legal join clean dir dest top_n (join dest name))) [
        | inl l ↦ place-IsKept (join dest name) name f x y l (rw l at h) i
        | inr l ↦ cc (rw l at h)
      ]

  extract_named-IsKept :
      (prefix name : Bytes) (f : ZipEntry) (x y : Extraction)
      → extract_named join clean dir dest top_n prefix name f x ≡ some y
      → IsKept clean dir dest x
      → IsKept clean dir dest y
  unfolding extract_named bytes_eq
  extract_named-IsKept [] [] f x y h i = extract_entry-IsKept [] f x y h i
  extract_named-IsKept (p ∷ prefix) [] f x y h i = subst (IsKept clean dir dest) (some_inj.0 h) i
  extract_named-IsKept prefix (c ∷ name) f x y h i = extract_entry-IsKept (c ∷ name) f x y h i

  extract_loop-IsKept :
      (prefix : Bytes) (fs : List ZipEntry) (x y : Extraction)
      → extract_loop join clean dir dest top_n prefix fs x ≡ some y
      → IsKept clean dir dest x
      → IsKept clean dir dest y
  unfolding extract_loop
  extract_loop-IsKept prefix [] x y h i = subst (IsKept clean dir dest) (some_inj.0 h) i
  extract_loop-IsKept prefix (f ∷ fs) x y h i =
      let (z, hz, hy) =
        proceed_next join clean dir dest top_n
          (extract_named join clean dir dest top_n prefix (trim_prefix prefix f.name) f x)
          (extract_loop join clean dir dest top_n prefix fs) y h in
      extract_loop-IsKept prefix fs z y hy
        (extract_named-IsKept prefix (trim_prefix prefix f.name) f x z hz i)

  -- If `Dir` of a path below the destination is the destination or below it, then each entry of an archive
  -- that is extracted is made as a directory or written as a file at the destination or below it, as
  -- cleaned paths and whatever the names in the archive are; and each directory that is made for a file is
  -- the destination, or below it, or is the parent of the destination, for a file at the destination
  -- itself.
  pub extract_all-IsInside :
      (fs : List ZipEntry) (x : Extraction)
      → extract_all join clean dir dest top_n fs ≡ some x
      → All (IsInside clean dest) x.touched × All (IsParent clean dir dest) x.parents
  unfolding extract_all
  extract_all-IsInside fs x h =
      extract_loop-IsKept (find_common_prefix (names join clean dir dest top_n fs)) fs _ x h
        (tt, tt)
