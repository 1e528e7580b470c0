-- ===== src/Codec/Laws.antt =====
-- The round trip of the stored form.
use veloria.Base.{ℕ, ◌≤◌, ◌≡◌, refl, Option, none, some, List, [], ◌∷◌, Bytes, min, arith, All}
use veloria.Grep.{Match}
use veloria.Codec.{
  max_int32, FileMatch, SearchResult, SearchResponse, convert_all, valid_utf8_slice, match_to_proto,
  file_match_to_proto, search_result_to_proto, search_response_to_proto, match_from_proto,
  file_match_from_proto, search_result_from_proto, search_response_from_proto,
}

-- an entry is there, and has the property
pub data IsThere {A : Type 0} (P : A → Type 0) : Option A → Type 0 where
  there : {a : A} → P a → IsThere P (some a)

convert_all_back :
    {A : Type 0} (P : A → Type 0) (f g : A → A)
    → ((a : A) → P a → g (f a) ≡ a)
    → (xs : List (Option A)) → All (IsThere P) xs
    → convert_all g (convert_all f xs) ≡ xs
unfolding convert_all
convert_all_back P f g h [] a = refl
convert_all_back P f g h (none ∷ xs) (n, a) = elim n [ ]
convert_all_back P f g h (some x ∷ xs) (there p, a) = rw (h x p, convert_all_back P f g h xs a)

min_fits : (n : ℕ) → n ≤ max_int32 → min n max_int32 ≡ n
min_fits n h = omega (arith, h)

module _ (valid unescape : Bytes → Bytes) where
  -- valid UTF-8: `ToValidUTF8` leaves it as it is
  abbrev pub IsValid : Bytes → Type 0
  IsValid s = valid s ≡ s

  pub record IsStorableMatch (m : Match) : Type 0 where
    pub line_valid : IsValid m.line
    pub number_fits : m.line_number ≤ max_int32
    pub before_valid : All IsValid m.before
    pub after_valid : All IsValid m.after

  pub record IsStorableFile (m : FileMatch) : Type 0 where
    pub filename_valid : IsValid m.filename
    pub matches_storable : All (IsThere IsStorableMatch) m.matches

  pub record IsStorableResult (r : SearchResult) : Type 0 where
    pub slug_valid : IsValid r.slug
    pub name_valid : IsValid r.name
    pub name_plain : unescape r.name ≡ r.name
    pub version_valid : IsValid r.version
    pub files_storable : All (IsThere IsStorableFile) r.matches
    pub total_fits : r.total_matches ≤ max_int32

  -- no entry is nil, all strings are valid UTF-8, the names hold no HTML entity, the counts fit an
  -- int32
  pub record IsStorable (resp : SearchResponse) : Type 0 where
    pub results_storable : All (IsThere IsStorableResult) resp.results
    pub response_fits : resp.total ≤ max_int32

  slice_back : (ss : List Bytes) → All IsValid ss → valid_utf8_slice valid ss ≡ ss
  unfolding valid_utf8_slice
  slice_back [] a = refl
  slice_back (s ∷ ss) (h, a) = rw (h, slice_back ss a)

  match_back : (m : Match) → IsStorableMatch m → match_from_proto (match_to_proto valid m) ≡ m
  unfolding match_from_proto match_to_proto
  match_back m h = rw (
    h.line_valid,
    min_fits m.line_number h.number_fits,
    slice_back m.before h.before_valid,
    slice_back m.after h.after_valid,
  )

  file_back :
      (m : FileMatch) → IsStorableFile m → file_match_from_proto (file_match_to_proto valid m) ≡ m
  unfolding file_match_from_proto file_match_to_proto
  file_back m h = rw (
    h.filename_valid,
    convert_all_back IsStorableMatch (match_to_proto valid) match_from_proto match_back m.matches
        h.matches_storable,
  )

  result_back :
      (r : SearchResult)
      → IsStorableResult r
      → search_result_from_proto unescape (search_result_to_proto valid r) ≡ r
  unfolding search_result_from_proto search_result_to_proto
  result_back r h = rw (
    h.slug_valid,
    h.name_valid,
    h.name_plain,
    h.version_valid,
    min_fits r.total_matches h.total_fits,
    convert_all_back IsStorableFile (file_match_to_proto valid) file_match_from_proto file_back
        r.matches h.files_storable,
  )

  -- A response without nil entries, whose strings are valid UTF-8, whose names hold no HTML entity and
  -- whose counts fit an int32, comes back from its stored form as it was.
  pub search_response_round_trip :
      (resp : SearchResponse)
      → IsStorable resp
      → search_response_from_proto unescape (search_response_to_proto valid (some resp)) ≡ some resp
  unfolding search_response_from_proto search_response_to_proto
  search_response_round_trip resp h = rw (
    min_fits resp.total h.response_fits,
    convert_all_back IsStorableResult (search_result_to_proto valid)
        (search_result_from_proto unescape) result_back resp.results h.results_storable,
  )
