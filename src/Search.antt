-- ===== src/Search.antt =====
-- `SearchCompiled` of internal/index/index.go: one extension's candidate files, searched in order.
-- The posting query of the trigram index, the compiled regexps and the file system are parameters.
pub mod Bounds
use veloria.Base.{
  ℕ, ◌+◌, ◌-◌, Bool, true, false, ◌&&◌, ◌||◌, Option, none, some, List, [], ◌∷◌, ◌++◌, length, ltb,
  leb, if◌then◌else◌, Bytes, or_default, codes, cut_after,
}
use veloria.Grep.{Match, grep_data}

pub record FileMatch : Type 0 where
  pub filename : Bytes
  pub matches : List Match

-- the compiled search: `fre` and `exclude_fre` are `MatchString` of the file regexps, if there are any
pub record CompiledSearch : Type 0 where
  pub re : Bytes → Bool → Option ℕ
  pub content_re : Option (Bytes → Option ℕ)
  pub fre : Option (Bytes → Bool)
  pub exclude_fre : Option (Bytes → Bool)
  pub max_results : ℕ
  pub lines_of_context : ℕ
  pub offset : ℕ
  pub limit : ℕ

-- the variables of the loop
pub record Progress : Type 0 where
  pub results : List FileMatch
  pub files_opened : ℕ
  pub files_found : ℕ
  pub files_collected : ℕ
  pub matches_collected : ℕ

pub record SearchResponse : Type 0 where
  pub matches : List FileMatch
  pub files_with_match : ℕ
  pub files_opened : ℕ

-- the two `continue` tests on the name of a file
unfoldable pub is_filtered : CompiledSearch → Bytes → Bool
is_filtered cs name =
    elim cs.fre [ none ↦ false | some f ↦ elim (f name) [ true ↦ false | false ↦ true ] ]
    || elim cs.exclude_fre [ none ↦ false | some f ↦ f name ]

-- the name behind "/source/", if that stands in it
unfoldable pub rel_name : Bytes → Bytes
unfolding cut_after
rel_name name = or_default (cut_after (codes "/source/") name) name

-- what the loop does with the matches of one file
unfoldable pub collect : CompiledSearch → Bytes → List Match → Progress → Progress
collect cs name [] s = s
collect cs name (m ∷ ms) s =
    let t = record s { files_found = s.files_found + 1 } in
    if leb t.files_found cs.offset
    then t
    else if ltb 0 cs.limit && leb cs.limit t.files_collected
    then t
    else record t {
      files_collected = t.files_collected + 1;
      matches_collected = t.matches_collected + length (m ∷ ms);
      results = t.results ++ record { filename = rel_name name; matches = m ∷ ms } ∷ [];
    }

-- one file: `read` is `readSourceFileBuf`, with `none` for an error
unfoldable pub visit : (Bytes → Option Bytes) → CompiledSearch → Bytes → Progress → Progress
visit read cs name s =
    if is_filtered cs name
    then s
    else let t = record s { files_opened = s.files_opened + 1 } in
      elim (read name) [
        | none ↦ t
        | some content ↦
            collect cs name
              (grep_data cs.re cs.content_re cs.lines_of_context
                (cs.max_results - t.matches_collected) content)
              t
      ]

unfoldable pub search_loop :
    (Bytes → Option Bytes) → CompiledSearch → List Bytes → Progress → Progress
search_loop read cs [] s = s
search_loop read cs (name ∷ names) s = elim (leb cs.max_results s.matches_collected) [
  | true ↦ s
  | false ↦ search_loop read cs names (visit read cs name s)
]

abbrev pub start : Progress
start = record {
  results = [];
  files_opened = 0;
  files_found = 0;
  files_collected = 0;
  matches_collected = 0;
}

-- `files` are the names of the posting query's files; a closed index answers nil.
unfoldable pub search_compiled :
    (Bytes → Option Bytes) → CompiledSearch → Option (List Bytes) → Option SearchResponse
search_compiled read cs none = none
search_compiled read cs (some names) =
    let s = search_loop read cs names start in
    some (record {
      matches = s.results;
      files_with_match = s.files_found;
      files_opened = s.files_opened;
    })
