-- ===== src/Mcp/Pages/Text.antt =====
-- The text of the answers: internal/mcp/format.go.
use veloria.Base.{
  ℕ, ◌+◌, ◌-◌, Bool, true, false, Option, none, some, List, [], ◌∷◌, ◌++◌, length, take, ltb,
  if◌then◌else◌, Bytes, codes,
}
use veloria.Base.Decimal.{decimal}
use veloria.Mcp.Persist.{ExtensionResult, ToolResponse}
use veloria.Mcp.Numbers.{format_number}
use veloria.Mcp.Pages.{
  FlatMatch, MatchesPage, no_matches, matches_page, search_matches_page, ExtensionSummary,
  ListResponse, next_offset,
}

-- the dashes, as UTF-8
abbrev em_dash : Bytes
em_dash = 226 ∷ 128 ∷ 148 ∷ []

abbrev en_dash : Bytes
en_dash = 226 ∷ 128 ∷ 147 ∷ []

abbrev newline : Bytes
newline = 10 ∷ []

-- each line behind a mark
unfoldable pub marked_lines : List Bytes → Bytes
marked_lines [] = []
marked_lines (l ∷ ls) = codes "  | " ++ (l ++ (newline ++ marked_lines ls))

unfoldable pub match_text : FlatMatch → Bytes
match_text m =
    em_dash
    ++ (codes " "
        ++ (m.name
            ++ (codes " ("
                ++ (m.slug
                    ++ (codes ") "
                        ++ (m.detail.file
                            ++ (codes ":"
                                ++ (decimal m.detail.line
                                    ++ (newline
                                        ++ (marked_lines m.detail.before
                                            ++ (codes "  > "
                                                ++ (m.detail.content
                                                    ++ (newline
                                                        ++ (marked_lines m.detail.after
                                                            ++ newline))))))))))))))

unfoldable pub matches_text : List FlatMatch → Bytes
matches_text [] = []
matches_text (m ∷ ms) = match_text m ++ matches_text ms

-- the hint that a page ends with
unfoldable pub more_text : Option ℕ → Bytes
more_text none = []
more_text (some end) =
    codes "More results available. Use offset=" ++ (decimal end ++ codes " to see next page.")

unfoldable pub page_text : MatchesPage → Bytes
page_text (no_matches offset total) =
    codes "No matches at offset "
    ++ (decimal offset ++ (codes " (total: " ++ (decimal total ++ (codes ")" ++ newline))))
page_text (matches_page first last total page next) =
    codes "Matches "
    ++ (decimal first
        ++ (en_dash
            ++ (decimal last
                ++ (codes " of "
                    ++ (decimal total
                        ++ (newline ++ (newline ++ (matches_text page ++ more_text next))))))))

-- `FormatSearchMatches`
unfoldable pub format_search_matches : ToolResponse → ℕ → ℕ → Bytes
format_search_matches resp offset limit = page_text (search_matches_page resp offset limit)

abbrev max_summary_extensions : ℕ
max_summary_extensions = 50

unfoldable pub installs_text : ℕ → Bytes
installs_text n =
    if ltb 0 n then codes ", " ++ (format_number n ++ codes " active installs") else []

unfoldable pub summary_line : ExtensionResult → Bytes
summary_line e =
    codes "  "
    ++ (e.name
        ++ (codes " ("
            ++ (e.slug
                ++ (codes ") v"
                    ++ (e.version
                        ++ (codes " "
                            ++ (em_dash
                                ++ (codes " "
                                    ++ (decimal e.total_matches
                                        ++ (codes " matches"
                                            ++ (installs_text e.active_installs
                                                ++ newline)))))))))))

unfoldable pub summary_lines : List ExtensionResult → Bytes
summary_lines [] = []
summary_lines (e ∷ es) = summary_line e ++ summary_lines es

unfoldable pub left_out : ℕ → Bytes
left_out n =
    if ltb max_summary_extensions n
    then codes "  ... and "
      ++ (decimal (n - max_summary_extensions) ++ (codes " more extensions" ++ newline))
    else []

unfoldable pub id_text : Bytes → Bytes
id_text [] = []
id_text (c ∷ s) = codes "search_id: " ++ ((c ∷ s) ++ newline)

unfoldable pub extensions_text : List ExtensionResult → Bytes
extensions_text [] = []
extensions_text (e ∷ es) =
    newline
    ++ (codes "Results by extension:"
        ++ (newline
            ++ (summary_lines (take max_summary_extensions (e ∷ es))
                ++ (left_out (length (e ∷ es))
                    ++ (newline
                        ++ codes
                            "Use search_id with offset/limit to paginate through detailed match results.")))))

-- `FormatSearchSummary`
unfoldable pub format_search_summary :
    (Bytes → Bytes) → ToolResponse → Bytes → Bytes → Bytes → Bytes
format_search_summary quote resp search_id query repo =
    codes "Search: "
    ++ (quote query
        ++ (codes " in "
            ++ (repo
                ++ (newline
                    ++ (decimal resp.total_matches
                        ++ (codes " matches across "
                            ++ (decimal resp.total_extensions
                                ++ (codes " "
                                    ++ (repo
                                        ++ (newline
                                            ++ (id_text search_id
                                                ++ extensions_text resp.extensions)))))))))))

unfoldable pub status_text : Bool → Bytes
status_text true = codes "indexed"
status_text false = codes "not indexed"

unfoldable pub extension_lines : List ExtensionSummary → Bytes
extension_lines [] = []
extension_lines (e ∷ es) =
    codes "  "
    ++ (e.slug
        ++ (codes " "
            ++ (em_dash
                ++ (codes " "
                    ++ (e.name
                        ++ (codes " v"
                            ++ (e.version
                                ++ (codes " ["
                                    ++ (status_text e.indexed
                                        ++ (codes "]" ++ (newline ++ extension_lines es)))))))))))

unfoldable pub hint_text : Option ℕ → Bytes
hint_text none = []
hint_text (some n) = newline ++ more_text (some n)

unfoldable pub list_text : ListResponse → ℕ → List ExtensionSummary → Bytes
list_text resp offset [] = codes "No extensions found." ++ newline
list_text resp offset (e ∷ es) =
    codes "Showing "
    ++ (decimal (offset + 1)
        ++ (en_dash
            ++ (decimal (offset + length (e ∷ es))
                ++ (codes ":"
                    ++ (newline
                        ++ (newline
                            ++ (extension_lines (e ∷ es)
                                ++ hint_text (next_offset resp offset))))))))

-- `FormatExtensionList`
unfoldable pub format_extension_list : ListResponse → Bytes → ℕ → Bytes
format_extension_list resp repo offset =
    repo
    ++ (codes ": "
        ++ (decimal resp.total
            ++ (codes " total" ++ (newline ++ list_text resp offset resp.extensions))))
