-- ===== src/Examples/Paging.antt =====
-- The pages of a stored search, and the URI of an extension.
use veloria.Base.{ℕ, ◌≡◌, ◌↔◌, suc, some, [], ◌∷◌, arith, codes, length}
use veloria.Base.Int.{pos}
use veloria.Base.Paging.{collect}
use veloria.Mcp.Persist.{MatchDetail, ToolResponse}
use veloria.Mcp.Pages.{flat_matches, all_matches, clamped_page}
use veloria.Mcp.Pages.Follow.{shown, search_matches_all}
use veloria.Mcp.Uri.{parse_extension_uri, uri_of, IsNamed, parse_extension_uri_iff}

abbrev line_of : ℕ → MatchDetail
line_of n = record {
  file = codes "a.php";
  line = n;
  content = codes "eval";
  before = [];
  after = [];
}

abbrev stored : ToolResponse
stored = record {
  total_matches = 3;
  total_extensions = 1;
  extensions =
      record {
        slug = codes "akismet";
        name = codes "Akismet";
        version = codes "1.0";
        active_installs = 5;
        total_matches = 3;
        matches = line_of 1 ∷ line_of 4 ∷ line_of 9 ∷ [];
      }
      ∷ [];
}

search_matches_all_example :
    collect
      (λ k. shown (clamped_page stored (pos k) (pos 1)))
      (suc (length (all_matches stored.extensions)))
      (some 0)
    ≡ all_matches stored.extensions
search_matches_all_example =
    search_matches_all stored (pos 1) (unfold all_matches flat_matches in omega arith)

parse_extension_uri_iff_example :
    (parse_extension_uri (codes "veloria://plugins/akismet/info")
      ≡ some (codes "plugins", codes "akismet"))
    ↔ ((codes "veloria://plugins/akismet/info" ≡ uri_of (codes "plugins") (codes "akismet"))
        × IsNamed (codes "plugins") (codes "akismet"))
parse_extension_uri_iff_example =
    parse_extension_uri_iff (codes "veloria://plugins/akismet/info") (codes "plugins")
      (codes "akismet")
