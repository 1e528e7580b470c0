-- ===== src/Sanitize.antt =====
-- Upstream text made safe for the database: internal/repo/sanitize.go, on the runes that a text
-- decodes to. The classes of package unicode are parameters.
pub mod Laws
use veloria.Base.{
  ℕ, zero, suc, ◌+◌, Bool, true, false, ◌&&◌, ◌||◌, Option, none, some, List, [], ◌∷◌, length, take,
  drop, get_elem?, reverse, leb, ◌==◌, if◌then◌else◌, starts_with,
}

-- `unicode.IsSpace`, `unicode.IsControl`, and the categories Cf and M
pub record Classes : Type 0 where
  pub is_space : ℕ → Bool
  pub is_control : ℕ → Bool
  pub is_format : ℕ → Bool
  pub is_mark : ℕ → Bool

abbrev pub max_varchar_len : ℕ
max_varchar_len = 255

-- the cases of `cleanText`
pub data Kind : Type 0 where
  space dropped visible : Kind

unfoldable pub kind : Classes → Bool → ℕ → Kind
kind u drop_format r =
    if u.is_space r
    then space
    else if u.is_control r || (drop_format && u.is_format r)
    then dropped
    else visible

-- the loop, with `pendingSpace` and `b.Len() > 0`
unfoldable pub clean_loop : Classes → Bool → Bool → Bool → List ℕ → List ℕ
clean_loop u drop_format pending written [] = []
clean_loop u drop_format pending written (r ∷ s) = elim (kind u drop_format r) [
  | space ↦ clean_loop u drop_format written written s
  | dropped ↦ clean_loop u drop_format pending written s
  | visible ↦
      let rest = clean_loop u drop_format false true s in
      if pending then 32 ∷ (r ∷ rest) else r ∷ rest
]

unfoldable pub clean_text : Classes → List ℕ → Bool → List ℕ
clean_text u s drop_format = clean_loop u drop_format false false s

unfoldable pub is_mark_at : Classes → Option ℕ → Bool
is_mark_at u none = false
is_mark_at u (some r) = u.is_mark r

-- the cut that does not stand in front of a combining mark
unfoldable pub back_up : Classes → List ℕ → ℕ → ℕ
back_up u s zero = zero
back_up u s (suc i) =
    let before = back_up u s i in if is_mark_at u (get_elem? s (suc i)) then before else suc i

-- `strings.ContainsAny(s, "; ")`
unfoldable pub contains_end : List ℕ → Bool
contains_end [] = false
contains_end (r ∷ s) = (r == 59 || r == 32) || contains_end s

unfoldable pub has_amp : List ℕ → Bool
has_amp [] = false
has_amp (r ∷ s) = r == 38 || has_amp s

-- the text without what follows its last '&', if no entity ends there
unfoldable pub cut_entity : List ℕ → List ℕ
cut_entity [] = []
cut_entity (r ∷ s) =
    let rest = cut_entity s in
    if (r == 38 && has_amp s) || contains_end s then r ∷ rest else if r == 38 then [] else r ∷ rest

unfoldable pub trim_left : (ℕ → Bool) → List ℕ → List ℕ
trim_left p [] = []
trim_left p (r ∷ s) = let rest = trim_left p s in if p r then rest else r ∷ s

-- `strings.TrimSpace` and `strings.Trim`
unfoldable pub trim : (ℕ → Bool) → List ℕ → List ℕ
trim p s = reverse (trim_left p (reverse (trim_left p s)))

unfoldable pub truncate_runes : Classes → List ℕ → ℕ → List ℕ
truncate_runes u s limit = trim u.is_space (cut_entity (take (back_up u s limit) s))

-- `sanitizeText`
unfoldable pub sanitize_text : Classes → List ℕ → ℕ → List ℕ
sanitize_text u s zero = clean_text u s false
sanitize_text u s (suc n) =
    if leb (length (clean_text u s false)) (suc n)
    then clean_text u s false
    else if leb (length (clean_text u s true)) (suc n)
    then clean_text u s true
    else truncate_runes u (clean_text u s true) (suc n)

unfoldable pub strip_marker : Classes → List ℕ → List ℕ
strip_marker u s =
    if starts_with (61 ∷ 61 ∷ 61 ∷ []) s then trim u.is_space (trim (λ r. r == 61) s) else s

unfoldable pub visible_name : Classes → List ℕ → List ℕ → List ℕ
visible_name u s [] = []
visible_name u s (r ∷ t) = strip_marker u s

-- `normalizeName`
unfoldable pub normalize_name : Classes → List ℕ → List ℕ
normalize_name u s =
    let t = sanitize_text u s max_varchar_len in visible_name u t (clean_text u t true)
