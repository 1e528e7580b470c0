-- ===== src/Mcp/Pages/Like.antt =====
-- The escaping of a search text for the database.
use veloria.Base.{
  ℕ, ◌≡◌, refl, ap, ◌∙◌, Bool, false, Option, none, some, [], ◌∷◌, arith, ◌==◌, ◌||◌, if◌then◌else◌,
  Bytes, Bool-cases, inl, inr,
}
use veloria.Mcp.Pages.{replace_all, escape_like}

abbrev map_some : ℕ → Option Bytes → Option Bytes
map_some c none = none
map_some c (some s) = some (c ∷ s)

-- The text that a LIKE pattern without wildcards stands for: a backslash takes the next character as it
-- is, and `%` and `_` are wildcards.
unfoldable pub literal_text : Bytes → Option Bytes
literal_text [] = some []
literal_text (c ∷ []) = if c == 92 || (c == 37 || c == 95) then none else some (c ∷ [])
literal_text (c ∷ d ∷ s) =
    let escaped = map_some d (literal_text s) in
    let plain = map_some c (literal_text (d ∷ s)) in
    if c == 92 then escaped else if c == 37 || c == 95 then none else plain

literal_escaped : (c : ℕ) (s : Bytes) → literal_text (92 ∷ c ∷ s) ≡ map_some c (literal_text s)
unfolding literal_text
literal_escaped c s = refl

literal_plain :
    (c : ℕ) (s : Bytes)
    → (c == 92) ≡ false
    → (c == 37) ≡ false
    → (c == 95) ≡ false
    → literal_text (c ∷ s) ≡ map_some c (literal_text s)
unfolding literal_text
literal_plain c [] h k l = rw (h, k, l)
literal_plain c (d ∷ s) h k l = rw (h, k, l)

-- the backslash and the two wildcards
abbrev is_special : ℕ → Bool
is_special c = c == 92 || (c == 37 || c == 95)

-- The three passes over the text are one.
escape_like-step :
    (c : ℕ) (s : Bytes)
    → escape_like (c ∷ s) ≡ (if is_special c then 92 ∷ c ∷ escape_like s else c ∷ escape_like s)
unfolding escape_like replace_all
escape_like-step c s = ground arith

-- A search text that is escaped, read as a LIKE pattern whose escape is the backslash, has no wildcard and
-- stands for the text.
escape_like-literal : (s : Bytes) → literal_text (escape_like s) ≡ some s
escape_like-literal [] = unfold literal_text escape_like replace_all in refl
escape_like-literal (c ∷ s) = elim (Bool-cases (is_special c)) [
  | inl e ↦
      rw (escape_like-step c s, e)
        (literal_escaped c (escape_like s) ∙ ap (map_some c) (escape_like-literal s))
  | inr e ↦
      rw (escape_like-step c s, e)
        (literal_plain c (escape_like s) (ground (arith, e)) (ground (arith, e)) (ground (arith, e))
          ∙ ap (map_some c) (escape_like-literal s))
]
