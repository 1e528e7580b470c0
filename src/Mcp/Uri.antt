-- ===== src/Mcp/Uri.antt =====
-- The URI of an extension's resource: `parseExtensionURI` of internal/mcp/tools.go.
use veloria.Base.{
  ℕ, ◌≡◌, ◌≢◌, ◌↔◌, refl, sym, ap, subst, ◌∙◌, true, false, ◌&&◌, not, Option, none, some, [], ◌∷◌,
  ◌++◌, length, drop, arith, All, ◌==◌, ==_iff, if◌then◌else◌, Bytes, codes, bytes_eq, bytes_eq_iff,
  starts_with, starts_with-append, starts_with_parts, Bool-cases, inl, inr, and_left, and_right,
}
use mathlib.Core.Option.{some_inj}
use veloria.Mcp.Tools.{is_valid_repo}

unfoldable pub add_front : ℕ → Option (Bytes × Bytes) → Option (Bytes × Bytes)
add_front c none = none
add_front c (some (a, b)) = some (c ∷ a, b)

-- what stands before and behind the first slash
unfoldable pub cut_slash : Bytes → Option (Bytes × Bytes)
cut_slash [] = none
cut_slash (c ∷ s) = let rest = cut_slash s in if c == 47 then some ([], s) else add_front c rest

abbrev pub uri_prefix : Bytes
uri_prefix = codes "veloria://"

-- the tests of the three parts
unfoldable pub check_parts : Bytes → Bytes → Bytes → Option (Bytes × Bytes)
check_parts repo slug tail =
    if bytes_eq tail (codes "info") && (is_valid_repo repo && not (bytes_eq slug []))
    then some (repo, slug)
    else none

-- strings.SplitN(rest, "/", 3), where there are three parts
unfoldable pub second_cut : Bytes → Option (Bytes × Bytes) → Option (Bytes × Bytes)
second_cut repo none = none
second_cut repo (some (slug, tail)) = check_parts repo slug tail

unfoldable pub first_cut : Option (Bytes × Bytes) → Option (Bytes × Bytes)
first_cut none = none
first_cut (some (repo, rest)) = second_cut repo (cut_slash rest)

-- `parseExtensionURI`, with `none` for its errors
unfoldable pub parse_extension_uri : Bytes → Option (Bytes × Bytes)
parse_extension_uri uri =
    if starts_with uri_prefix uri
    then first_cut (cut_slash (drop (length uri_prefix) uri))
    else none

abbrev HasNoSlash : Bytes → Type 0
HasNoSlash s = All (λ c. c ≢ 47) s

cut_slash-append : (a b : Bytes) → HasNoSlash a → cut_slash (a ++ 47 ∷ b) ≡ some (a, b)
unfolding cut_slash add_front
cut_slash-append [] b h = refl
cut_slash-append (c ∷ a) b h =
    let other : (c == 47) ≡ false = ground (arith, h.0) in rw (other, cut_slash-append a b h.1)

-- the text is the parts with a slash between them, and there is none in the first
abbrev IsCut : Bytes → Bytes × Bytes → Type 0
IsCut s p = (s ≡ p.0 ++ 47 ∷ p.1) × HasNoSlash p.0

add_front-IsCut :
    (c : ℕ) (s : Bytes) (o : Option (Bytes × Bytes)) (p : Bytes × Bytes)
    → (c == 47) ≡ false
    → ((q : Bytes × Bytes) → o ≡ some q → IsCut s q)
    → add_front c o ≡ some p
    → IsCut (c ∷ s) p
unfolding add_front
add_front-IsCut c s none p e h k = cc
add_front-IsCut c s (some (a, b)) p e h k =
    let (t, ns) = h (a, b) refl in
    subst (IsCut (c ∷ s)) (some_inj.0 k) (ap (λ z. c ∷ z) t, (λ x. ground (arith, e, x), ns))

cut_slash-IsCut : (s : Bytes) (p : Bytes × Bytes) → cut_slash s ≡ some p → IsCut s p
unfolding cut_slash
cut_slash-IsCut [] p h = cc
cut_slash-IsCut (c ∷ s) p h = elim (Bool-cases (c == 47)) [
  | inl e ↦
      let same = (==_iff c 47).0 e in subst (IsCut (c ∷ s)) (some_inj.0 (rw e at h)) (rw same, tt)
  | inr e ↦ add_front-IsCut c s (cut_slash s) p e (cut_slash-IsCut s) (rw e at h)
]

abbrev pub uri_of : Bytes → Bytes → Bytes
uri_of repo slug = uri_prefix ++ (repo ++ 47 ∷ (slug ++ 47 ∷ codes "info"))

-- what an extension's URI may name
pub record IsNamed (repo slug : Bytes) : Type 0 where
  pub known : is_valid_repo repo ≡ true
  pub given : slug ≢ []
  pub one_part : HasNoSlash slug

repo-HasNoSlash : (repo : Bytes) → is_valid_repo repo ≡ true → HasNoSlash repo
unfolding is_valid_repo
repo-HasNoSlash repo h = elim (Bool-cases (bytes_eq repo (codes "plugins"))) [
  | inl e ↦ subst HasNoSlash (sym ((bytes_eq_iff repo _).0 e)) (omega arith)
  | inr e ↦ elim (Bool-cases (bytes_eq repo (codes "themes"))) [
    | inl f ↦ subst HasNoSlash (sym ((bytes_eq_iff repo _).0 f)) (omega arith)
    | inr f ↦
        subst HasNoSlash (sym ((bytes_eq_iff repo (codes "cores")).0 (ground (arith, e, f))))
          (omega arith)
  ]
]

parse_uri_of :
    (repo slug : Bytes)
    → IsNamed repo slug
    → parse_extension_uri (uri_of repo slug) ≡ some (repo, slug)
unfolding parse_extension_uri first_cut second_cut check_parts
parse_uri_of repo slug n =
    let rest = repo ++ 47 ∷ (slug ++ 47 ∷ codes "info") in
    let given : bytes_eq slug [] ≡ false = ground (arith, bytes_eq_iff slug [], n.given) in
    rw
      (
        starts_with-append uri_prefix rest,
        cut_slash-append repo (slug ++ 47 ∷ codes "info") (repo-HasNoSlash repo n.known),
        cut_slash-append slug (codes "info") n.one_part,
        n.known,
        given,
      )
      (unfold bytes_eq in refl)

check_parts-IsNamed :
    (repo slug tail : Bytes) (p : Bytes × Bytes)
    → HasNoSlash slug
    → check_parts repo slug tail ≡ some p
    → ((repo, slug) ≡ p) × (tail ≡ codes "info") × IsNamed repo slug
unfolding check_parts
check_parts-IsNamed repo slug tail p h e =
    elim (Bool-cases
      (bytes_eq tail (codes "info") && (is_valid_repo repo && not (bytes_eq slug [])))) [
        | inr c ↦ cc (rw c at e)
        | inl c ↦
            let rest = and_right (bytes_eq tail (codes "info")) _ c in
            let given = and_right (is_valid_repo repo) _ rest in
            (
              some_inj.0 (rw c at e),
              (bytes_eq_iff tail (codes "info")).0 (and_left _ _ c),
              record {
                known = and_left _ _ rest;
                given = λ x. ground (arith, given, (bytes_eq_iff slug []).1 x);
                one_part = h;
              },
            )
      ]

-- the path behind the prefix, as its parts
abbrev IsPath : Bytes → Bytes × Bytes → Type 0
IsPath rest p = (rest ≡ p.0 ++ 47 ∷ (p.1 ++ 47 ∷ codes "info")) × IsNamed p.0 p.1

second_cut-IsPath :
    (repo rest : Bytes) (o : Option (Bytes × Bytes)) (p : Bytes × Bytes)
    → ((q : Bytes × Bytes) → o ≡ some q → IsCut rest q)
    → second_cut repo o ≡ some p
    → IsPath (repo ++ 47 ∷ rest) p
unfolding second_cut
second_cut-IsPath repo rest none p h e = cc
second_cut-IsPath repo rest (some (slug, tail)) p h e =
    let (t, ns) = h (slug, tail) refl in
    let (same, info, named) = check_parts-IsNamed repo slug tail p ns e in
    subst (IsPath (repo ++ 47 ∷ rest)) same
      (ap (λ z. repo ++ 47 ∷ z) (t ∙ ap (λ z. slug ++ 47 ∷ z) info), named)

first_cut-IsPath :
    (rest : Bytes) (o : Option (Bytes × Bytes)) (p : Bytes × Bytes)
    → ((q : Bytes × Bytes) → o ≡ some q → IsCut rest q)
    → first_cut o ≡ some p
    → IsPath rest p
unfolding first_cut
first_cut-IsPath rest none p h e = cc
first_cut-IsPath rest (some (repo, more)) p h e =
    let (t, ns) = h (repo, more) refl in
    rw t (second_cut-IsPath repo more (cut_slash more) p (cut_slash-IsCut more) e)

uri_of_parse :
    (uri repo slug : Bytes)
    → parse_extension_uri uri ≡ some (repo, slug)
    → (uri ≡ uri_of repo slug) × IsNamed repo slug
unfolding parse_extension_uri
uri_of_parse uri repo slug h = elim (Bool-cases (starts_with uri_prefix uri)) [
  | inr e ↦ cc (rw e at h)
  | inl e ↦
      let rest = drop (length uri_prefix) uri in
      let (t, named) =
        first_cut-IsPath rest (cut_slash rest) (repo, slug) (cut_slash-IsCut rest) (rw e at h) in
      (starts_with_parts uri_prefix uri e ∙ ap (λ z. uri_prefix ++ z) t, named)
]

-- A URI is read as a repository and a slug exactly if it is `veloria://`, the repository, a slash, the
-- slug and `/info`, where the repository is one of the three and the slug is not empty and has no slash.
pub parse_extension_uri_iff :
    (uri repo slug : Bytes)
    → (parse_extension_uri uri ≡ some (repo, slug)) ↔ ((uri ≡ uri_of repo slug) × IsNamed repo slug)
parse_extension_uri_iff uri repo slug =
    (uri_of_parse uri repo slug, λ (e, n). ap parse_extension_uri e ∙ parse_uri_of repo slug n)
