-- ===== src/Fetch/Versions/Parts.antt =====
-- The numbers of a version are those between its dots.
use veloria.Base.{
  ℕ, ◌≡◌, refl, ◌∙◌, ap, List, [], ◌∷◌, ◌++◌, map, arith, All, Bytes, ◌==◌, Bool-cases, inl, inr,
}
use veloria.Base.Int.{ℤ}
use veloria.Fetch.Versions.{add_front, split_dots, number, version_numbers}

-- parts with dots between them
abbrev pub dotted : Bytes → List Bytes → Bytes
dotted s [] = s
dotted s (t ∷ ts) = s ++ (46 ∷ dotted t ts)

abbrev pub HasNoDot : Bytes → Type 0
HasNoDot s = All (λ c. ¬ (c ≡ 46)) s

-- The text is made of parts without dots, and these have the numbers.
abbrev pub HasNumbers : Bytes → List ℤ → Type 0
HasNumbers v ns =
    (front : Bytes) × (parts : List Bytes) × (dotted front parts ≡ v)
    × All HasNoDot (front ∷ parts)
    × (ns ≡ map number (front ∷ parts))

-- what the split gives
abbrev IsCut : Bytes → Type 0
IsCut v =
    (front : Bytes) × (parts : List Bytes) × (dotted front parts ≡ v)
    × All HasNoDot (front ∷ parts)
    × (split_dots v ≡ front ∷ parts)

dotted-cons : (c : ℕ) (s : Bytes) (ts : List Bytes) → dotted (c ∷ s) ts ≡ c ∷ dotted s ts
dotted-cons c s [] = refl
dotted-cons c s (t ∷ ts) = refl

split_dots-IsCut : (v : Bytes) → IsCut v
unfolding split_dots add_front
split_dots-IsCut [] = ([], [], refl, (tt, tt), refl)
split_dots-IsCut (c ∷ s) =
    let (front, parts, joined, free, found) = split_dots-IsCut s in
    elim (Bool-cases (c == 46)) [
      | inl e ↦
          let dot : 46 ≡ c = ground (arith, e) in
          ([], front ∷ parts, rw (joined, dot) refl, (tt, free), rw (e, found) refl)
      | inr e ↦
          let other : ¬ (c ≡ 46) = ground (arith, e) in
          (
            c ∷ front,
            parts,
            dotted-cons c front parts ∙ ap (λ t. c ∷ t) joined,
            ((other, free.0), free.1),
            rw (e, found) refl,
          )
    ]

pub version_numbers-HasNumbers : (v : Bytes) → HasNumbers v (version_numbers v)
unfolding version_numbers
version_numbers-HasNumbers v =
    let (front, parts, joined, free, found) = split_dots-IsCut v in
    (front, parts, joined, free, ap (map number) found)
