-- ===== src/Extract/Heap.antt =====
-- The heap of the largest files: internal/index/extract.go (unzipWithFilterAndStats).
use mathlib.Core.List.{Perm, perm_middle}
use mathlib.Core.List.Perm
use veloria.Base.{
  ℕ, ◌+◌, ◌≤◌, ◌<◌, ◌≡◌, refl, ap, ◌∙◌, List, [], ◌∷◌, ◌++◌, length, ltb, leb, All, arith,
  Bool-cases, inl, inr, leb→le, ltb→lt, subst, append-nil, false,
}
use veloria.Extract.{FileStat, push, replace_least, track}

push-perm : (f : FileStat) (h : List FileStat) → Perm (push f h) (f ∷ h)
unfolding push
push-perm f [] = Perm.refl (f ∷ [])
push-perm f (g ∷ h) = elim (Bool-cases (leb f.size g.size)) [
  | inl e ↦ rw e (Perm.refl (f ∷ (g ∷ h)))
  | inr e ↦ rw e (Perm.trans (Perm.cons g (push-perm f h)) (Perm.swap f g h))
]

length-push : (f : FileStat) (h : List FileStat) → length (push f h) ≡ length h + 1
unfolding push
length-push f [] = refl
length-push f (g ∷ h) = ground (arith, length-push f h)

-- every file of `h` is at least as large
abbrev pub IsBelow : ℕ → List FileStat → Type 0
IsBelow n h = All (λ f. n ≤ f.size) h

IsBelow-push :
    (n : ℕ) (f : FileStat) (h : List FileStat) → n ≤ f.size → IsBelow n h → IsBelow n (push f h)
unfolding push
IsBelow-push n f [] hf hh = (hf, hh)
IsBelow-push n f (g ∷ h) hf hh = elim (Bool-cases (leb f.size g.size)) [
  | inl e ↦ rw e (hf, hh)
  | inr e ↦ rw e (hh.0, IsBelow-push n f h hf hh.1)
]

IsBelow-trans : (m n : ℕ) (h : List FileStat) → m ≤ n → IsBelow n h → IsBelow m h
IsBelow-trans m n [] l hh = hh
IsBelow-trans m n (f ∷ h) l (hf, hh) = (omega (arith, l, hf), IsBelow-trans m n h l hh)

-- the smallest first
abbrev pub IsAscending : List FileStat → Type 0
IsAscending [] = Unit
IsAscending (f ∷ h) = IsBelow f.size h × IsAscending h

push-IsAscending : (f : FileStat) (h : List FileStat) → IsAscending h → IsAscending (push f h)
unfolding push
push-IsAscending f [] hh = (tt, tt)
push-IsAscending f (g ∷ h) (hg, hh) = elim (Bool-cases (leb f.size g.size)) [
  | inl e ↦
      rw e (let l = leb→le f.size g.size e in ((l, IsBelow-trans f.size g.size h l hg), (hg, hh)))
  | inr e ↦ rw e (IsBelow-push g.size f h (ground arith) hg, push-IsAscending f h hh)
]

-- The heap `h` for `files` with at most `n` of them: the smallest first, and no file left out is larger
-- than one in it. Files are left out only of a full heap.
pub record IsTop (n : ℕ) (h files : List FileStat) : Type 0 where
  pub left_out : List FileStat
  pub kept_or_left_out : Perm (h ++ left_out) files
  pub ascending : IsAscending h
  pub are_largest : All (λ f. IsBelow f.size h) left_out
  pub size_fits : length h ≤ n
  pub is_full : length h < n → left_out ≡ []

pub IsTop-none : (n : ℕ) → IsTop n [] []
IsTop-none n = record {
  left_out = [];
  kept_or_left_out = Perm.refl [];
  ascending = tt;
  are_largest = tt;
  size_fits = omega arith;
  is_full = λ _. refl;
}

add_room :
    {n : ℕ} (f : FileStat) (h files : List FileStat)
    → length h < n
    → IsTop n h files
    → IsTop n (push f h) (f ∷ files)
add_room {n} f h files l t = record {
  left_out = [];
  kept_or_left_out = Perm.trans (rw (append-nil (push f h)) (push-perm f h)) (Perm.cons f whole);
  ascending = push-IsAscending f h t.ascending;
  are_largest = tt;
  size_fits = omega (arith, length-push f h);
  is_full = λ _. refl;
}
  where
    whole : Perm h files
    whole =
        subst (λ d. Perm d files) (ap (λ d. h ++ d) (t.is_full l) ∙ append-nil h) t.kept_or_left_out

All-IsBelow-raise :
    (g f : FileStat) (h d : List FileStat)
    → g.size ≤ f.size
    → All (λ e. IsBelow e.size (g ∷ h)) d
    → All (λ e. IsBelow e.size (push f h)) d
All-IsBelow-raise g f h [] l hd = tt
All-IsBelow-raise g f h (e ∷ d) l ((he, hh), hd) =
    (IsBelow-push e.size f h (omega (arith, l, he)) hh, All-IsBelow-raise g f h d l hd)

add_larger :
    {n : ℕ} (f g : FileStat) (h files : List FileStat)
    → g.size < f.size
    → IsTop n (g ∷ h) files
    → (length (g ∷ h) < n → ⊥)
    → IsTop n (push f h) (f ∷ files)
add_larger {n} f g h files l t full = record {
  left_out = g ∷ t.left_out;
  kept_or_left_out =
      Perm.trans (Perm.append_right (g ∷ t.left_out) (push-perm f h))
        (Perm.cons f (Perm.trans (perm_middle h t.left_out) t.kept_or_left_out));
  ascending = push-IsAscending f h t.ascending.1;
  are_largest = (
    IsBelow-push g.size f h (omega (arith, l)) t.ascending.0,
    All-IsBelow-raise g f h t.left_out (omega (arith, l)) t.are_largest,
  );
  size_fits = omega (arith, length-push f h, t.size_fits);
  is_full = λ r. absurd (full (omega (arith, length-push f h, r)));
}

add_smaller :
    {n : ℕ} (f : FileStat) (h files : List FileStat)
    → IsBelow f.size h
    → IsTop n h files
    → (length h < n → ⊥)
    → IsTop n h (f ∷ files)
add_smaller {n} f h files l t full = record {
  left_out = f ∷ t.left_out;
  kept_or_left_out = Perm.trans (perm_middle h t.left_out) (Perm.cons f t.kept_or_left_out);
  ascending = t.ascending;
  are_largest = (l, t.are_largest);
  size_fits = t.size_fits;
  is_full = λ r. absurd (full r);
}

replace_least-IsTop :
    {n : ℕ} (f : FileStat) (h files : List FileStat)
    → (length h < n → ⊥)
    → IsTop n h files
    → IsTop n (replace_least f h) (f ∷ files)
unfolding replace_least
replace_least-IsTop f [] files full t = add_smaller f [] files tt t full
replace_least-IsTop f (g ∷ h) files full t = elim (Bool-cases (ltb g.size f.size)) [
  | inl e ↦ rw e (add_larger f g h files (ltb→lt g.size f.size e) t full)
  | inr e ↦ rw e (add_smaller f (g ∷ h) files (least e) t full)
]
  where
    least : ltb g.size f.size ≡ false → IsBelow f.size (g ∷ h)
    least e =
        let l : f.size ≤ g.size = ground arith in (l, IsBelow-trans f.size g.size h l t.ascending.0)

pub track-IsTop :
    (n : ℕ) (f : FileStat) (h files : List FileStat)
    → IsTop n h files
    → IsTop n (track n f h) (f ∷ files)
unfolding track
track-IsTop n f h files t = elim (Bool-cases (ltb (length h) n)) [
  | inl e ↦ rw e (add_room f h files (ltb→lt (length h) n e) t)
  | inr e ↦ rw e (replace_least-IsTop f h files (λ l. ground arith) t)
]

pub IsTop-perm :
    (n : ℕ) (h files others : List FileStat)
    → Perm files others
    → IsTop n h files
    → IsTop n h others
IsTop-perm n h files others p t = record {
  left_out = t.left_out;
  kept_or_left_out = Perm.trans t.kept_or_left_out p;
  ascending = t.ascending;
  are_largest = t.are_largest;
  size_fits = t.size_fits;
  is_full = t.is_full;
}
