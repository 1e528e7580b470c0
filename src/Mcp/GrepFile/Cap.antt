-- ===== src/Mcp/GrepFile/Cap.antt =====
-- The cap of a grep over an extension.
use veloria.Base.{
  ℕ, zero, suc, ◌-◌, ◌≤◌, ◌≡◌, refl, sym, ap, ◌∙◌, Bool, true, false, Option, none, some, List, [],
  ◌∷◌, ◌++◌, length, take, leb, ltb, if◌then◌else◌, Bytes, arith, Bool-cases, inl, inr,
  length-append, length-take, take_all, take_append, take-take, take_full, append-nil, append_assoc,
  subst, leb→le,
}
use veloria.Mcp.GrepFile.{
  GrepLineMatch, max_grep_matches, GrepFileMatch, GrepFileResponse, Entry, walk_error, directory,
  file, add_matches, add_file, and_then, grep_walk, grep_file,
}

-- the matches, each with its file
unfoldable pub labelled : Bytes → List GrepLineMatch → List (Bytes × GrepLineMatch)
labelled path [] = []
labelled path (m ∷ ms) = (path, m) ∷ labelled path ms

unfoldable pub flat : List GrepFileMatch → List (Bytes × GrepLineMatch)
flat [] = []
flat (f ∷ fs) = labelled f.path f.matches ++ flat fs

-- all matches of the walk's files, without a cap
unfoldable pub all_matches : List Entry → List (Bytes × GrepLineMatch)
all_matches [] = []
all_matches (file path (some true) (some ms) ∷ es) = labelled path ms ++ all_matches es
all_matches (file path (some true) none ∷ es) = all_matches es
all_matches (file path (some false) found ∷ es) = all_matches es
all_matches (file path none found ∷ es) = all_matches es
all_matches (directory ∷ es) = all_matches es
all_matches (walk_error ∷ es) = all_matches es

length-labelled : (path : Bytes) (ms : List GrepLineMatch) → length (labelled path ms) ≡ length ms
unfolding labelled
length-labelled path [] = refl
length-labelled path (m ∷ ms) = omega (arith, length-labelled path ms)

labelled-take :
    (path : Bytes) (n : ℕ) (ms : List GrepLineMatch)
    → labelled path (take n ms) ≡ take n (labelled path ms)
unfolding labelled
labelled-take path zero ms = refl
labelled-take path (suc n) [] = refl
labelled-take path (suc n) (m ∷ ms) = ap (λ t. (path, m) ∷ t) (labelled-take path n ms)

flat-append : (fs gs : List GrepFileMatch) → flat (fs ++ gs) ≡ flat fs ++ flat gs
unfolding flat
flat-append [] gs = refl
flat-append (f ∷ fs) gs =
    rw (flat-append fs gs, append_assoc (labelled f.path f.matches) (flat fs) (flat gs))

abbrev pub matches_in : GrepFileResponse → List (Bytes × GrepLineMatch)
matches_in resp = flat resp.files

-- the count is the number of the matches, and within the cap
record IsCounted (resp : GrepFileResponse) : Type 0 where
  count : length (matches_in resp) ≡ resp.total_matches
  within : resp.total_matches ≤ max_grep_matches

-- what a file's matches are cut to
kept_is :
    (n : ℕ) (ms : List GrepLineMatch) → (if ltb n (length ms) then take n ms else ms) ≡ take n ms
kept_is n ms = elim (Bool-cases (ltb n (length ms))) [
  | inl e ↦ rw e
  | inr e ↦ rw e (sym (take_all n ms (ground (arith, e))))
]

flat_one :
    (fs : List GrepFileMatch) (path : Bytes) (ms : List GrepLineMatch)
    → flat (fs ++ record { path = path; matches = ms } ∷ []) ≡ flat fs ++ labelled path ms
unfolding flat
flat_one fs path ms = flat-append fs _ ∙ ap (λ t. flat fs ++ t) (append-nil (labelled path ms))

add_matches-flat :
    (path : Bytes) (ms : List GrepLineMatch) (resp : GrepFileResponse)
    → IsCounted resp
    → matches_in (add_matches path ms resp)
      ≡ take max_grep_matches (matches_in resp ++ labelled path ms)
unfolding add_matches labelled
add_matches-flat path [] resp h = sym (
    ap (take max_grep_matches) (append-nil (matches_in resp))
    ∙ take_all max_grep_matches (matches_in resp) (omega (arith, h.count, h.within)))
add_matches-flat path (m ∷ ms) resp h =
    let n = max_grep_matches - resp.total_matches in
    let fs = matches_in resp in
    let c = h.count in
    rw (kept_is n (m ∷ ms)) (
      flat_one resp.files path (take n (m ∷ ms))
      ∙ (ap (λ t. fs ++ t) (labelled-take path n (m ∷ ms))
          ∙ sym (
              take_append max_grep_matches fs (labelled path (m ∷ ms))
              ∙ rw (c, take_all max_grep_matches fs (omega (arith, h.count, h.within))))))

add_matches-IsCounted :
    (path : Bytes) (ms : List GrepLineMatch) (resp : GrepFileResponse)
    → IsCounted resp
    → IsCounted (add_matches path ms resp)
unfolding add_matches
add_matches-IsCounted path [] resp h = h
add_matches-IsCounted path (m ∷ ms) resp h =
    let n = max_grep_matches - resp.total_matches in
    rw (kept_is n (m ∷ ms)) (record {
      count = rw (
        flat_one resp.files path (take n (m ∷ ms)),
        length-append (matches_in resp) (labelled path (take n (m ∷ ms))),
        length-labelled path (take n (m ∷ ms)),
        h.count,
      );
      within = omega (arith, length-take n (m ∷ ms), h.within);
    })

-- what the matches of one entry are without a cap
entry_matches : Bytes → Option Bool → Option (List GrepLineMatch) → List (Bytes × GrepLineMatch)
entry_matches path (some true) (some ms) = labelled path ms
entry_matches path (some true) none = []
entry_matches path (some false) found = []
entry_matches path none found = []

all_matches-file :
    (path : Bytes) (glob : Option Bool) (found : Option (List GrepLineMatch)) (es : List Entry)
    → all_matches (file path glob found ∷ es) ≡ entry_matches path glob found ++ all_matches es
unfolding all_matches entry_matches
all_matches-file path (some true) (some ms) es = refl
all_matches-file path (some true) none es = refl
all_matches-file path (some false) found es = refl
all_matches-file path none found es = refl

-- a response `r` that holds, within the cap, the matches `ms`
record Holds (ms : List (Bytes × GrepLineMatch)) (r : GrepFileResponse) : Type 0 where
  held : matches_in r ≡ take max_grep_matches ms
  counted : IsCounted r

keeps_all : (resp : GrepFileResponse) → IsCounted resp → Holds (matches_in resp ++ []) resp
keeps_all resp h = record {
  held = sym (
      ap (take max_grep_matches) (append-nil (matches_in resp))
      ∙ take_all max_grep_matches (matches_in resp) (omega (arith, h.count, h.within)));
  counted = h;
}

add_file-Holds :
    (path : Bytes) (glob : Option Bool) (found : Option (List GrepLineMatch))
    (resp r : GrepFileResponse)
    → IsCounted resp
    → add_file path glob found resp ≡ some r
    → Holds (matches_in resp ++ entry_matches path glob found) r
unfolding add_file entry_matches
add_file-Holds path none found resp r h e = absurd (cc e)
add_file-Holds path (some false) found resp r h e =
    let q : resp ≡ r = cc in subst (Holds (matches_in resp ++ [])) q (keeps_all resp h)
add_file-Holds path (some true) none resp r h e =
    let q : resp ≡ r = cc in subst (Holds (matches_in resp ++ [])) q (keeps_all resp h)
add_file-Holds path (some true) (some ms) resp r h e =
    let q : add_matches path ms resp ≡ r = cc in
    subst (Holds (matches_in resp ++ labelled path ms)) q (record {
      held = add_matches-flat path ms resp h;
      counted = add_matches-IsCounted path ms resp h;
    })

-- the walk goes on from a response that holds what came before
grow :
    (old xs ys : List (Bytes × GrepLineMatch)) (r s : GrepFileResponse)
    → Holds (old ++ xs) r
    → Holds (matches_in r ++ ys) s
    → Holds (old ++ (xs ++ ys)) s
grow old xs ys r s h k = record {
  held =
      k.held
      ∙ (ap (λ t. take max_grep_matches (t ++ ys)) h.held
          ∙ (take-take max_grep_matches (old ++ xs) ys
              ∙ ap (take max_grep_matches) (append_assoc old xs ys)));
  counted = k.counted;
}

full-Holds :
    (resp : GrepFileResponse) (ys : List (Bytes × GrepLineMatch))
    → IsCounted resp
    → max_grep_matches ≤ resp.total_matches
    → Holds (matches_in resp ++ ys) resp
full-Holds resp ys h full = record {
  held =
      sym
        (take_full max_grep_matches (matches_in resp) ys (omega (arith, h.count, h.within, full)));
  counted = h;
}

and_then-some :
    (o : Option GrepFileResponse) (rest : GrepFileResponse → Option GrepFileResponse)
    (s : GrepFileResponse)
    → and_then o rest ≡ some s
    → (r : GrepFileResponse) × ((o ≡ some r) × (rest r ≡ some s))
unfolding and_then
and_then-some none rest s e = absurd (cc e)
and_then-some (some r) rest s e = (r, (refl, e))

walk_full :
    (path : Bytes) (glob : Option Bool) (found : Option (List GrepLineMatch)) (es : List Entry)
    (resp : GrepFileResponse)
    → leb max_grep_matches resp.total_matches ≡ true
    → grep_walk (file path glob found ∷ es) resp ≡ some resp
unfolding grep_walk
walk_full path glob found es resp h = rw (h, grep_walk)

walk_room :
    (path : Bytes) (glob : Option Bool) (found : Option (List GrepLineMatch)) (es : List Entry)
    (resp : GrepFileResponse)
    → leb max_grep_matches resp.total_matches ≡ false
    → grep_walk (file path glob found ∷ es) resp
      ≡ and_then (add_file path glob found resp) (grep_walk es)
unfolding grep_walk
walk_room path glob found es resp h = rw (h, grep_walk)

grep_walk-Holds :
    (es : List Entry) (resp s : GrepFileResponse)
    → IsCounted resp
    → grep_walk es resp ≡ some s
    → Holds (matches_in resp ++ all_matches es) s
unfolding grep_walk all_matches
grep_walk-Holds [] resp s h e =
    let q : resp ≡ s = cc in subst (Holds (matches_in resp ++ [])) q (keeps_all resp h)
grep_walk-Holds (walk_error ∷ es) resp s h e = absurd (cc e)
grep_walk-Holds (directory ∷ es) resp s h e = grep_walk-Holds es resp s h e
grep_walk-Holds (file path glob found ∷ es) resp s h e =
    elim (Bool-cases (leb max_grep_matches resp.total_matches)) [
      | inl full ↦
          let same : resp ≡ s = cc (sym (walk_full path glob found es resp full) ∙ e) in
          subst (Holds (matches_in resp ++ all_matches (file path glob found ∷ es))) same
            (full-Holds resp _ h (leb→le _ _ full))
      | inr room ↦
          let (r, (a, b)) =
            and_then-some (add_file path glob found resp) (grep_walk es) s
              (sym (walk_room path glob found es resp room) ∙ e) in
          let first = add_file-Holds path glob found resp r h a in
          rw (all_matches-file path glob found es) (
            grow (matches_in resp) (entry_matches path glob found) (all_matches es) r s first
              (grep_walk-Holds es r s first.counted b))
    ]

-- A grep of an extension that returns a response has as many matches as it counts, at most 1000, and
-- they are the first 1000 of the matches, file by file in the order of the walk, in those files that
-- the glob takes and that can be read.
pub grep_file_capped :
    (es : List Entry) (s : GrepFileResponse)
    → grep_file es ≡ some s
    → (matches_in s ≡ take max_grep_matches (all_matches es))
      × ((length (matches_in s) ≡ s.total_matches) × (s.total_matches ≤ max_grep_matches))
unfolding grep_file flat
grep_file_capped es s e =
    let h =
      grep_walk-Holds es (record { total_matches = 0; files = [] }) s
        (record { count = refl; within = omega arith }) e in
    (h.held, (h.counted.count, h.counted.within))
