-- ===== src/Grep/Correct/Main.antt =====
-- `grepData` on a file that is given as its lines, by induction on the rounds of its loop.
use veloria.Base.{
  ℕ, zero, suc, ◌+◌, ◌-◌, ◌<◌, ◌≡◌, ◌≢◌, refl, ap, ◌∙◌, inl, inr, Bool, true, false, Option, some,
  List, [], ◌∷◌, ◌++◌, append_assoc, append-nil, arith, length, length-append, take, drop,
  drop_prefix, All, Bytes, Bool-cases, ltb,
}
use mathlib.Core.List.{cons-ne-nil}
use veloria.Grep.{Match, grep_loop, grep_data}
use veloria.Grep.Scan.{nl}
use veloria.Grep.Scan.Laws.{IsLine, ended, ended_up, below, unsplit}
use veloria.Grep.Spec.{match_end, MatchesLines, unless_end, match_of, expected}
use veloria.Grep.Correct.{
  shift, ended_up-shift, length-shift, shift-IsLine, unsplit-skip, find_first, found_match-last,
  found_match-inner,
}
use veloria.Grep.Correct.Loop.{
  take_none, take_next, text_left, loop_stop, loop_full, loop_none, loop_places,
}

All-split :
    (sk : List Bytes) (l : Bytes) (rest : List Bytes)
    → All IsLine (sk ++ l ∷ rest)
    → All IsLine sk × All IsLine (l ∷ rest)
All-split [] l rest h = (tt, h)
All-split (s ∷ sk) l rest (hs, h) = let (a, b) = All-split sk l rest h in ((hs, a), b)

module _ (p : Bool → Bytes → Bool) (re : Bytes → Bool → Option ℕ) (engine : MatchesLines p re)
    (fre : Option (Bytes → Option ℕ)) (ctx max_matches : ℕ) (buf : Bytes) where
  -- the statement of the induction: the loop at the start of the lines `ls`
  abbrev LoopMeets : ℕ → Type 0
  LoopMeets fuel =
      (b : Bool) (up ls : List Bytes) (ms : List Match) (chunk lineno : ℕ)
      → All IsLine up
      → All IsLine ls
      → ls ≢ []
      → buf ≡ ended_up up ++ unsplit ls
      → chunk ≡ length (ended_up up)
      → lineno ≡ length up + 1
      → length (unsplit ls) < fuel
      → grep_loop re fre ctx max_matches buf fuel chunk b lineno ms
        ≡ ms ++ take (max_matches - length ms) (unless_end ls (expected p fre ctx b up ls))

  -- a round that finds the line `l`, behind the skipped lines `sk`
  round :
      (fuel : ℕ)
      → LoopMeets fuel
      → (b : Bool) (up sk : List Bytes) (l : Bytes) (behind : List Bytes) (ms : List Match)
        (chunk lineno : ℕ)
      → All IsLine up
      → All IsLine (sk ++ l ∷ behind)
      → buf ≡ ended_up up ++ (ended sk ++ (l ++ below behind))
      → chunk ≡ length (ended_up up)
      → lineno ≡ length up + 1
      → chunk < length buf
      → length ms < max_matches
      → re (drop chunk buf) b ≡ some (length (ended sk) + length l)
      → length (ended sk ++ (l ++ below behind)) < suc fuel
      → grep_loop re fre ctx max_matches buf (suc fuel) chunk b lineno ms
        ≡ ms
          ++ take (max_matches - length ms) (
              match_of p fre ctx (shift sk up) l behind
              ∷ unless_end behind (expected p fre ctx false (l ∷ shift sk up) behind))
  round fuel ih b up sk l [] ms chunk lineno hu hl e c n inside room hit measure =
      let u = shift sk up in
      let (hs, hr) = All-split sk l [] hl in
      let whole : buf ≡ ended_up u ++ l =
        rw ended_up-shift (rw append_assoc (rw append-nil at e)) in
      let size = ap (length {0}) e in
      let size' = length-append (ended_up up) (ended sk ++ (l ++ [])) in
      let size'' = length-append (ended sk) (l ++ []) in
      let size3 = length-append l [] in
      let here =
        loop_places re fre ctx max_matches buf sk (ended_up up) l [] fuel chunk b lineno ms
          (length buf) hs hr.0 e c inside room hit (omega arith) in
      let num : lineno + length sk ≡ length u + 1 = omega (arith, length-shift sk up) in
      let start : length (ended sk) + chunk ≡ length (ended_up u) =
        rw ended_up-shift (omega (arith, length-append (ended_up up) (ended sk))) in
      let found =
        found_match-last p re fre ctx max_matches u l buf (length (ended sk) + chunk) (length buf)
          (shift-IsLine sk up hs hu) whole start refl in
      let next = take_next max_matches ms (match_of p fre ctx u l []) [] room in
      let stop =
        loop_stop re fre ctx max_matches buf fuel (length buf) false (lineno + length sk + 1)
          (ms ++ match_of p fre ctx u l [] ∷ []) (omega arith) in
      let none_left =
        take_none {A = Match} (max_matches - length (ms ++ match_of p fre ctx u l [] ∷ [])) in
      let empty = append-nil (ms ++ match_of p fre ctx u l [] ∷ []) in
      cc (here, num, found, next, stop, none_left, empty)
  round fuel ih b up sk l (r ∷ rest) ms chunk lineno hu hl e c n inside room hit measure =
      let u = shift sk up in
      let (hs, hr) = All-split sk l (r ∷ rest) hl in
      let hu' = shift-IsLine sk up hs hu in
      let tail = below (r ∷ rest) in
      let whole : buf ≡ ended_up u ++ (l ++ tail) = rw ended_up-shift (rw append_assoc e) in
      let split : buf ≡ ended_up (l ∷ u) ++ unsplit (r ∷ rest) = whole ∙ simp append_assoc in
      let size = ap (length {0}) e in
      let size' = length-append (ended_up up) (ended sk ++ (l ++ tail)) in
      let size'' = length-append (ended sk) (l ++ tail) in
      let size3 = length-append l tail in
      let shifted = ap (length {0}) (ended_up-shift sk up) in
      let shifted' = length-append (ended_up up) (ended sk) in
      let grown = length-append (ended_up u) (l ++ nl ∷ []) in
      let grown' = length-append l (nl ∷ []) in
      let end = length (ended_up (l ∷ u)) in
      let here =
        loop_places re fre ctx max_matches buf sk (ended_up up) l tail fuel chunk b lineno ms end hs
          hr.0 e c inside room hit (omega arith) in
      let num : lineno + length sk ≡ length u + 1 = omega (arith, length-shift sk up) in
      let start : length (ended sk) + chunk ≡ length (ended_up u) = omega arith in
      let found =
        found_match-inner p re fre ctx max_matches u l r rest buf (length (ended sk) + chunk) end
          hu' hr.1 whole start (omega arith) in
      let next =
        take_next max_matches ms (match_of p fre ctx u l (r ∷ rest))
          (unless_end (r ∷ rest) (expected p fre ctx false (l ∷ u) (r ∷ rest))) room in
      let go =
        ih false (l ∷ u) (r ∷ rest) (ms ++ match_of p fre ctx u l (r ∷ rest) ∷ []) end
          (lineno + length sk + 1) (hr.0, hu') hr.1 (cons-ne-nil r rest) split refl (omega arith)
          (omega arith) in
      cc (here, num, found, next, go)

  -- the chunk that the engine is given, and what it answers
  engine_at :
      (b : Bool) (up ls : List Bytes) (chunk : ℕ)
      → All IsLine ls
      → ls ≢ []
      → buf ≡ ended_up up ++ unsplit ls
      → chunk ≡ length (ended_up up)
      → re (drop chunk buf) b ≡ match_end p b ls
  engine_at b up ls chunk hl ne e c = rw (e, c, drop_prefix) (engine ls b ne hl)

  grep_loop-meets : (fuel : ℕ) → LoopMeets fuel
  grep_loop-meets zero b up ls ms chunk lineno hu hl ne e c n measure = absurd (omega arith)
  grep_loop-meets (suc fuel) b up ls ms chunk lineno hu hl ne e c n measure =
      let size = length-append (ended_up up) (unsplit ls) in
      let size' = ap (length {0}) e in
      let answer = engine_at b up ls chunk hl ne e c in
      elim (text_left ls (expected p fre ctx b up ls) ne) [
        | inl (done, none_left) ↦
            rw (none_left, take_none, append-nil)
              (loop_stop re fre ctx max_matches buf (suc fuel) chunk b lineno ms (omega arith))
        | inr (more, all_left) ↦ rw all_left (elim (Bool-cases (ltb (length ms) max_matches)) [
          | inr full ↦
              let z : max_matches - length ms ≡ 0 = ground arith in
              rw (z, append-nil)
                (loop_full re fre ctx max_matches buf (suc fuel) chunk b lineno ms (ground arith))
          | inl room ↦ elim (find_first p fre ctx b ls) [
            | inl f ↦
                rw (f.no_match up, take_none, append-nil)
                  (loop_none re fre ctx max_matches buf (suc fuel) chunk b lineno ms
                    (answer ∙ f.at))
            | inr f ↦
                let text = ap unsplit f.parts ∙ unsplit-skip f.skipped f.matched f.behind in
                rw (f.then_rest up) (
                  round fuel (grep_loop-meets fuel) b up f.skipped f.matched f.behind ms chunk
                    lineno hu (rw f.parts at hl) (e ∙ ap (λ t. ended_up up ++ t) text) c n
                    (omega arith) (ground arith) (answer ∙ f.at) (rw (← text) measure))
          ]
        ])
      ]

  -- For an engine that decides line by line, `grepData` returns, in order and up to `max_matches`,
  -- one match for each matching line of a file whose lines are `ls`: its text without line end and
  -- cut around the match, its number counted from 1, and up to `context_lines` lines above and below.
  pub grep_data-meets :
      (ls : List Bytes)
      → ls ≢ []
      → All IsLine ls
      → buf ≡ unsplit ls
      → grep_data re fre ctx max_matches buf
        ≡ take max_matches (unless_end ls (expected p fre ctx true [] ls))
  unfolding grep_data
  grep_data-meets ls ne hl e =
      let size = ap (length {0}) e in
      let all : max_matches - 0 ≡ max_matches = omega arith in
      rw all at
        (grep_loop-meets (suc (length buf)) true [] ls [] 0 1 tt hl ne e refl refl (omega arith))
