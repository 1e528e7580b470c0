-- ===== src/Grep/Size.antt =====
-- `grepData` never returns more matches than it is asked for, whatever the engine answers.
use veloria.Base.{
  ℕ, zero, suc, ◌≤◌, ◌<◌, ◌&&◌, ltb, ltb→lt, and_right, Bool-cases, Option-cases, inl, inr, Bool,
  true, false, Option, List, [], arith, length, length-append, drop, Bytes,
}
use veloria.Grep.{Match, grep_loop, grep_data}

module _ (re : Bytes → Bool → Option ℕ) (fre : Option (Bytes → Option ℕ)) (ctx max_matches : ℕ)
    (buf : Bytes) where
  grep_loop-size :
      (fuel chunk : ℕ) (b : Bool) (lineno : ℕ) (ms : List Match)
      → length ms ≤ max_matches
      → length (grep_loop re fre ctx max_matches buf fuel chunk b lineno ms) ≤ max_matches
  unfolding grep_loop
  grep_loop-size zero chunk b lineno ms h = h
  grep_loop-size (suc fuel) chunk b lineno ms h =
      elim (Bool-cases (ltb chunk (length buf) && ltb (length ms) max_matches)) [
        | inr stop ↦ rw (stop, grep_loop) h
        | inl go ↦ elim (Option-cases (re (drop chunk buf) b)) [
          | inl e ↦ rw (go, grep_loop) (rw (e, grep_loop) h)
          | inr (rel, e) ↦
              let room : length ms < max_matches = ltb→lt _ _ (and_right _ _ go) in
              rw (go, grep_loop)
                (rw (e, grep_loop)
                  (grep_loop-size fuel _ false _ _ (omega (arith, length-append {0} ms))))
        ]
      ]

  pub grep_data-size : length (grep_data re fre ctx max_matches buf) ≤ max_matches
  unfolding grep_data
  grep_data-size = grep_loop-size (suc (length buf)) 0 true 1 [] (omega arith)
