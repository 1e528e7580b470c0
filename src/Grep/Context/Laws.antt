-- ===== src/Grep/Context/Laws.antt =====
-- The context extraction on a file that is given line by line.
use veloria.Base.{
  ℕ, zero, suc, ◌+◌, ◌-◌, ◌<◌, ◌≡◌, refl, true, ap, List, [], ◌∷◌, ◌++◌, append_assoc, append-nil,
  arith, reverse, length, length-append, take, drop_prefix, take_two, slice_middle,
  get_elem?_middle, All, Bytes,
}
use veloria.Grep.Scan.{nl, after_last}
use veloria.Grep.Scan.Laws.{
  IsLine, ended_up, below, unsplit, after_last_line, after_last_ended, index_byte_line,
  index_byte_ended,
}
use veloria.Grep.Context.{before_loop, is_nl_at, extract_before, after_loop, extract_after}

-- The nearest `n` lines above or below a place, nearest first. The line at the far end of the file
-- is left out if it is empty: upwards the loop stops at offset 0, and behind the file's last
-- newline stands a line only if it holds a byte.
abbrev pub nearest : ℕ → List Bytes → List Bytes
nearest zero lines = []
nearest (suc n) [] = []
nearest (suc n) ([] ∷ []) = []
nearest (suc n) ((c ∷ l) ∷ []) = (c ∷ l) ∷ []
nearest (suc n) (l ∷ k ∷ lines) = l ∷ nearest n (k ∷ lines)

before_loop_at_start : (n : ℕ) (buf : Bytes) → before_loop n buf 0 ≡ []
unfolding before_loop
before_loop_at_start zero buf = refl
before_loop_at_start (suc n) buf = refl

-- the start of the line that ends `ended_up up ++ a`
after_last_up :
    (a : Bytes) (up : List Bytes)
    → IsLine a
    → after_last (ended_up up ++ a) nl ≡ length (ended_up up)
after_last_up a [] h = after_last_line a h
after_last_up a (b ∷ up) h =
    let x = ended_up up in
    let e = append_assoc x (b ++ nl ∷ []) a in
    let f = append_assoc b (nl ∷ []) a in
    let g = append_assoc x b (nl ∷ a) in
    rw (e, f, ← g)
      (omega (
        arith,
        after_last_ended (x ++ b) a h,
        length-append x b,
        length-append x (b ++ nl ∷ []),
        length-append b (nl ∷ []),
      ))

take_up :
    (end : ℕ) (x a rest : Bytes) → end ≡ length x + length a → take end (x ++ (a ++ rest)) ≡ x ++ a
take_up end x a rest e = rw e (take_two x a rest)

before_loop_step :
    (n end : ℕ) (a : Bytes) (up : List Bytes) (rest : Bytes)
    → IsLine a
    → end ≡ length (ended_up up) + length a
    → 0 < end
    → before_loop (suc n) (ended_up up ++ (a ++ rest)) end
      ≡ a ∷ before_loop n (ended_up up ++ (a ++ rest)) (length (ended_up up) - 1)
unfolding before_loop
before_loop_step n end a up rest h e pos = ground (
  arith,
  take_up end (ended_up up) a rest e,
  after_last_up a up h,
  slice_middle (ended_up up) a rest (length (ended_up up)) end refl e,
)

before_loop-lines :
    (n end : ℕ) (a : Bytes) (up : List Bytes) (rest : Bytes)
    → All IsLine (a ∷ up)
    → end ≡ length (ended_up up) + length a
    → before_loop n (ended_up up ++ (a ++ rest)) end ≡ nearest n (a ∷ up)
before_loop-lines zero end a up rest h e = unfold before_loop in refl
before_loop-lines (suc n) end [] [] rest h e = rw e (before_loop_at_start (suc n) rest)
before_loop-lines (suc n) end (c ∷ a) [] rest (h, _) e =
    rw (before_loop_step n end (c ∷ a) [] rest h e (omega arith))
      (ap (λ t. (c ∷ a) ∷ t) (before_loop_at_start n ((c ∷ a) ++ rest)))
before_loop-lines (suc n) end a (b ∷ up) rest (h, hs) e =
    let x = ended_up up in
    let grow = length-append x (b ++ nl ∷ []) in
    let grow' = length-append b (nl ∷ []) in
    let ih =
      before_loop-lines n (length (ended_up (b ∷ up)) - 1) b up (nl ∷ (a ++ rest)) hs
        (omega arith) in
    rw (before_loop_step n end a (b ∷ up) rest h e (omega arith)) (
      rw (append_assoc x (b ++ nl ∷ []) (a ++ rest), append_assoc b (nl ∷ []) (a ++ rest))
        (ap (λ t. a ∷ t) ih))

-- The bytes above a line start end in a newline.
is_nl_at_end :
    (x b rest : Bytes) (i : ℕ)
    → i ≡ length x + length b
    → is_nl_at ((x ++ (b ++ nl ∷ [])) ++ rest) i ≡ true
unfolding is_nl_at
is_nl_at_end x b rest i e =
    rw
      (
        e,
        ← length-append x b,
        append_assoc x (b ++ nl ∷ []) rest,
        append_assoc b (nl ∷ []) rest,
        ← append_assoc x b (nl ∷ rest),
      )
      (ground (arith, get_elem?_middle (x ++ b) nl rest))

-- `extractBeforeContext` at the start of a line gives the nearest lines above it, in file order.
pub extract_before-lines :
    (n : ℕ) (up : List Bytes) (rest : Bytes)
    → All IsLine up
    → extract_before (ended_up up ++ rest) (length (ended_up up)) n ≡ reverse (nearest n up)
unfolding extract_before
extract_before-lines zero up rest h = ground arith
extract_before-lines (suc n) [] rest h = refl
extract_before-lines (suc n) (b ∷ up) rest h =
    let x = ended_up up in
    let grow = length-append x (b ++ nl ∷ []) in
    let grow' = length-append b (nl ∷ []) in
    let i = length (ended_up (b ∷ up)) - 1 in
    let ih = before_loop-lines (suc n) i b up (nl ∷ rest) h (omega arith) in
    let e = append_assoc x (b ++ nl ∷ []) rest in
    let f = append_assoc b (nl ∷ []) rest in
    ground (arith, ih, e, f, is_nl_at_end x b rest i (omega arith))

after_loop-lines :
    (n : ℕ) (pre r : Bytes) (rest : List Bytes)
    → All IsLine (r ∷ rest)
    → after_loop n (pre ++ (r ++ below rest)) (length pre) ≡ nearest n (r ∷ rest)
unfolding after_loop
after_loop-lines zero pre r rest h = refl
after_loop-lines (suc n) pre [] [] h = ground (arith, length-append pre [])
after_loop-lines (suc n) pre (c ∷ r) [] (h, _) =
    rw append-nil (
      ground (arith, length-append pre (c ∷ r), drop_prefix pre (c ∷ r), index_byte_line (c ∷ r) h))
after_loop-lines (suc n) pre r (s ∷ rest) (h, hs) =
    let t = s ++ below rest in
    let size = length-append pre (r ++ nl ∷ t) in
    let size' = length-append r (nl ∷ t) in
    let ih = after_loop-lines n (pre ++ (r ++ nl ∷ [])) s rest hs in
    let e = append_assoc pre (r ++ nl ∷ []) t in
    let f = append_assoc r (nl ∷ []) t in
    ground (
      arith,
      ih,
      e,
      f,
      size,
      size',
      length-append pre (r ++ nl ∷ []),
      length-append r (nl ∷ []),
      drop_prefix pre (r ++ nl ∷ t),
      index_byte_ended r t h,
      slice_middle pre r (nl ∷ t) (length pre) (length pre + length r) refl refl,
    )

-- `extractAfterContext` behind the newline of a line gives the nearest lines below it.
pub extract_after-lines :
    (n : ℕ) (pre : Bytes) (rest : List Bytes)
    → All IsLine rest
    → extract_after (pre ++ unsplit rest) (length pre) n ≡ nearest n rest
unfolding extract_after
extract_after-lines zero pre rest h = ground arith
extract_after-lines (suc n) pre [] h = ground (arith, length-append pre [])
extract_after-lines (suc n) pre ([] ∷ []) h = ground (arith, length-append pre [])
extract_after-lines (suc n) pre ((c ∷ r) ∷ []) h =
    ground (arith, after_loop-lines (suc n) pre (c ∷ r) [] h, length-append pre ((c ∷ r) ++ []))
extract_after-lines (suc n) pre (r ∷ s ∷ rest) h = ground (
  arith,
  after_loop-lines (suc n) pre r (s ∷ rest) h,
  length-append pre (r ++ below (s ∷ rest)),
  length-append r (below (s ∷ rest)),
)
