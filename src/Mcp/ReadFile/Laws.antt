-- ===== src/Mcp/ReadFile/Laws.antt =====
-- A client that follows the hints of `FormatReadFile`.
use veloria.Base.{
  ℕ, zero, suc, ◌+◌, ◌-◌, ◌*◌, ◌≤◌, ◌<◌, ◌≡◌, refl, sym, ap, ◌∙◌, Option, none, some, List, [], ◌∷◌,
  ◌++◌, length, take, drop, arith, ltb, if◌then◌else◌, Bytes, Bool-cases, inl, inr, min, append-nil,
  length-take, length-drop, All, subst, take_all, ltb→lt, take-append-drop,
}
use mathlib.Core.Option.{some_inj}
use veloria.Base.Paging.{drop-drop}
use veloria.Base.Int.{ℤ, pos, negsuc}
use veloria.Mcp.Tools.{clamp_int}
use veloria.Mcp.ReadFile.{
  max_read_lines, range_loop, line_count, first_line, read_file_range, ReadFileResponse, numbered,
  end_of, read_file, handle_read_file, next_start,
}

beyond : (ls : List Bytes) (done s e : ℕ) → e ≤ done + 1 → range_loop ls done s e ≡ []
unfolding range_loop
beyond [] done s e h = refl
beyond (l ∷ ls) done s e h = ground (arith, beyond ls (suc done) s e)

inside :
    (ls : List Bytes) (done s e n : ℕ)
    → s ≤ done + 1
    → done + 1 + n ≡ e
    → range_loop ls done s e ≡ take n ls
unfolding range_loop
inside [] done s e zero h k = refl
inside [] done s e (suc n) h k = refl
inside (l ∷ ls) done s e zero h k = ground (arith, beyond ls (suc done) s e)
inside (l ∷ ls) done s e (suc n) h k = ground (arith, inside ls (suc done) s e n)

-- the loop keeps a slice of the file
before :
    (ls : List Bytes) (done s e k n : ℕ)
    → done + 1 + k ≡ s
    → s + n ≡ e
    → range_loop ls done s e ≡ take n (drop k ls)
unfolding range_loop
before ls done s e zero n h j = inside ls done s e n (omega (arith, h)) (omega (arith, h, j))
before [] done s e (suc k) zero h j = refl
before [] done s e (suc k) (suc n) h j = refl
before (l ∷ ls) done s e (suc k) n h j = ground (arith, before ls (suc done) s e k n)

abbrev pub size_of : ℕ → ℕ
size_of max = clamp_int (pos max) 1 max_read_lines

size_bounds : (max : ℕ) → (1 ≤ size_of max) × (size_of max ≤ max_read_lines)
unfolding clamp_int
size_bounds max = (ground arith, ground arith)

size_kept : (n : ℕ) → 1 ≤ n → n ≤ max_read_lines → line_count n ≡ n
unfolding line_count
size_kept n h k = ground arith

start_kept :
    (n : ℕ) → 1 ≤ n → n ≤ max_read_lines * 1000 → clamp_int (pos n) 1 (max_read_lines * 1000) ≡ n
unfolding clamp_int
start_kept n h k = ground arith

-- the page behind `k` lines
abbrev pub page_at : List Bytes → ℕ → ℕ → ReadFileResponse
page_at file k max = record {
  total_lines = length file;
  start_line = suc k;
  end_line = end_of (suc k) (take (size_of max) (drop k file));
  content = numbered (suc k) (take (size_of max) (drop k file));
}

first_kept : (k : ℕ) → first_line (suc k) ≡ suc k
unfolding first_line
first_kept k = ground arith

range_page :
    (file : List Bytes) (k n : ℕ)
    → 1 ≤ n
    → n ≤ max_read_lines
    → read_file_range file (suc k) n ≡ (take n (drop k file), length file)
unfolding read_file_range
range_page file k n l u =
    let b = before file 0 (suc k) (suc k + n) k n (omega arith) refl in
    rw (first_kept k, size_kept n l u, b)

pub handle_page :
    (file : List Bytes) (k max : ℕ)
    → suc k ≤ max_read_lines * 1000
    → handle_read_file (some file) (pos (suc k)) (pos max) ≡ some (page_at file k max)
unfolding handle_read_file read_file
handle_page file k max h =
    let (l, u) = size_bounds max in
    rw (start_kept (suc k) (omega arith) h, range_page file k (size_of max) l u)

-- a response, and what is read behind it
unfoldable pub follow : Option ReadFileResponse → (Option ℕ → List (ℕ × Bytes)) → List (ℕ × Bytes)
follow none rest = []
follow (some r) rest = r.content ++ rest (next_start r)

-- What a client reads that asks for the next page as long as it is told of one.
unfoldable pub read_pages : List Bytes → ℕ → ℕ → Option ℕ → List (ℕ × Bytes)
read_pages file max zero next = []
read_pages file max (suc fuel) none = []
read_pages file max (suc fuel) (some s) =
    follow (handle_read_file (some file) (pos s) (pos max)) (read_pages file max fuel)

numbered-append :
    (n : ℕ) (xs ys : List Bytes)
    → numbered n (xs ++ ys) ≡ numbered n xs ++ numbered (n + length xs) ys
unfolding numbered
numbered-append n [] ys = let e : n + 0 ≡ n = omega arith in rw e
numbered-append n (x ∷ xs) ys =
    let e : suc n + length xs ≡ n + suc (length xs) = omega arith in
    rw (numbered-append (suc n) xs ys, e)

end_at : (k : ℕ) (xs : List Bytes) → 1 ≤ length xs → end_of (suc k) xs ≡ k + length xs
unfolding end_of
end_at k [] h = omega (arith, h)
end_at k (x ∷ xs) h = omega arith

page_size :
    (file : List Bytes) (k max : ℕ)
    → length (take (size_of max) (drop k file)) ≡ min (size_of max) (length file - k)
page_size file k max = rw (length-take (size_of max) (drop k file), length-drop k file)

page_next :
    (file : List Bytes) (k max : ℕ)
    → k < length file
    → next_start (page_at file k max) ≡ (
        if ltb (k + length (take (size_of max) (drop k file))) (length file)
        then some (k + length (take (size_of max) (drop k file)) + 1)
        else none)
unfolding next_start
page_next file k max h =
    let one : 1 ≤ length (take (size_of max) (drop k file)) =
      omega (arith, page_size file k max, (size_bounds max).0) in
    rw (end_at k (take (size_of max) (drop k file)) one)

read_none : (file : List Bytes) (max fuel : ℕ) → read_pages file max fuel none ≡ []
unfolding read_pages
read_none file max zero = refl
read_none file max (suc fuel) = refl

-- a page that is not the last one, with the pages behind it
join_pages :
    (file : List Bytes) (k max : ℕ)
    → k + length (take (size_of max) (drop k file)) < length file
    → numbered (suc k) (take (size_of max) (drop k file))
        ++ numbered
            (suc (k + length (take (size_of max) (drop k file))))
            (drop (k + length (take (size_of max) (drop k file))) file)
      ≡ numbered (suc k) (drop k file)
join_pages file k max h =
    let xs = drop k file in
    let ps = take (size_of max) xs in
    let n : length ps ≡ size_of max = omega (arith, page_size file k max, h) in
    let e : suc k + length ps ≡ suc (k + length ps) = omega arith in
    let d : drop (k + length ps) file ≡ drop (size_of max) xs =
      rw n (sym (drop-drop k (size_of max) file)) in
    rw (d, ← e)
      (sym (numbered-append (suc k) ps (drop (size_of max) xs))
        ∙ ap (numbered (suc k)) (take-append-drop (size_of max) xs))

read_from :
    (file : List Bytes) (max fuel k : ℕ)
    → k < length file
    → length file ≤ max_read_lines * 1000
    → length file - k ≤ fuel
    → read_pages file max fuel (some (suc k)) ≡ numbered (suc k) (drop k file)
unfolding read_pages follow
read_from file max zero k h small f = absurd (omega (arith, h, f))
read_from file max (suc fuel) k h small f =
    let xs = drop k file in
    let ps = take (size_of max) xs in
    rw (handle_page file k max (omega (arith, h, small)), page_next file k max h)
      (elim (Bool-cases (ltb (k + length ps) (length file))) [
        | inl e ↦
            let lt : k + length ps < length file = ltb→lt _ _ e in
            let one : 1 ≤ length ps = omega (arith, page_size file k max, (size_bounds max).0, h) in
            let s : k + length ps + 1 ≡ suc (k + length ps) = omega arith in
            let ih = read_from file max fuel (k + length ps) lt small (omega (arith, f, one)) in
            rw (e, s, ih) (join_pages file k max lt)
        | inr e ↦
            let all : take (size_of max) xs ≡ xs =
              take_all (size_of max) xs
                (ground (arith, e, length-drop k file, page_size file k max)) in
            rw (e, read_none file max fuel, all) (append-nil (numbered (suc k) xs))
      ])

read_empty : (max : ℕ) → read_pages [] max 1 (some 1) ≡ []
unfolding read_pages follow numbered
read_empty max = rw (
  handle_page [] 0 max (omega arith),
  take_all {A = Bytes} (size_of max) [] (omega arith),
  read_none [] max 0,
)

-- A client that starts at line 1 and asks for the next page as long as it is told of one reads every
-- line of a file of at most 500,000 lines, once and in order, with its number, whatever page size it
-- asks for, and within as many requests as the file has lines and one more.
pub read_file_all :
    (file : List Bytes) (max : ℕ)
    → length file ≤ max_read_lines * 1000
    → read_pages file max (suc (length file)) (some 1) ≡ numbered 1 file
unfolding numbered
read_file_all [] max h = read_empty max
read_file_all (l ∷ ls) max h =
    read_from (l ∷ ls) max (suc (length (l ∷ ls))) 0 (omega arith) h (omega arith)

clamp_bounds : (n : ℤ) (hi : ℕ) → 1 ≤ hi → (1 ≤ clamp_int n 1 hi) × (clamp_int n 1 hi ≤ hi)
unfolding clamp_int
clamp_bounds (pos n) hi h = (ground arith, ground arith)
clamp_bounds (negsuc n) hi h = (omega arith, h)

length-numbered : (n : ℕ) (xs : List Bytes) → length (numbered n xs) ≡ length xs
unfolding numbered
length-numbered n [] = refl
length-numbered n (x ∷ xs) = omega (arith, length-numbered (suc n) xs)

numbered_below :
    (n b : ℕ) (xs : List Bytes) → n + length xs ≤ b → All (λ p. p.0 < b) (numbered n xs)
unfolding numbered
numbered_below n b [] h = tt
numbered_below n b (x ∷ xs) h = (omega (arith, h), numbered_below (suc n) b xs (omega (arith, h)))

-- at most a page, none of it behind what can be asked for
abbrev pub IsReachable : ReadFileResponse → Type 0
IsReachable r =
    (length r.content ≤ max_read_lines) × All (λ p. p.0 < max_read_lines * 1001) r.content

abbrev page_of : ℕ → List Bytes × ℕ → ReadFileResponse
page_of start_line (lines, total) = record {
  total_lines = total;
  start_line = start_line;
  end_line = end_of start_line lines;
  content = numbered start_line lines;
}

page-IsReachable :
    (file : List Bytes) (c m : ℕ) (r : ReadFileResponse)
    → (1 ≤ c) × (c ≤ max_read_lines * 1000)
    → (1 ≤ m) × (m ≤ max_read_lines)
    → read_file (some file) c m ≡ some r
    → IsReachable r
unfolding read_file
page-IsReachable file zero m r (h, l) k e = absurd (omega (arith, h))
page-IsReachable file (suc c) m r (h, l) (i, j) e =
    let xs : List Bytes = take m (drop c file) in
    let n : length xs ≤ max_read_lines = omega (arith, length-take m (drop c file), j) in
    let p : read_file_range file (suc c) m ≡ (xs, length file) = range_page file c m i j in
    let q = subst (λ (v : List Bytes × ℕ). some (page_of (suc c) v) ≡ some r) p e in
    subst IsReachable (some_inj.0 q) (
      omega (arith, length-numbered (suc c) xs, n),
      numbered_below (suc c) (max_read_lines * 1001) xs (omega (arith, l, n)),
    )

-- Whatever lines a client asks for, it gets at most 500, and none with a number from 500,500 on.
pub read_file-IsReachable :
    (file : List Bytes) (start max : ℤ) (r : ReadFileResponse)
    → handle_read_file (some file) start max ≡ some r
    → IsReachable r
unfolding handle_read_file
read_file-IsReachable file start max r h =
    page-IsReachable file (clamp_int start 1 (max_read_lines * 1000))
      (clamp_int max 1 max_read_lines) r (clamp_bounds start (max_read_lines * 1000) (omega arith))
      (clamp_bounds max max_read_lines (omega arith)) h
