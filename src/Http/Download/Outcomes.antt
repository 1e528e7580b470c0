-- ===== src/Http/Download/Outcomes.antt =====
-- The outcomes of a download, by what its requests get, and its waits.
use veloria.Base.{
  ℕ, zero, suc, ◌+◌, ◌-◌, ◌*◌, ◌≤◌, ◌≡◌, ◌↔◌, inl, inr, refl, Bool, true, false, List, Bytes, arith,
  leb, Bool-cases,
}
use veloria.Base.Int.{ℤ, pos_part}
use veloria.Http.Delay.{download_max_retry_wait}
use veloria.Http.Delay.Laws.{parse_retry_after_header_le}
use veloria.Http.Download.{
  Exchange, plain, download_not_found, download_unavailable, Round, saved, failed, again, round_of,
  download_error, Download, wait_before_retry, exhausted, finish_round, download_loop, download_zip,
  download_max_retries,
}
use veloria.Http.Download.Rounds.{
  slept, GoneAt, here, later, Fails, end, retry, round_of-gone, round_of-transient, IsGone-of,
  IsTransient-of, round_of_unavailable,
}

module _ (w : ℤ) (net : ℕ → Exchange) where
  loop-GoneAt :
      (a left : ℕ) (t : Bool)
      → GoneAt net a left
      → (download_loop w net a left t).result ≡ download_error download_not_found
  unfolding download_loop finish_round
  loop-GoneAt a zero t g = elim g [ ]
  loop-GoneAt a (suc left) t (here g) = rw (round_of-gone (net a) g)
  loop-GoneAt a (suc left) t (later {t = u} x g) =
      let (h, e) = round_of-transient u (net a) x in rw e (loop-GoneAt (a + 1) left u g)

  GoneAt-round :
      (a left : ℕ) (rest : Bool → Download) (r : Round)
      → round_of (net a) ≡ r
      → ((t : Bool) → (rest t).result ≡ download_error download_not_found → GoneAt net (a + 1) left)
      → (finish_round w a r rest).result ≡ download_error download_not_found
      → GoneAt net a (suc left)
  unfolding finish_round
  GoneAt-round a left rest (saved b) k ih e = cc
  GoneAt-round a left rest (failed plain) k ih e = cc
  GoneAt-round a left rest (failed download_unavailable) k ih e = cc
  GoneAt-round a left rest (failed download_not_found) k ih e = here (IsGone-of (net a) k)
  GoneAt-round a left rest (again t h) k ih e = later (IsTransient-of t h (net a) k) (ih t e)

  GoneAt-loop :
      (a left : ℕ) (t : Bool)
      → (download_loop w net a left t).result ≡ download_error download_not_found
      → GoneAt net a left
  unfolding download_loop exhausted
  GoneAt-loop a zero true e = cc
  GoneAt-loop a zero false e = cc
  GoneAt-loop a (suc left) t e =
      GoneAt-round a left (download_loop w net (a + 1) left) (round_of (net a)) refl
        (GoneAt-loop (a + 1) left) e

  loop-Fails :
      (a left : ℕ) (t : Bool)
      → Fails net a left t true
      → (download_loop w net a left t).result ≡ download_error download_unavailable
  unfolding download_loop finish_round exhausted
  loop-Fails a zero _ end = refl
  loop-Fails a (suc left) t (retry {u = u} x f) =
      let (h, e) = round_of-transient u (net a) x in rw e (loop-Fails (a + 1) left u f)

  Fails-round :
      (a left : ℕ) (t : Bool) (rest : Bool → Download) (r : Round)
      → round_of (net a) ≡ r
      → ((u : Bool)
          → (rest u).result ≡ download_error download_unavailable
          → Fails net (a + 1) left u true)
      → (finish_round w a r rest).result ≡ download_error download_unavailable
      → Fails net a (suc left) t true
  unfolding finish_round
  Fails-round a left t rest (saved b) k ih e = cc
  Fails-round a left t rest (failed plain) k ih e = cc
  Fails-round a left t rest (failed download_not_found) k ih e = cc
  Fails-round a left t rest (failed download_unavailable) k ih e =
      elim (round_of_unavailable (net a) k) [ ]
  Fails-round a left t rest (again u h) k ih e = retry (IsTransient-of u h (net a) k) (ih u e)

  Fails-loop :
      (a left : ℕ) (t : Bool)
      → (download_loop w net a left t).result ≡ download_error download_unavailable
      → Fails net a left t true
  unfolding download_loop exhausted
  Fails-loop a zero true e = end
  Fails-loop a zero false e = cc
  Fails-loop a (suc left) t e =
      Fails-round a left t (download_loop w net (a + 1) left) (round_of (net a)) refl
        (Fails-loop (a + 1) left) e

  -- Given a temporary file, the download reports exit code 2 exactly if an attempt, behind transient
  -- failures only, gets one of the four permanent statuses, or a complete body whose file cannot be read
  -- back or does not begin as a zip does. It reports exit code 3 exactly if all attempts fail transiently,
  -- by a 429 too, and the last one otherwise than by a 429. Without a temporary file it reports neither.
  pub download_zip_outcomes :
      (creates : Bool)
      → ((download_zip creates w net).result ≡ download_error download_not_found
          ↔ ((creates ≡ true) × GoneAt net 1 download_max_retries))
        × ((download_zip creates w net).result ≡ download_error download_unavailable
            ↔ ((creates ≡ true) × Fails net 1 download_max_retries false true))
  unfolding download_zip
  download_zip_outcomes true = (
    (
      (λ e. (refl, GoneAt-loop 1 download_max_retries false e)),
      (λ g. loop-GoneAt 1 download_max_retries false g.1),
    ),
    (
      (λ e. (refl, Fails-loop 1 download_max_retries false e)),
      (λ f. loop-Fails 1 download_max_retries false f.1),
    ),
  )
  download_zip_outcomes false = (((λ e. cc), (λ g. cc (g.0))), ((λ e. cc), (λ f. cc (f.0))))

  wait_le :
      (a : ℕ) (h : Bytes) (rest : List ℤ) (left : ℕ)
      → pos_part w ≤ download_max_retry_wait
      → slept rest ≤ left * download_max_retry_wait
      → slept (wait_before_retry w a h rest) ≤ suc left * download_max_retry_wait
  unfolding wait_before_retry
  wait_le a h rest left k r =
      let le = parse_retry_after_header_le w h k in
      elim (Bool-cases (leb 3 a)) [
        | inl e ↦ rw e (omega (arith, r))
        | inr e ↦ rw e (omega (arith, r, le))
      ]

  last_wait :
      (a : ℕ) (h : Bytes) (rest : List ℤ) → leb 3 a ≡ true → wait_before_retry w a h rest ≡ rest
  unfolding wait_before_retry
  last_wait a h rest e = rw e

  round_waits :
      (a left : ℕ) (rest : Bool → Download) (r : Round)
      → a + suc left ≡ 4
      → pos_part w ≤ download_max_retry_wait
      → ((t : Bool) → slept (rest t).waits ≤ (left - 1) * download_max_retry_wait)
      → ((t : Bool) → (rest t).requests ≤ left)
      → (slept (finish_round w a r rest).waits ≤ left * download_max_retry_wait)
        × ((finish_round w a r rest).requests ≤ suc left)
  unfolding finish_round
  round_waits a left rest (saved b) e k ih jh = (omega arith, omega arith)
  round_waits a left rest (failed x) e k ih jh = (omega arith, omega arith)
  round_waits a zero rest (again t h) e k ih jh =
      let three : leb 3 a ≡ true = ground arith in
      (rw (last_wait a h (rest t).waits three) (ih t), omega (arith, jh t))
  round_waits a (suc left) rest (again t h) e k ih jh =
      (wait_le a h (rest t).waits left k (omega (arith, ih t)), omega (arith, jh t))

  loop_waits :
      (a left : ℕ) (t : Bool)
      → a + left ≡ 4
      → pos_part w ≤ download_max_retry_wait
      → (slept (download_loop w net a left t).waits ≤ (left - 1) * download_max_retry_wait)
        × ((download_loop w net a left t).requests ≤ left)
  unfolding download_loop
  loop_waits a zero t e k = (omega arith, omega arith)
  loop_waits a (suc left) t e k =
      let ih = λ (u : Bool). loop_waits (a + 1) left u (omega (arith, e)) k in
      let (ws, rs) =
        round_waits a left (download_loop w net (a + 1) left) (round_of (net a)) e k (λ u. (ih u).0)
          (λ u. (ih u).1) in
      (omega (arith, ws), rs)

  -- A download makes at most three requests and sleeps at most 120 seconds, if the default wait is at
  -- most `downloadMaxRetryWait`.
  download_zip_bounds :
      (creates : Bool)
      → pos_part w ≤ download_max_retry_wait
      → (slept (download_zip creates w net).waits ≤ 2 * download_max_retry_wait)
        × ((download_zip creates w net).requests ≤ download_max_retries)
  unfolding download_zip
  download_zip_bounds true k = loop_waits 1 download_max_retries false refl k
  download_zip_bounds false k = (omega arith, omega arith)
