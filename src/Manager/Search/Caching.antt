-- ===== src/Manager/Search/Caching.antt =====
-- The cache of the searches: what it holds, and what a series of searches answers.
use veloria.Base.{
  ℕ, ◌≡◌, refl, sym, subst, ◌∙◌, Bool, true, Option, none, some, List, [], ◌∷◌, All, Bool-cases,
  Option-cases, inl, inr, Bytes, bytes_eq, bytes_eq_iff, bytes_eq_refl, if◌then◌else◌,
}
use veloria.Base.Maps.{lookup, insert, lookup-insert}
use veloria.Codec.{SearchResponse}
use veloria.Manager.Search.{
  Query, Found, Answer, unknown_type, source_failed, answered, SourceSearch, source_answer,
  response_of, remember, recall, search_source, search_cache_key, search,
}
use veloria.Manager.Search.Keys.{
  IsPlainQuery, search_cache_key_inj, with_colon, moved_colon, search_cache_key_collides,
}

-- the answer without a cache
abbrev pub uncached : (Bytes → Bool) → SourceSearch → Query → Answer
uncached has_source run q = if has_source q.repo_type then source_answer (run q) else unknown_type

-- Each response in the cache is what the source answers to a search with no colon that has its key.
abbrev HoldsAnswers : SourceSearch → List (Bytes × SearchResponse) → Type 0
HoldsAnswers run m =
    (k : Bytes) (resp : SearchResponse)
    → lookup k m ≡ some resp
    → (q : Query) × IsPlainQuery q
      × (search_cache_key q ≡ k)
      × (source_answer (run q) ≡ answered resp)

abbrev IsFresh : SourceSearch → Option (List (Bytes × SearchResponse)) → Type 0
IsFresh run none = Unit
IsFresh run (some m) = HoldsAnswers run m

insert-HoldsAnswers :
    (run : SourceSearch) (q : Query) (resp : SearchResponse) (m : List (Bytes × SearchResponse))
    → IsPlainQuery q
    → source_answer (run q) ≡ answered resp
    → HoldsAnswers run m
    → HoldsAnswers run (insert (search_cache_key q) resp m)
insert-HoldsAnswers run q resp m p a h k found e =
    let l = lookup-insert (search_cache_key q) k resp m in
    elim (Bool-cases (bytes_eq (search_cache_key q) k)) [
      | inl same ↦
          let kept : some resp ≡ some found = (rw same at (sym l)) ∙ e in
          (q, p, (bytes_eq_iff (search_cache_key q) k).0 same, a ∙ cc)
      | inr other ↦ h k found ((rw other at (sym l)) ∙ e)
    ]

remember-IsFresh :
    (run : SourceSearch) (q : Query) (c : Option (List (Bytes × SearchResponse))) (a : Answer)
    → IsPlainQuery q
    → source_answer (run q) ≡ a
    → IsFresh run c
    → IsFresh run (remember (search_cache_key q) a c)
unfolding remember
remember-IsFresh run q (some m) (answered resp) p e h = insert-HoldsAnswers run q resp m p e h
remember-IsFresh run q none (answered resp) p e h = tt
remember-IsFresh run q c unknown_type p e h = h
remember-IsFresh run q c source_failed p e h = h

-- What is recalled is the answer of the source.
recalled :
    (run : SourceSearch) (holds : Bytes → Bool) (q : Query)
    (c : Option (List (Bytes × SearchResponse))) (resp : SearchResponse)
    → IsPlainQuery q
    → IsFresh run c
    → recall holds (search_cache_key q) c ≡ some resp
    → source_answer (run q) ≡ answered resp
unfolding recall
recalled run holds q none resp p h e = cc
recalled run holds q (some m) resp p h e = elim (Bool-cases (holds (search_cache_key q))) [
  | inr gone ↦ cc (rw gone at e)
  | inl held ↦
      let (r, pr, same, a) = h (search_cache_key q) resp (rw held at e) in
      let i : r ≡ q = search_cache_key_inj r q pr p same in
      subst (λ (x : Query). source_answer (run x) ≡ answered resp) i a
]

search_step :
    (has_source : Bytes → Bool) (run : SourceSearch) (holds : Bytes → Bool) (q : Query)
    (c : Option (List (Bytes × SearchResponse)))
    → IsPlainQuery q
    → IsFresh run c
    → ((search has_source run holds q c).0 ≡ uncached has_source run q)
      × IsFresh run (search has_source run holds q c).1
unfolding search search_source
search_step has_source run holds q c p h = elim (Bool-cases (has_source q.repo_type)) [
  | inr unknown ↦ rw unknown (refl, h)
  | inl known ↦ elim (Option-cases (recall holds (search_cache_key q) c)) [
    | inl miss ↦ rw (known, miss) (refl, remember-IsFresh run q c (source_answer (run q)) p refl h)
    | inr (resp, hit) ↦ rw (known, hit) (sym (recalled run holds q c resp p h hit), h)
  ]
]

-- A series of searches, each with the entries that the cache still holds by then.
unfoldable pub searches :
    (Bytes → Bool)
    → SourceSearch
    → List (Query × (Bytes → Bool))
    → Option (List (Bytes × SearchResponse))
    → List Answer
searches has_source run [] c = []
searches has_source run ((q, holds) ∷ qs) c =
    let r = search has_source run holds q c in r.0 ∷ searches has_source run qs r.1

abbrev pub answers : (Bytes → Bool) → SourceSearch → List (Query × (Bytes → Bool)) → List Answer
answers has_source run [] = []
answers has_source run ((q, holds) ∷ qs) = uncached has_source run q ∷ answers has_source run qs

searches_fresh :
    (has_source : Bytes → Bool) (run : SourceSearch) (qs : List (Query × (Bytes → Bool)))
    (c : Option (List (Bytes × SearchResponse)))
    → All (λ q. IsPlainQuery q.0) qs
    → IsFresh run c
    → searches has_source run qs c ≡ answers has_source run qs
unfolding searches
searches_fresh has_source run [] c p h = refl
searches_fresh has_source run ((q, holds) ∷ qs) c p h =
    let (a, f) = search_step has_source run holds q c p.0 h in
    let ih = searches_fresh has_source run qs (search has_source run holds q c).1 p.1 f in
    λ i. a i ∷ ih i

-- A series of searches with no colon in their terms and file patterns is answered as it is without a
-- cache, whichever entries the cache drops meanwhile, if the cache is empty at first and the sources
-- answer alike all the time.
pub searches_uncached :
    (has_source : Bytes → Bool) (run : SourceSearch) (qs : List (Query × (Bytes → Bool)))
    → All (λ q. IsPlainQuery q.0) qs
    → searches has_source run qs (some []) ≡ answers has_source run qs
searches_uncached has_source run qs p =
    searches_fresh has_source run qs (some []) p (λ k resp e. unfold lookup in cc)

search_miss :
    (has_source : Bytes → Bool) (run : SourceSearch) (holds : Bytes → Bool) (q : Query)
    (c : Option (List (Bytes × SearchResponse)))
    → has_source q.repo_type ≡ true
    → recall holds (search_cache_key q) c ≡ none
    → (search has_source run holds q c).1 ≡ remember (search_cache_key q) (source_answer (run q)) c
unfolding search search_source
search_miss has_source run holds q c known miss = rw (known, miss)

search_hit :
    (has_source : Bytes → Bool) (run : SourceSearch) (holds : Bytes → Bool) (q : Query)
    (c : Option (List (Bytes × SearchResponse))) (resp : SearchResponse)
    → has_source q.repo_type ≡ true
    → recall holds (search_cache_key q) c ≡ some resp
    → (search has_source run holds q c).0 ≡ answered resp
unfolding search search_source
search_hit has_source run holds q c resp known hit = rw (known, hit)

recall_inserted :
    (holds : Bytes → Bool) (k : Bytes) (resp : SearchResponse) (m : List (Bytes × SearchResponse))
    → holds k ≡ true
    → recall holds k (some (insert k resp m)) ≡ some resp
unfolding recall
recall_inserted holds k resp m held = rw (held, lookup-insert k k resp m, bytes_eq_refl k)

remember_answer :
    (run : SourceSearch) (q : Query) (k : Bytes) (found : List Found) (total : ℕ)
    (m : List (Bytes × SearchResponse))
    → run q ≡ some (found, total)
    → remember k (source_answer (run q)) (some m) ≡ some (insert k (response_of found total) m)
unfolding remember source_answer
remember_answer run q k found total m e = rw e

-- A search for `t` with the file pattern `false:f`, which its source answers, decides the answer of a
-- search for `t:false` with the pattern `f` behind it, if neither ignores case, the cache has no entry
-- for the first search at first, and it still holds the entry at the second.
pub search_confused :
    (has_source : Bytes → Bool) (run : SourceSearch) (holds : Bytes → Bool) (repo t f e : Bytes)
    (n : ℕ) {found : List Found} {total : ℕ} (m : List (Bytes × SearchResponse))
    → has_source repo ≡ true
    → holds (search_cache_key (with_colon repo t f e n)) ≡ true
    → run (with_colon repo t f e n) ≡ some (found, total)
    → recall holds (search_cache_key (with_colon repo t f e n)) (some m) ≡ none
    → (search has_source run holds
        (moved_colon repo t f e n)
        (search has_source run holds (with_colon repo t f e n) (some m)).1).0
      ≡ answered (response_of found total)
search_confused has_source run holds repo t f e n {found} {total} m known held answer miss =
    let q = with_colon repo t f e n in
    let k = search_cache_key q in
    let made =
      search_miss has_source run holds q (some m) known miss
      ∙ remember_answer run q k found total m answer in
    let hit =
      subst
        (λ x.
          recall holds x (some (insert k (response_of found total) m))
          ≡ some (response_of found total))
        (search_cache_key_collides repo t f e n)
        (recall_inserted holds k (response_of found total) m held) in
    rw made (
      search_hit has_source run holds (moved_colon repo t f e n)
        (some (insert k (response_of found total) m)) (response_of found total) known hit)
