-- ===== src/Mcp/Persist/Laws.antt =====
-- What is stored can be loaded, and a failed upload leaves no row behind.
use veloria.Base.{
  ℕ, suc, ◌≡◌, subst, Bool, true, false, ◌&&◌, some, List, [], ◌∷◌, Bytes, arith, is_some,
}
use veloria.Codec.{SearchResponse, search_response_to_proto, search_response_from_proto}
use veloria.Codec.Laws.{IsStorable, search_response_round_trip}
use veloria.Mcp.Persist.{
  convert_manager_response, completed, Storage, find, remove, Calls, create_row, clean_up, upload,
  upload_outcome, store_results, tool_search, load_found, load_response, persist_search,
  load_object, load_row, load_search,
}

find-head {ℓ} : {V : Type ℓ} (id : ℕ) (v : V) (m : List (ℕ × V)) → find id ((id, v) ∷ m) ≡ some v
unfolding find
find-head id v m = ground arith

load_head :
    (unescape : Bytes → Bytes) (resp m : SearchResponse) (s : Storage) (k : ℕ)
    → search_response_from_proto unescape (some m) ≡ some resp
    → load_search unescape k (record s {
      rows = (k, completed) ∷ s.rows;
      objects = (k, m) ∷ s.objects;
      next_id = suc s.next_id;
    })
      ≡ convert_manager_response resp
unfolding load_search load_object load_response load_row load_found
load_head unescape resp m s k h = rw (find-head k completed s.rows, find-head k m s.objects, h)

load_uploaded :
    (unescape : Bytes → Bytes) (resp m : SearchResponse) (b d : Bool) (s : Storage) (id : ℕ)
    → search_response_from_proto unescape (some m) ≡ some resp
    → (upload_outcome b d s.next_id m (create_row s)).0 ≡ some id
    → load_search unescape id (upload_outcome b d s.next_id m (create_row s)).1
      ≡ convert_manager_response resp
unfolding upload_outcome create_row
load_uploaded unescape resp m false d s id h e = absurd (cc e)
load_uploaded unescape resp m true d s id h e =
    let p : s.next_id ≡ id = cc in
    subst
      (λ k.
        load_search unescape k (upload_outcome true d s.next_id m (create_row s)).1
        ≡ convert_manager_response resp)
      p (load_head unescape resp m s s.next_id h)

load_stored :
    (valid unescape : Bytes → Bytes) (c : Calls) (resp : SearchResponse) (s : Storage) (id : ℕ)
    (b : Bool)
    → IsStorable valid unescape resp
    → (store_results b valid c resp s).0 ≡ some id
    → load_search unescape id (store_results b valid c resp s).1 ≡ convert_manager_response resp
unfolding store_results upload search_response_to_proto
load_stored valid unescape c resp s id false h e = absurd (cc e)
load_stored valid unescape c resp s id true h e =
    load_uploaded unescape resp _ c.uploads c.deletes s id
      (search_response_round_trip valid unescape resp h) e

-- The id that a search of an agent gets loads the same response as the search itself answered, if the
-- results can be stored: no entry is nil, the strings are valid UTF-8, the names hold no HTML entity
-- and the counts fit an int32.
pub load_search-persisted :
    (valid unescape : Bytes → Bytes) (c : Calls) (resp : SearchResponse) (s : Storage) (id : ℕ)
    → IsStorable valid unescape resp
    → (tool_search valid c resp s).0.1 ≡ some id
    → load_search unescape id (tool_search valid c resp s).1 ≡ (tool_search valid c resp s).0.0
unfolding tool_search persist_search
load_search-persisted valid unescape c resp s id h e =
    load_stored valid unescape c resp s id (c.available && c.creates) h e

-- every row has its object
abbrev pub IsBacked : Storage → Type 0
IsBacked s = (id : ℕ) → is_some (find id s.rows) ≡ true → is_some (find id s.objects) ≡ true

find-remove {ℓ} :
    {V : Type ℓ} (id k : ℕ) (m : List (ℕ × V))
    → is_some (find id (remove k m)) ≡ true
    → is_some (find id m) ≡ true
unfolding find remove
find-remove id k [] h = h
find-remove id k ((j, v) ∷ m) h = ground (arith, find-remove id k m)

remove-head {ℓ} :
    {V : Type ℓ} (k : ℕ) (v : V) (m : List (ℕ × V)) → remove k ((k, v) ∷ m) ≡ remove k m
unfolding remove
remove-head k v m = ground arith

clean_up-IsBacked : (s : Storage) → IsBacked s → IsBacked (clean_up true s.next_id (create_row s))
unfolding clean_up create_row
clean_up-IsBacked s h id f = h id (
    find-remove id s.next_id s.rows
      (subst (λ m. is_some (find id m) ≡ true) (remove-head s.next_id completed s.rows) f))

stored-IsBacked :
    (s : Storage) (m : SearchResponse) (id : ℕ)
    → IsBacked s
    → is_some (find id ((s.next_id, completed) ∷ s.rows)) ≡ true
    → is_some (find id ((s.next_id, m) ∷ s.objects)) ≡ true
unfolding find
stored-IsBacked s m id h f = ground (arith, h id)

uploaded-IsBacked :
    (s : Storage) (b : Bool) (m : SearchResponse)
    → IsBacked s
    → IsBacked (upload_outcome b true s.next_id m (create_row s)).1
unfolding upload_outcome create_row
uploaded-IsBacked s false m h = clean_up-IsBacked s h
uploaded-IsBacked s true m h = λ id f. stored-IsBacked s m id h f

store_results-IsBacked :
    (valid : Bytes → Bytes) (c : Calls) (resp : SearchResponse) (s : Storage) (b : Bool)
    → c.deletes ≡ true
    → IsBacked s
    → IsBacked (store_results b valid c resp s).1
unfolding store_results upload search_response_to_proto
store_results-IsBacked valid c resp s false d h = h
store_results-IsBacked valid c resp s true d h = rw d (uploaded-IsBacked s c.uploads _ h)

-- A stored search keeps it so that every row of a search has its object, whichever calls fail, if the
-- removal of a row succeeds.
pub persist_search-IsBacked :
    (valid : Bytes → Bytes) (c : Calls) (resp : SearchResponse) (s : Storage)
    → c.deletes ≡ true
    → IsBacked s
    → IsBacked (persist_search valid c resp s).1
unfolding persist_search
persist_search-IsBacked valid c resp s d h =
    store_results-IsBacked valid c resp s (c.available && c.creates) d h
