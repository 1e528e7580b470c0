-- ===== src/Store/Search/Finds.antt =====
-- What a search of a store finds.
use mathlib.Core.List.{Memᴰ}
use veloria.Base.{
  ℕ, ◌<◌, ◌≡◌, ◌≢◌, ◌⊎◌, inl, inr, refl, sym, ap, ◌∙◌, subst, Bool, true, false, none, some, List,
  [], ◌∷◌, All, Bytes, bytes_lt, Bool-cases, if◌then◌else◌,
}
use veloria.Search.{FileMatch}
use veloria.Store.{Extension, Store, has_index}
use veloria.Store.Search.{
  global_match_cap, Hit, Search, insert_by_slug, sort_by_slug, indexed_extensions, snapshot, start,
  Reaches, IsOver, answer,
}
use veloria.Store.Search.Complete.{hit, search_complete}

inserted : (e : Extension) (xs : List Extension) → Memᴰ e (insert_by_slug e xs)
unfolding insert_by_slug
inserted e [] = Memᴰ.head refl
inserted e (x ∷ xs) = elim (Bool-cases (bytes_lt x.slug e.slug)) [
  | inl h ↦ rw h (Memᴰ.tail (inserted e xs))
  | inr h ↦ rw h (Memᴰ.head refl)
]

still_there : (e x : Extension) (xs : List Extension) → Memᴰ e xs → Memᴰ e (insert_by_slug x xs)
unfolding insert_by_slug
still_there e x [] m = elim m [ ]
still_there e x (y ∷ xs) (Memᴰ.head p) = elim (Bool-cases (bytes_lt y.slug x.slug)) [
  | inl h ↦ rw h (Memᴰ.head p)
  | inr h ↦ rw h (Memᴰ.tail (Memᴰ.head p))
]
still_there e x (y ∷ xs) (Memᴰ.tail m) = elim (Bool-cases (bytes_lt y.slug x.slug)) [
  | inl h ↦ rw h (Memᴰ.tail (still_there e x xs m))
  | inr h ↦ rw h (Memᴰ.tail (Memᴰ.tail m))
]

sorted_there : (e : Extension) (xs : List Extension) → Memᴰ e xs → Memᴰ e (sort_by_slug xs)
unfolding sort_by_slug
sorted_there e _ (Memᴰ.head {xs = xs} h) =
    subst (λ y. Memᴰ e (insert_by_slug y (sort_by_slug xs))) h (inserted e (sort_by_slug xs))
sorted_there e _ (Memᴰ.tail {x = x} {xs = xs} m) =
    still_there e x (sort_by_slug xs) (sorted_there e xs m)

indexed_there :
    (s : Store) (k : Bytes) (e : Extension) (m : List (Bytes × Extension))
    → Memᴰ (k, e) m
    → has_index e s ≡ true
    → Memᴰ e (indexed_extensions s m)
unfolding indexed_extensions
indexed_there s k e [] m h = elim m [ ]
indexed_there s k e ((j, x) ∷ m) (Memᴰ.head p) h =
    let q : e ≡ x = ap (λ y. y.1) p in
    let i : has_index x s ≡ true = ap (λ y. has_index y s) (sym q) ∙ h in rw i (Memᴰ.head q)
indexed_there s k e ((j, x) ∷ m) (Memᴰ.tail n) h = elim (Bool-cases (has_index x s)) [
  | inl i ↦ rw i (Memᴰ.tail (indexed_there s k e m n h))
  | inr i ↦ rw i (indexed_there s k e m n h)
]

All-Mem : {A : Type 0} (P : A → Type 0) (a : A) (xs : List A) → All P xs → Memᴰ a xs → P a
All-Mem P a [] ps m = elim m [ ]
All-Mem P a (x ∷ xs) (p, ps) (Memᴰ.head e) = subst P (sym e) p
All-Mem P a (x ∷ xs) (p, ps) (Memᴰ.tail m) = All-Mem P a xs ps m

answered :
    (c : Bool) (hs ks : List Hit)
    → (if c then none else some hs) ≡ some ks
    → (c ≡ false) × (hs ≡ ks)
answered true hs ks e = cc
answered false hs ks e = (refl, cc)

-- A search of a store that ends with results, and with fewer matches counted than the cap, has among
-- the results, with all its matches, each extension that the store lists with an index and that has a
-- match.
pub search_finds :
    {workers : ℕ} (found : Extension → List FileMatch) (s : Store) {t : Search} (hs : List Hit)
    (k : Bytes) (e : Extension)
    → Reaches workers found (start (snapshot s)) t
    → IsOver t
    → answer t ≡ some hs
    → t.total_matches < global_match_cap
    → Memᴰ (k, e) s.entries
    → has_index e s ≡ true
    → found e ≢ []
    → Memᴰ (hit found e) hs
unfolding answer snapshot
search_finds found s {t} hs k e r o a below m i n =
    let (c, p) = answered t.cancelled t.results hs a in
    let all = search_complete found (snapshot s) r o c below in
    let there = sorted_there e _ (indexed_there s k e s.entries m i) in
    elim (All-Mem (λ x. (found x ≡ []) ⊎ Memᴰ (hit found x) t.results) e (snapshot s) all there) [
      | inl z ↦ absurd (n z)
      | inr z ↦ subst (λ l. Memᴰ (hit found e) l) p z
    ]
