-- ===== src/Auth/Resolve.antt =====
-- What `CallerResolver` answers and what it leaves in its cache (gateway/auth.py).
use librouter.Prelude.{
  ◌≤◌, ◌≡◌, refl, ap, ◌∙◌, String, Option, none, some, [], ◌∷◌, ◌++◌, ◌⊎◌, inl, inr, arith, length,
  length-append, All-append, Bool-cases, string_eq,
}
use librouter.Prelude.Dict.{get}
use librouter.Prelude.Float.{Float, ◌≺◌, ◌⊖◌}
use librouter.Models.{Caller}
use librouter.Auth.{
  Cache, CallerResolver, enabled_only, remove, move_to_end, evict, cached_answer, remember,
  resolve_hash,
}
use librouter.Auth.Cache.{
  move_to_end-put, length-remove_present, length-store, evict-last, IsBacked, get-IsBacked,
  remove-IsBacked, evict-IsBacked,
}

module _ {W : Type 0} ⦃d : Float W⦄ (db : String → Option Caller) (key_hash : String) (now : W)
    (r : CallerResolver W) where
  -- An answer of the database from a moment within the time to live.
  abbrev pub IsRecent : W → Type 0
  IsRecent t = (t ≡ now) ⊎ (now ⊖ t ≺ r.ttl)

  -- How a lookup leaves a cache: its entry is the last one, and of the others all are left, or all
  -- but the least recently used one of a full cache.
  pub record IsUsed (answer : Option Caller) (cache : Cache W) : Type 0 where
    pub before : Cache W
    pub stored_at : W
    pub last : cache ≡ before ++ ((key_hash, (stored_at, answer)) ∷ [])
    pub recent : IsRecent stored_at
    pub others :
        (before ≡ remove key_hash r.cache)
        ⊎ ((oldest : String × (W × Option Caller)) × (remove key_hash r.cache ≡ oldest ∷ before)
            × (r.maxsize ≤ length (remove key_hash r.cache)))

  -- The two ways of an answer.
  data Answers (answer : Option Caller) (r' : CallerResolver W) : Type 0 where
    hit :
        (t : W)
        → get r.cache key_hash ≡ some (t, answer)
        → now ⊖ t ≺ r.ttl
        → r'.cache ≡ remove key_hash r.cache ++ ((key_hash, (t, answer)) ∷ [])
        → Answers answer r'
    miss :
        answer ≡ enabled_only (db key_hash)
        → r'.cache ≡ evict r.maxsize (remove key_hash r.cache ++ ((key_hash, (now, answer)) ∷ []))
        → Answers answer r'

  missed :
      Answers (remember key_hash now (db key_hash) r).0 (remember key_hash now (db key_hash) r).1
  unfolding remember
  missed =
      miss refl
        (ap (evict r.maxsize) (move_to_end-put key_hash (now, enabled_only (db key_hash)) r.cache))

  Answers-from :
      (o : Option (W × Option Caller))
      → get r.cache key_hash ≡ o
      → Answers (resolve_hash db key_hash now r).0 (resolve_hash db key_hash now r).1
  unfolding resolve_hash cached_answer
  Answers-from none e = rw (resolve_hash, cached_answer, e) missed
  Answers-from (some (t, c)) e = elim (Bool-cases (d.lt (now ⊖ t) r.ttl)) [
    | inl young ↦
        rw (resolve_hash, cached_answer, e, young) (hit t e young (rw (move_to_end, e) refl))
    | inr old ↦ rw (resolve_hash, cached_answer, e, old) missed
  ]

  resolve_hash-Answers :
      Answers (resolve_hash db key_hash now r).0 (resolve_hash db key_hash now r).1
  resolve_hash-Answers = Answers-from (get r.cache key_hash) refl

  -- For a cache size above 0, a lookup leaves its own entry as the last, the most recently used,
  -- one, with an answer of this moment or younger than the time to live, and evicts no other entry
  -- than the least recently used one of a full cache.
  pub resolve_hash-IsUsed :
      1 ≤ r.maxsize
      → IsUsed (resolve_hash db key_hash now r).0 (resolve_hash db key_hash now r).1.cache
  resolve_hash-IsUsed size_pos =
      go (resolve_hash db key_hash now r).0 (resolve_hash db key_hash now r).1 resolve_hash-Answers
    where
      go : (c : Option Caller) (r' : CallerResolver W) → Answers c r' → IsUsed c r'.cache
      go c r' (hit t found young cache) = record {
        before = remove key_hash r.cache;
        stored_at = t;
        last = cache;
        recent = inr young;
        others = inl refl;
      }
      go c r' (miss eq cache) =
          let (before, last, others) =
            evict-last r.maxsize (remove key_hash r.cache) (key_hash, (now, c)) size_pos in
          record {
            before = before;
            stored_at = now;
            last = cache ∙ last;
            recent = inl refl;
            others = others;
          }

  -- A lookup in a cache within its size leaves one within its size.
  length-resolve_hash :
      length r.cache ≤ r.maxsize → length (resolve_hash db key_hash now r).1.cache ≤ r.maxsize
  length-resolve_hash h =
      go (resolve_hash db key_hash now r).0 (resolve_hash db key_hash now r).1 resolve_hash-Answers
    where
      go : (c : Option Caller) (r' : CallerResolver W) → Answers c r' → length r'.cache ≤ r.maxsize
      go c r' (hit t found young cache) = rw cache (
          omega (
            arith,
            length-append (remove key_hash r.cache) ((key_hash, (t, c)) ∷ []),
            length-remove_present key_hash (t, c) r.cache found,
          ))
      go c r' (miss eq cache) = rw cache (length-store r.maxsize key_hash (now, c) r.cache h)

  -- Whatever is true of each answer that the database gave for a hash at a time, with callers that
  -- may not call taken as none, is true of the cached ones, and of what a lookup answers, at a time
  -- that is now or within the time to live.
  pub resolve_hash-IsBacked {κ} :
      (Q : String → W → Option Caller → Type κ)
      → IsBacked Q r.cache
      → Q key_hash now (enabled_only (db key_hash))
      → (t : W) × IsRecent t
        × Q key_hash t (resolve_hash db key_hash now r).0
        × IsBacked Q (resolve_hash db key_hash now r).1.cache
  resolve_hash-IsBacked Q backed fresh =
      go (resolve_hash db key_hash now r).0 (resolve_hash db key_hash now r).1 resolve_hash-Answers
    where
      go :
          (c : Option Caller) (r' : CallerResolver W)
          → Answers c r'
          → (t : W) × IsRecent t × Q key_hash t c × IsBacked Q r'.cache
      go c r' (hit t found young cache) =
          let q = get-IsBacked Q key_hash t c r.cache backed found in
          (
            t,
            inr young,
            q,
            rw cache (
                All-append _ (remove key_hash r.cache) ((key_hash, (t, c)) ∷ [])
                  (remove-IsBacked Q key_hash r.cache backed) (q, tt)),
          )
      go c r' (miss eq cache) =
          let q : Q key_hash now c = rw eq fresh in
          (
            now,
            inl refl,
            q,
            rw cache (
                evict-IsBacked Q r.maxsize _ (
                  All-append _ (remove key_hash r.cache) ((key_hash, (now, c)) ∷ [])
                    (remove-IsBacked Q key_hash r.cache backed) (q, tt))),
          )
