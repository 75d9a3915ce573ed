-- ===== src/Breaker/Scan.antt =====
-- gateway/breaker.py: the sample keys name the candidates that they were made for.
use Prim.Native.Char.{Char, code}
use Prim.Native.String.{◌++◌ as str_append, count}
use text.Mathlib.TextLemmas.{
  nil-append, cons-append, append_assoc, length-append, length-cons, nil≢cons,
}
use librouter.Prelude.{
  ◌≤◌, ◌≡◌, refl, ◌∙◌, ap, sym, String, Option, none, some, List, [], ◌∷◌, map, All, arith,
  string_eq, nat_eq, ◌==◌, beq_refl, contains, if◌then◌else◌, Option-cases, Bool-cases, inl, inr,
}
use librouter.Prelude.Dict.{get, setdefault, get-setdefault}
use librouter.Prelude.Int.{ℤ}
use librouter.Prelude.Float.{Float}
use librouter.Models.{CandidateRef, candidate_eq}
use librouter.Auth.{drop_prefix}
use librouter.Breaker.{Snapshot, SnapshotEntry, seed_snapshot, fresh_entry}
use librouter.Breaker.Keys.{
  cut, split_two, sample_key, parse_key, scan_candidates, seed_snapshot_from_keys,
}

drop_prefix-append : (p s : String) → drop_prefix p (str_append p s) ≡ some s
unfolding drop_prefix
drop_prefix-append String.[] s = rw (nil-append s) refl
drop_prefix-append (String.◌∷◌ c p) s =
    rw (cons-append c p s, beq_refl (code c)) (drop_prefix-append p s)

-- What is longer than the prefix decides alone whether it begins with it.
drop_prefix_longer :
    (p u t : String)
    → count p ≤ count u
    → drop_prefix p (str_append u t)
      ≡ elim (drop_prefix p u) [ none ↦ none | some r ↦ some (str_append r t) ]
unfolding drop_prefix
drop_prefix_longer String.[] u t h = refl
drop_prefix_longer (String.◌∷◌ c p) String.[] t h = absurd (ground (arith, length-cons c p))
drop_prefix_longer (String.◌∷◌ c p) (String.◌∷◌ b u) t h =
    rw (cons-append b u t) (elim (Bool-cases (code c == code b)) [
      | inl same ↦
          rw same (drop_prefix_longer p u t (ground (arith, length-cons c p, length-cons b u, h)))
      | inr other ↦ rw other refl
    ])

abbrev begin_with : Char → Option (String × String) → Option (String × String)
begin_with c none = none
begin_with c (some (before, rest)) = some (String.◌∷◌ c before, rest)

-- The two ways of `cut` at a character.
cut_here :
    (sep : String) (c : Char) (u r : String)
    → drop_prefix sep (String.◌∷◌ c u) ≡ some r
    → cut sep (String.◌∷◌ c u) ≡ some ("", r)
unfolding cut
cut_here sep c u r h = ground arith

cut_later :
    (sep : String) (c : Char) (u : String)
    → drop_prefix sep (String.◌∷◌ c u) ≡ none
    → cut sep (String.◌∷◌ c u) ≡ begin_with c (cut sep u)
unfolding cut
cut_later sep c u h = ground arith

begin_with-inj :
    (o : Option (String × String)) (c : Char) (s r : String)
    → begin_with c o ≡ some (String.◌∷◌ c s, r)
    → o ≡ some (s, r)
begin_with-inj none c s r h = cc
begin_with-inj (some (b, q)) c s r h = ground arith

cut_empty : cut "" "" ≡ none
unfolding cut
cut_empty = refl

drop_prefix_within :
    (sep s t : String) (c : Char)
    → drop_prefix sep (String.◌∷◌ c (str_append s sep)) ≡ none
    → drop_prefix sep (String.◌∷◌ c (str_append s (str_append sep t))) ≡ none
drop_prefix_within sep s t c h =
    let longer =
      drop_prefix_longer sep (String.◌∷◌ c (str_append s sep)) t
        (omega (arith, length-cons c (str_append s sep), length-append s sep)) in
    rw (h, cons-append c (str_append s sep) t, append_assoc s sep t) at longer

-- The first place of the separator stays the first when the text goes on.
cut-append :
    (sep s t : String)
    → cut sep (str_append s sep) ≡ some (s, "")
    → cut sep (str_append s (str_append sep t)) ≡ some (s, t)
cut-append String.[] String.[] t h = absurd (cc (cut_empty, h))
cut-append (String.◌∷◌ k p) String.[] t h =
    rw (nil-append (str_append (String.◌∷◌ k p) t), cons-append k p t)
      (cut_here (String.◌∷◌ k p) k (str_append p t) t
        (rw (← cons-append k p t) (drop_prefix-append (String.◌∷◌ k p) t)))
cut-append sep (String.◌∷◌ c s) t h =
    let found : cut sep (String.◌∷◌ c (str_append s sep)) ≡ some (String.◌∷◌ c s, "") =
      rw (cons-append c s sep) at h in
    rw (cons-append c s (str_append sep t))
      (elim (Option-cases (drop_prefix sep (String.◌∷◌ c (str_append s sep)))) [
        | inl none_here ↦
            cut_later sep c _ (drop_prefix_within sep s t c none_here)
            ∙ ap (begin_with c) (
                cut-append sep s t
                  (begin_with-inj _ c s "" (sym (cut_later sep c _ none_here) ∙ found)))
        | inr (r, here) ↦ absurd (begins (sym (cut_here sep c _ r here) ∙ found))
      ])
  where
    begins :
        {b : String}
        → ◌≡◌ {A = Option (String × String)} (some ("", b)) (some (String.◌∷◌ c s, ""))
        → ⊥
    begins e =
        nil≢cons (ap (λ (o : Option (String × String)). elim o [ none ↦ "" | some p ↦ p.0 ]) e)

-- Behind `s` the separator stands for the first time.
abbrev pub EndsAt : String → String → Type 0
EndsAt sep s = cut sep (str_append s sep) ≡ some (s, "")

-- A candidate and a second whose key can be read: no colon in the provider, the text of the key
-- begins no earlier with `:samples:`, and the second is written without it.
abbrev pub IsReadable : (ℤ → String) → CandidateRef × ℤ → Type 0
IsReadable show (cand, sec) =
    EndsAt ":" cand.provider
    × EndsAt ":samples:" (str_append cand.provider (str_append ":" cand.model))
    × (cut ":samples:" (show sec) ≡ none)

-- The key that a result of a candidate in a second is counted under.
abbrev pub key_of : (ℤ → String) → CandidateRef × ℤ → String
key_of show (cand, sec) = sample_key show cand.provider cand.model sec

-- The three steps of reading a key.
parse_key_steps :
    (key rest named epoch_sec provider model : String)
    → drop_prefix "gw:brk:" key ≡ some rest
    → split_two ":samples:" rest ≡ some (named, epoch_sec)
    → cut ":" named ≡ some (provider, model)
    → parse_key key ≡ some (record { provider = provider; model = model })
unfolding parse_key
parse_key_steps key rest named epoch_sec provider model h1 h2 h3 = ground arith

split_two_once :
    (sep s a b : String)
    → cut sep s ≡ some (a, b)
    → cut sep b ≡ none
    → split_two sep s ≡ some (a, b)
unfolding split_two
split_two_once sep s a b h1 h2 = ground arith

parse_key-sample_key :
    (show : ℤ → String) (cand : CandidateRef) (sec : ℤ)
    → IsReadable show (cand, sec)
    → parse_key (sample_key show cand.provider cand.model sec) ≡ some cand
unfolding sample_key
parse_key-sample_key show cand sec (one_colon, named, shown) =
    let tail = str_append ":samples:" (show sec) in
    let name = str_append cand.provider (str_append ":" cand.model) in
    let split : split_two ":samples:" (str_append name tail) ≡ some (name, show sec) =
      split_two_once ":samples:" _ name (show sec) (cut-append ":samples:" name (show sec) named)
        shown in
    parse_key_steps _ _ name (show sec) cand.provider cand.model (drop_prefix-append "gw:brk:" _)
      (rw
        (
          append_assoc cand.provider (str_append ":" cand.model) tail,
          append_assoc ":" cand.model tail,
        )
        at split)
      (cut-append ":" cand.provider cand.model one_colon)

scan_candidates-sample_keys :
    (show : ℤ → String) (recorded : List (CandidateRef × ℤ))
    → All (IsReadable show) recorded
    → scan_candidates (map (key_of show) recorded) ≡ map (λ r. r.0) recorded
unfolding scan_candidates
scan_candidates-sample_keys show [] h = refl
scan_candidates-sample_keys show ((cand, sec) ∷ recorded) h =
    ground
      (arith, parse_key-sample_key show cand sec h.0, scan_candidates-sample_keys show recorded h.1)

module _ {W : Type 0} ⦃d : Float W⦄ where
  -- The entry of a candidate after the seeding with `cands`.
  abbrev pub seeded_entry : List CandidateRef → Snapshot W → CandidateRef → Option (SnapshotEntry W)
  seeded_entry cands snapshot c = elim (get snapshot c) [
    | some entry ↦ some entry
    | none ↦ if contains cands c then some fresh_entry else none
  ]

  get-seed_snapshot :
      (cands : List CandidateRef) (snapshot : Snapshot W) (c : CandidateRef)
      → get (seed_snapshot cands snapshot) c ≡ seeded_entry cands snapshot c
  unfolding seed_snapshot
  get-seed_snapshot [] snapshot c = ground arith
  get-seed_snapshot (cand ∷ cands) snapshot c = ground (
    arith,
    get-seed_snapshot cands (setdefault cand fresh_entry snapshot) c,
    get-setdefault cand c fresh_entry snapshot,
  )

  -- For readable keys: when Redis holds the sample keys of some candidates in some seconds, in any
  -- order and number, the scan finds these candidates; those that have no entry yet get the one of
  -- a closed breaker without samples, all other entries stay, and no other candidate gets one.
  pub seed_snapshot_from_keys-sample_key :
      (show : ℤ → String) (recorded : List (CandidateRef × ℤ)) (snapshot : Snapshot W)
      (c : CandidateRef)
      → All (IsReadable show) recorded
      → get (seed_snapshot_from_keys (map (key_of show) recorded) snapshot) c
        ≡ seeded_entry (map (λ r. r.0) recorded) snapshot c
  unfolding seed_snapshot_from_keys
  seed_snapshot_from_keys-sample_key show recorded snapshot c h =
      rw (scan_candidates-sample_keys show recorded h)
        (get-seed_snapshot (map (λ r. r.0) recorded) snapshot c)
