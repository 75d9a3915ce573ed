-- ===== src/Scripts/Migrated.antt =====
-- What scripts/apply_migrations.py leaves, whatever the directory and the database.
use mathlib.Core.List.{Perm}
use mathlib.Core.List.Perm
use librouter.Prelude.{
  ◌≡◌, refl, ◌⊎◌, inl, inr, ◌≢◌, String, Bool, true, false, Option, none, some, [], ◌∷◌, arith, All,
  All-map, Bool-cases, Option-cases,
}
use librouter.Db.Pool.{Files, connect, close, insert_file, sort_files, apply_files, run_migrations}
use librouter.Scripts.{ScriptRun}
use librouter.Scripts.ApplyMigrations.{apply_migrations}

module _ (le : String → String → Bool) where
  abbrev pub IsSorted : Files → Type 0
  IsSorted [] = Unit
  IsSorted (f ∷ files) = All (λ g. le f.0 g.0 ≡ true) files × IsSorted files

  insert_file-Perm :
      (f : String × Option String) (files : Files) → Perm (insert_file le f files) (f ∷ files)
  unfolding insert_file
  insert_file-Perm f [] = Perm.refl (f ∷ [])
  insert_file-Perm f (g ∷ files) = elim (Bool-cases (le f.0 g.0)) [
    | inl first ↦ rw first (Perm.refl (f ∷ (g ∷ files)))
    | inr later ↦
        rw later (Perm.trans (Perm.cons g (insert_file-Perm f files)) (Perm.swap f g files))
  ]

  pub sort_files-Perm : (files : Files) → Perm (sort_files le files) files
  unfolding sort_files
  sort_files-Perm [] = Perm.refl []
  sort_files-Perm (f ∷ files) =
      Perm.trans (insert_file-Perm f (sort_files le files)) (Perm.cons f (sort_files-Perm files))

  module _ (total : (a b : String) → le a b ≡ false → le b a ≡ true)
      (trans : (a b c : String) → le a b ≡ true → le b c ≡ true → le a c ≡ true) where
    insert_file-All :
        (P : String × Option String → Type 0) (f : String × Option String) (files : Files)
        → P f
        → All P files
        → All P (insert_file le f files)
    unfolding insert_file
    insert_file-All P f [] h a = (h, tt)
    insert_file-All P f (g ∷ files) h a = elim (Bool-cases (le f.0 g.0)) [
      | inl first ↦ rw first (h, a)
      | inr later ↦ rw later (a.0, insert_file-All P f files h a.1)
    ]

    insert_file-IsSorted :
        (f : String × Option String) (files : Files)
        → IsSorted files
        → IsSorted (insert_file le f files)
    unfolding insert_file
    insert_file-IsSorted f [] h = (tt, tt)
    insert_file-IsSorted f (g ∷ files) h = elim (Bool-cases (le f.0 g.0)) [
      | inl first ↦
          rw first ((first, All-map _ _ files (λ k gk. trans f.0 g.0 k.0 first gk) h.0), h)
      | inr later ↦ rw later (
        insert_file-All (λ k. le g.0 k.0 ≡ true) f files (total f.0 g.0 later) h.0,
        insert_file-IsSorted f files h.1,
      )
    ]

    pub sort_files-IsSorted : (files : Files) → IsSorted (sort_files le files)
    unfolding sort_files
    sort_files-IsSorted [] = tt
    sort_files-IsSorted (f ∷ files) =
        insert_file-IsSorted f (sort_files le files) (sort_files-IsSorted files)

module _ {D : Type 0} (execute : String → D → Option D) where
  -- The files, one after the other, make `e` of `d`.
  abbrev pub Applied : Files → D → D → Type 0
  Applied [] d e = e ≡ d
  Applied ((name, none) ∷ files) d e = ⊥
  Applied ((name, some sql) ∷ files) d e = (d' : D) × (execute sql d ≡ some d') × Applied files d' e

  apply_files-Applied :
      (files : Files) (d e : D) → apply_files execute files d ≡ some e → Applied files d e
  unfolding apply_files
  apply_files-Applied [] d e h = ground arith
  apply_files-Applied ((name, none) ∷ files) d e h = cc
  apply_files-Applied ((name, some sql) ∷ files) d e h = elim (Option-cases (execute sql d)) [
    | inl fails ↦ absurd (ground arith)
    | inr (d', runs) ↦ (d', runs, apply_files-Applied files d' e (ground arith))
  ]

  apply_files-none :
      (files : Files) (d e : D) → apply_files execute files d ≡ none → ¬ Applied files d e
  unfolding apply_files
  apply_files-none [] d e h a = cc
  apply_files-none ((name, none) ∷ files) d e h a = a
  apply_files-none ((name, some sql) ∷ files) d e h (d', runs, rest) =
      apply_files-none files d' e (ground arith) rest

  module _ (le : String → String → Bool) where
    -- Everything went well: the files of the directory, each of them once, in an order of their
    -- names.
    pub record Succeeds (files : Files) (d e : D) : Type 0 where
      pub some_files : files ≢ []
      pub ordered : Files
      pub same_files : Perm ordered files
      pub sorted : IsSorted le ordered
      pub applied : Applied ordered d e

    -- What keeps the script from its end.
    pub data Refused (created : Bool) (d : D) : Option Files → Type 0 where
      no_pool : {directory : Option Files} → created ≡ false → Refused created d directory
      no_directory : Refused created d none
      no_files : Refused created d (some [])
      a_file_fails :
          {files : Files}
          → (ordered : Files) → Perm ordered files
          → IsSorted le ordered
          → ((e : D) → ¬ Applied ordered d e)
          → Refused created d (some files)

    -- The run of the script, in either case.
    abbrev pub Migration : Bool → Option Files → D → ScriptRun D → Type 0
    Migration created directory d run =
        (run.handle.pool ≡ false)
        × (((run.exit_code ≡ 0)
              × (created ≡ true)
              × ((files : Files) × (directory ≡ some files) × Succeeds files d run.database))
            ⊎ ((run.exit_code ≡ 1) × (run.database ≡ d) × Refused created d directory))

    module _ (total : (a b : String) → le a b ≡ false → le b a ≡ true)
        (trans : (a b c : String) → le a b ≡ true → le b c ≡ true → le a c ≡ true) where
      -- For a total and transitive order of names: the script closes its pool on every path. It
      -- exits with 0 exactly if it got a pool and a directory with files, all of which ran, in the
      -- order of their names, each of them once; else it exits with 1 and the database is as it
      -- was.
      pub apply_migrations-Migration :
          (created : Bool) (directory : Option Files) (d : D)
          → Migration created directory d (apply_migrations le execute created directory d)
      unfolding apply_migrations connect close run_migrations
      apply_migrations-Migration false directory d = (refl, inr (refl, refl, no_pool refl))
      apply_migrations-Migration true none d = (refl, inr (refl, refl, no_directory))
      apply_migrations-Migration true (some []) d = (refl, inr (refl, refl, no_files))
      apply_migrations-Migration true (some (f ∷ files)) d =
          let ordered = sort_files le (f ∷ files) in
          elim (Option-cases (apply_files execute ordered d)) [
            | inl fails ↦
                rw (fails, apply_migrations)
                  (
                    refl,
                    inr (
                      refl,
                      refl,
                      a_file_fails ordered (sort_files-Perm le (f ∷ files))
                          (sort_files-IsSorted le total trans (f ∷ files))
                          (λ e. apply_files-none ordered d e fails),
                    ),
                  )
            | inr (e, runs) ↦
                rw (runs, apply_migrations)
                  (
                    refl,
                    inl (
                      refl,
                      refl,
                      (
                        f ∷ files,
                        refl,
                        record {
                          some_files = λ h. cc;
                          ordered = ordered;
                          same_files = sort_files-Perm le (f ∷ files);
                          sorted = sort_files-IsSorted le total trans (f ∷ files);
                          applied = apply_files-Applied ordered d e runs;
                        },
                      ),
                    ),
                  )
          ]
