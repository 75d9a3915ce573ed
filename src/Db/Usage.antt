-- ===== src/Db/Usage.antt =====
-- The tokens of a caller in gateway/db.py, after a batch of attempts is written.
use librouter.Prelude.{
  ◌≡◌, refl, ℕ, ◌+◌, ◌≤◌, String, List, [], ◌∷◌, ◌++◌, map, arith, All, string_eq,
}
use librouter.Models.{AttemptRecord}
use librouter.Db.{
  Database, RequestRow, row_at, sum_since, sum_tokens, today_start, write_batch,
  caller_tokens_used_today,
}

module _ {W : Type 0} where
  sum_since-append :
      (caller : String) (since : ℕ) (l m : List (RequestRow W))
      → sum_since caller since (l ++ m) ≡ sum_since caller since l + sum_since caller since m
  unfolding sum_since
  sum_since-append caller since [] m = omega arith
  sum_since-append caller since (r ∷ l) m = ground (arith, sum_since-append caller since l m)

  sum_since-batch :
      (caller : String) (since ts : ℕ) (records : List (AttemptRecord W))
      → since ≤ ts
      → All (λ a. a.caller ≡ caller) records
      → sum_since caller since (map (row_at ts) records) ≡ sum_tokens records
  unfolding sum_since
  sum_since-batch caller since ts [] h k = refl
  sum_since-batch caller since ts (a ∷ records) h k =
      ground (
        arith,
        sum_since-batch caller since ts records h k.1,
        string_eq.beq_iff a.caller caller,
        k.0,
      )

  -- A batch of a caller's attempts, written on the day that is asked for.
  pub caller_tokens_used_today-write_batch :
      (now ts : ℕ) (caller : String) (records : List (AttemptRecord W)) (db : Database W)
      → today_start now ≤ ts
      → All (λ a. a.caller ≡ caller) records
      → caller_tokens_used_today now caller (write_batch ts records db)
        ≡ caller_tokens_used_today now caller db + sum_tokens records
  unfolding caller_tokens_used_today write_batch
  caller_tokens_used_today-write_batch now ts caller records db h k = ground (
    arith,
    sum_since-append caller (today_start now) db.requests (map (row_at ts) records),
    sum_since-batch caller (today_start now) ts records h k,
  )
