-- ===== src/App/Named.antt =====
-- Every attempt that the router reports carries the caller and the tier of its request.
use librouter.Prelude.{◌≡◌, [], ◌∷◌, All, All-append}
use librouter.Models.{AttemptRecord}
use librouter.Router.{Outcome, Env, Loop, Call, result}
use librouter.Prelude.Float.{Float}
use librouter.Router.Advance.{
  Ends, Noted, skipped, failed, answered, refused, used_up, too_late, crashed,
}
use librouter.Router.Termination.{Run, here, next}
use librouter.Router.Route.{start}

module _ {W : Type 0} (call : Call W) where
  abbrev pub IsNamed : AttemptRecord W → Type 0
  IsNamed a = (a.caller ≡ call.caller) × (a.tier ≡ call.tier)

  -- The attempts of an answer.
  abbrev pub AllNamed : Outcome W → Type 0
  AllNamed (result resp attempts) = All IsNamed attempts
  AllNamed _ = Unit

  Noted-IsNamed :
      (l l' : Loop W) {cand : _} {status : _}
      → Noted call l l' cand status
      → All IsNamed l.attempts
      → All IsNamed l'.attempts
  Noted-IsNamed l l' (skipped why e) h = rw e h
  Noted-IsNamed l l' (failed e a more s_eq a_eq rec) h =
      rw a_eq (All-append IsNamed l.attempts (a ∷ []) h ((rec.caller, rec.tier), tt))

  Run-IsNamed : {l m : Loop W} → Run call l m → All IsNamed l.attempts → All IsNamed m.attempts
  Run-IsNamed here h = h
  Run-IsNamed (next a r) h = Run-IsNamed r (Noted-IsNamed _ _ a.noted h)

  Ends-AllNamed :
      {S : Type 0}
      → ⦃d : Float W⦄ → (env : Env W S) (l : Loop W) (o : Outcome W) → All IsNamed l.attempts
      → Ends env call l o
      → AllNamed o
  Ends-AllNamed env l o h (answered cand r a fresh rec tokens asked e) =
      rw e (All-append IsNamed l.attempts (a ∷ []) h ((rec.caller, rec.tier), tt))
  Ends-AllNamed env l o h (refused cand exc fresh fin asked e) = rw e tt
  Ends-AllNamed env l o h (used_up s why e) = rw e tt
  Ends-AllNamed env l o h (too_late s late made e) = rw e tt
  Ends-AllNamed env l o h (crashed e) = rw e tt

  pub named_from_start :
      {S : Type 0}
      → ⦃d : Float W⦄ → (env : Env W S) {m : Loop W} {o : Outcome W} → Run call start m
      → Ends env call m o
      → AllNamed o
  named_from_start env run ends = Ends-AllNamed env _ _ (Run-IsNamed run tt) ends
