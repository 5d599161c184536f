-- ===== src/Orchestration/Finalize/Ends.antt =====
-- `SessionService.apply` on a session that has just been claimed: ending it succeeds.
use mathlib.Core.List.{Memᴰ}
use saarathi.Common.{Text, true, Option, some, [], ◌≡◌, refl, ◌∙◌, arith, find}
use saarathi.Exec.{Outcome, returned}
use saarathi.Database.{Db, AgentSession, finalizing}
use saarathi.Database.Tables.{update}
use saarathi.Database.Constraints.{Closes, table_ok-closed}
use saarathi.Database.Selects.{find-Sole}
use saarathi.Database.Sessions.{row_ok}
use saarathi.Sessions.{allowed, apply, SessionDelta}
use saarathi.Sessions.Applied.{
  Fate, refused, stale, violated, done, apply-Fate, as_read, applied, Sole-as_read,
}
use saarathi.Sessions.Transitions.{has_state→≡}
use saarathi.Sessions.Consistent.{Consistent}
use saarathi.Orchestration.Finalize.{failed_with, completed_with}

module _ (claimed : AgentSession) (db : Db) (c : Consistent db) (here : Memᴰ claimed db.sessions)
    (state : claimed.state ≡ finalizing) where
  -- the row that the guarded UPDATE finds is the claimed one
  pub found : find (as_read claimed) db.sessions ≡ some claimed
  found =
      find-Sole (as_read claimed) db.sessions claimed (Sole-as_read claimed (failed_with []) db c)
        here (ground arith)

  pub Closes-failed : (text : Text) → Closes (as_read claimed) (applied (failed_with text) db.now)
  unfolding row_ok
  Closes-failed text = record { ok = λ a e h. ground arith; shut = λ a. refl; remote = λ a. refl }

  pub Closes-completed :
      (story_id : Text) (url : Option Text)
      → Closes (as_read claimed) (applied (completed_with story_id url) db.now)
  unfolding row_ok
  Closes-completed story_id url = record {
    ok = λ a e h.
        let q : a.state ≡ finalizing = has_state→≡ claimed.state a (ground arith) ∙ state in
        let h' = rw q at h in ground arith;
    shut = λ a. refl;
    remote = λ a. refl;
  }

  -- a delta that ends the claimed session is applied
  pub apply-claimed :
      (delta : SessionDelta)
      → allowed finalizing delta.state ≡ true
      → Closes (as_read claimed) (applied delta db.now)
      → apply claimed delta db ≡ (
        returned (applied delta db.now claimed),
        record db { sessions = update (as_read claimed) (applied delta db.now) db.sessions },
      )
  apply-claimed delta a k = go (apply claimed delta db) (apply-Fate claimed delta db c)
    where
      go :
          (o : Outcome AgentSession × Db)
          → Fate claimed delta db c o
          → o ≡ (
            returned (applied delta db.now claimed),
            record db { sessions = update (as_read claimed) (applied delta db.now) db.sessions },
          )
      go _ (refused h) = cc
      go _ (stale _ h) = cc (h, found)
      go _ (violated _ h) =
          cc (
            h,
            table_ok-closed (as_read claimed) (applied delta db.now) k db.sessions c.constraints,
          )
      go _ (done row _ h t) = let q : row ≡ claimed = cc (h, found) in rw q
