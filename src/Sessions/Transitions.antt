-- ===== src/Sessions/Transitions.antt =====
-- The lifecycle of a session as a relation on its states.
use saarathi.Common.{
  ℕ, Bool, true, false, not, ◌≡◌, refl, ◌==◌, if◌then◌else◌, ==_iff, ◌∙◌, sym, ap,
}
use saarathi.Database.{
  SessionState, pending, authenticating, in_progress, awaiting_user, finalizing, completed, failed,
  abandoned, AgentSession, is_terminal, state_index,
}
use saarathi.Database.Sessions.{is_claimable, has_state}
use saarathi.Sessions.{allowed}

-- A transition of the lifecycle: one of the table, or the escape to `abandoned`.
unfoldable pub legal : SessionState → SessionState → Bool
unfolding allowed
legal s abandoned = not (is_terminal s)
legal s t = allowed s t

pub data Leads : SessionState → SessionState → Type 0 where
  here : (s : SessionState) → Leads s s
  step : (s t u : SessionState) → legal s t ≡ true → Leads t u → Leads s u

pub Leads-trans : (s t u : SessionState) → Leads s t → Leads t u → Leads s u
Leads-trans s t u (here _) k = k
Leads-trans s t u (step _ v _ e l) k = step s v u e (Leads-trans v t u l k)

state_at : ℕ → SessionState
state_at n =
    if n == 0
    then pending
    else if n == 1
    then authenticating
    else if n == 2
    then in_progress
    else if n == 3
    then awaiting_user
    else if n == 4
    then finalizing
    else if n == 5
    then completed
    else if n == 6
    then failed
    else abandoned

state_at-state_index : (s : SessionState) → state_at (state_index s) ≡ s
unfolding state_at
state_at-state_index pending = refl
state_at-state_index authenticating = refl
state_at-state_index in_progress = refl
state_at-state_index awaiting_user = refl
state_at-state_index finalizing = refl
state_at-state_index completed = refl
state_at-state_index failed = refl
state_at-state_index abandoned = refl

pub has_state→≡ : (s : SessionState) (row : AgentSession) → has_state s row ≡ true → row.state ≡ s
has_state→≡ s row h =
    sym (state_at-state_index row.state)
    ∙ (ap state_at ((==_iff (state_index row.state) (state_index s)).0 h) ∙ state_at-state_index s)

pub allowed→legal : (s t : SessionState) → allowed s t ≡ true → legal s t ≡ true
unfolding allowed legal
allowed→legal s pending h = h
allowed→legal s authenticating h = h
allowed→legal s in_progress h = h
allowed→legal s awaiting_user h = h
allowed→legal s finalizing h = h
allowed→legal s completed h = h
allowed→legal s failed h = h
allowed→legal pending abandoned h = refl
allowed→legal authenticating abandoned h = refl
allowed→legal in_progress abandoned h = refl
allowed→legal awaiting_user abandoned h = refl
allowed→legal finalizing abandoned h = refl
allowed→legal completed abandoned h = h
allowed→legal failed abandoned h = h
allowed→legal abandoned abandoned h = h

pub allowed→open : (s t : SessionState) → allowed s t ≡ true → is_terminal s ≡ false
unfolding allowed
allowed→open pending t h = refl
allowed→open authenticating t h = refl
allowed→open in_progress t h = refl
allowed→open awaiting_user t h = refl
allowed→open finalizing t h = refl
allowed→open completed t h = cc
allowed→open failed t h = cc
allowed→open abandoned t h = cc

pub claimable→allowed : (s : SessionState) → is_claimable s ≡ true → allowed s finalizing ≡ true
unfolding allowed
claimable→allowed in_progress h = refl
claimable→allowed awaiting_user h = refl
claimable→allowed pending h = cc
claimable→allowed authenticating h = cc
claimable→allowed finalizing h = cc
claimable→allowed completed h = cc
claimable→allowed failed h = cc
claimable→allowed abandoned h = cc
