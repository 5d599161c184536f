-- ===== src/Sessions/Claims.antt =====
-- What holds of a session over any sequence of calls: it keeps its owner and follows the lifecycle,
-- a finished one stays as it is, and one caller at most claims its finalisation.
use mathlib.Core.List.{Memᴰ}
use saarathi.Common.{
  ℕ, Bool, true, false, ◌&&◌, none, some, List, [], ◌∷◌, ◌≡◌, refl, inl, inr, arith, Option-cases,
  ==_iff, ◌∙◌, ap, find,
}
use saarathi.Exec.{returned}
use saarathi.Database.{
  SessionState, pending, authenticating, in_progress, awaiting_user, finalizing, completed, failed,
  abandoned, AgentSession, Db,
}
use saarathi.Database.Selects.{
  Sole, Sole-weaken, update_returning-none, update_returning-some, find-updated-Mem, find-Sole,
  find-holds, find-Mem,
}
use saarathi.Database.Sessions.{claim_finalizing, is_claimable, has_id}
use saarathi.Sessions.{allowed}
use saarathi.Sessions.Transitions.{legal, Leads, here, step}
use saarathi.Sessions.Evolution.{Moves, Evolves-refl, Evolves-Mem}
use saarathi.Sessions.Consistent.{Consistent, Sound, distinct→Sole}
use saarathi.Sessions.Commands.{Command, claims, run_all, run_all-Sound}

pub begin : (db : Db) → Consistent db → Sound db.sessions db
begin db c = record { consistent = c; evolves = Evolves-refl db.sessions }

-- the table stays consistent
pub run_all-Consistent : (cs : List Command) (db : Db) → Consistent db → Consistent (run_all cs db)
run_all-Consistent cs db c = (run_all-Sound db.sessions cs db (begin db c)).consistent

-- A session of a consistent database is still there after any sequence of operations, with its key,
-- its conversation and its agent, in a state that the lifecycle leads to from the earlier one; and
-- if it had ended, then no field of it has changed.
pub run_all-Moves :
    (cs : List Command) (db : Db) (a : AgentSession)
    → Consistent db
    → Memᴰ a db.sessions
    → (b : AgentSession) × Moves a b × Memᴰ b (run_all cs db).sessions
run_all-Moves cs db a c m =
    Evolves-Mem db.sessions (run_all cs db).sessions a
      (run_all-Sound db.sessions cs db (begin db c)).evolves m

-- past the claim
abbrev pub is_claimed : SessionState → Bool
is_claimed finalizing = true
is_claimed completed = true
is_claimed failed = true
is_claimed abandoned = true
is_claimed _ = false

legal-is_claimed :
    (s t : SessionState) → is_claimed s ≡ true → legal s t ≡ true → is_claimed t ≡ true
unfolding legal allowed
legal-is_claimed s finalizing h l = refl
legal-is_claimed s completed h l = refl
legal-is_claimed s failed h l = refl
legal-is_claimed s abandoned h l = refl
legal-is_claimed finalizing pending h l = cc
legal-is_claimed completed pending h l = cc
legal-is_claimed failed pending h l = cc
legal-is_claimed abandoned pending h l = cc
legal-is_claimed finalizing authenticating h l = cc
legal-is_claimed completed authenticating h l = cc
legal-is_claimed failed authenticating h l = cc
legal-is_claimed abandoned authenticating h l = cc
legal-is_claimed finalizing in_progress h l = cc
legal-is_claimed completed in_progress h l = cc
legal-is_claimed failed in_progress h l = cc
legal-is_claimed abandoned in_progress h l = cc
legal-is_claimed finalizing awaiting_user h l = cc
legal-is_claimed completed awaiting_user h l = cc
legal-is_claimed failed awaiting_user h l = cc
legal-is_claimed abandoned awaiting_user h l = cc
legal-is_claimed pending _ h l = cc
legal-is_claimed authenticating _ h l = cc
legal-is_claimed in_progress _ h l = cc
legal-is_claimed awaiting_user _ h l = cc

pub Leads-is_claimed : (s t : SessionState) → is_claimed s ≡ true → Leads s t → is_claimed t ≡ true
Leads-is_claimed s t h (here _) = h
Leads-is_claimed s t h (step _ u _ l k) = Leads-is_claimed u t (legal-is_claimed s u h l) k

claimed→not_claimable : (s : SessionState) → is_claimed s ≡ true → is_claimable s ≡ false
claimed→not_claimable pending h = refl
claimed→not_claimable authenticating h = refl
claimed→not_claimable in_progress h = cc
claimed→not_claimable awaiting_user h = cc
claimed→not_claimable finalizing h = refl
claimed→not_claimable completed h = refl
claimed→not_claimable failed h = refl
claimed→not_claimable abandoned h = refl

abbrev pub claims_id : ℕ → AgentSession → Bool
claims_id i row = has_id i row && is_claimable row.state

pub claims_id-Sole : (i : ℕ) (db : Db) → Consistent db → Sole (claims_id i) db.sessions
claims_id-Sole i db c =
    Sole-weaken (has_id i) (claims_id i) (λ a e. ground arith) db.sessions
      (distinct→Sole i db.sessions c.distinct)

-- a claim with nothing to claim
pub no_claim :
    (i : ℕ) (db : Db)
    → Consistent db
    → find (claims_id i) db.sessions ≡ none
    → (claim_finalizing i db).0 ≡ returned none
unfolding claim_finalizing
no_claim i db c e =
    ap (λ r. r.0) (update_returning-none _ _ db (claims_id-Sole i db c) c.constraints e)

-- the row that a claim returns
pub claimed_row :
    (i : ℕ) (db : Db) (r : AgentSession)
    → Consistent db
    → (claim_finalizing i db).0 ≡ returned (some r)
    → Memᴰ r (claim_finalizing i db).1.sessions × (r.state ≡ finalizing) × (r.id ≡ i)
unfolding claim_finalizing
claimed_row i db r c e =
    let (a, k, h, u) = update_returning-some _ _ db r (claims_id-Sole i db c) e in
    (
      rw (h, u) (find-updated-Mem _ _ db.sessions a k),
      ap (λ x. x.state) h,
      ap (λ x. x.id) h
          ∙ (==_iff a.id i).0 (ground (arith, find-holds (claims_id i) db.sessions a k)),
    )

pub not_found :
    (i : ℕ) (db : Db) (b : AgentSession)
    → Consistent db
    → Memᴰ b db.sessions
    → b.id ≡ i
    → is_claimed b.state ≡ true
    → find (claims_id i) db.sessions ≡ none
not_found i db b c m e h = elim (Option-cases (find (claims_id i) db.sessions)) [
  | inl n ↦ n
  | inr (a, k) ↦
      let found_i =
        find-Sole (has_id i) db.sessions a (distinct→Sole i db.sessions c.distinct)
          (find-Mem (claims_id i) db.sessions a k)
          (ground (arith, find-holds (claims_id i) db.sessions a k)) in
      let found_b =
        find-Sole (has_id i) db.sessions b (distinct→Sole i db.sessions c.distinct) m
          ((==_iff b.id i).1 e) in
      let claimable : is_claimable a.state ≡ true =
        ground (arith, find-holds (claims_id i) db.sessions a k) in
      cc (found_i, found_b, claimable, claimed→not_claimable b.state h)
]

-- Once a caller has claimed the finalisation of a session, no later claim of it succeeds: after any
-- sequence of operations, another claim returns None.
pub claim_finalizing-once :
    (i : ℕ) (db : Db) (r : AgentSession) (cs : List Command)
    → Consistent db
    → (claim_finalizing i db).0 ≡ returned (some r)
    → (claim_finalizing i (run_all cs (claim_finalizing i db).1)).0 ≡ returned none
unfolding claim_finalizing run_all
claim_finalizing-once i db r cs c e =
    let (m, f, k) = claimed_row i db r c e in
    let c1 = run_all-Consistent (claims i ∷ []) db c in
    let (b, mv, mb) = run_all-Moves cs (claim_finalizing i db).1 r c1 m in
    let c2 = run_all-Consistent cs (claim_finalizing i db).1 c1 in
    no_claim i _ c2 (
      not_found i _ b c2 mb (mv.same_id ∙ k)
        (Leads-is_claimed r.state b.state (rw f refl) mv.route))
