-- ===== src/Handlers/RemoteFlow/Named.antt =====
-- How the remote session of a turn gets its name.
use saarathi.Common.{
  Text, codes, Option, none, some, List, is_empty, if◌then◌else◌, ◌≡◌, refl, ap, sym, inl, inr,
  Bool-cases,
}
use saarathi.Exec.{
  Exec, Error, Outcome, returned, raises, continue, pure, raise, runtime_error, ◌>>=◌,
}
use saarathi.Database.{AgentSession}
use saarathi.Agents.{RemoteSpec}
use saarathi.Mitra.Rest.{HttpRequest}
use saarathi.Mitra.Rest.Endpoints.{upsert_profile, generate_session}
use saarathi.Orchestration.Turn.{TurnContext}
use saarathi.Handlers.RemoteFlow.{Talk, Remote, HandlerDeps, on_rest, resolve_env, remote_session}

-- the request for the profile of the caller
abbrev pub profile_asked :
    HandlerDeps
    → RemoteSpec
    → TurnContext
    → Text
    → List HttpRequest
    → Outcome Text × List HttpRequest
profile_asked deps remote ctx company =
    upsert_profile deps.rt deps.client deps.send ctx.caller.email remote.flow_name company

-- The name of the remote session: the session has it, or the first turn obtains it, for the profile
-- that the service has made of the caller.
pub data RemoteName (deps : HandlerDeps) (remote : RemoteSpec) (ctx : TurnContext)
    (log : List HttpRequest) : Text → Type 0 where
  had :
      (session : AgentSession) (sid : Text)
      → ctx.session ≡ some session
      → session.remote_session_id ≡ some sid
      → RemoteName deps remote ctx log sid
  obtained :
      (session : AgentSession) (company profile_id sid : Text)
      → ctx.session ≡ some session
      → session.remote_session_id ≡ none
      → deps.getenv remote.company_env ≡ some company
      → (profile_asked deps remote ctx company log).0 ≡ returned profile_id
      → (generate_session deps.rt deps.client deps.send
          (profile_asked deps remote ctx company log).1).0
        ≡ returned sid
      → RemoteName deps remote ctx log sid

module _ (deps : HandlerDeps) (remote : RemoteSpec) (is_name : Text → Type 0) where
  pub resolve_env-same :
      (name : Text) (r : Remote) → (resolve_env deps remote name r).1.talks ≡ r.talks
  unfolding resolve_env
  resolve_env-same name r = go (deps.getenv name)
    where
      go :
          (o : Option Text)
          → let m : Exec Remote Text = elim o [
            | none ↦ raise (runtime_error (codes "environment variable"))
            | some value ↦
                if is_empty value
                then raise (runtime_error (codes "environment variable"))
                else pure value
          ] in
            (m r).1.talks ≡ r.talks
      go none = refl
      go (some value) = elim (Bool-cases (is_empty value)) [ inl e ↦ rw e | inr e ↦ rw e ]

  -- what `remote_session` comes to
  pub data Named (before : List Talk) : Outcome AgentSession × Remote → Type 0 where
    unnamed : (e : Error) (r : Remote) → r.talks ≡ before → Named before (raises e, r)
    named :
        (sess : AgentSession) (r : Remote) (sid : Text)
        → r.talks ≡ before
        → sess.remote_session_id ≡ some sid
        → is_name sid
        → Named before (returned sess, r)

  Named-then :
      {A : Type 0} (before : List Talk) (p : Outcome A × Remote)
      (rest : A → Exec Remote AgentSession)
      → p.1.talks ≡ before
      → ((v : A) (r : Remote) → p ≡ (returned v, r) → r.talks ≡ before → Named before (rest v r))
      → Named before (continue p.0 rest p.1)
  Named-then before (raises e, r) rest h k = unnamed e r h
  Named-then before (returned v, r) rest h k = k v r refl h

  pub resolved :
      (name value : Text) (r r1 : Remote)
      → resolve_env deps remote name r ≡ (returned value, r1)
      → (deps.getenv name ≡ some value) × (r1 ≡ r)
  unfolding resolve_env
  resolved name value r r1 = go (deps.getenv name)
    where
      go :
          (o : Option Text)
          → let m : Exec Remote Text = elim o [
            | none ↦ raise (runtime_error (codes "environment variable"))
            | some value ↦
                if is_empty value
                then raise (runtime_error (codes "environment variable"))
                else pure value
          ] in
            m r ≡ (returned value, r1) → (o ≡ some value) × (r1 ≡ r)
      go none e = let raised = ap (λ x. x.0) e in cc
      go (some v) e = elim (Bool-cases (is_empty v)) [
        | inl b ↦ let raised = ap (λ x. x.0) (rw b at e) in cc
        | inr b ↦
            let same = rw b at e in
            let v_same : returned v ≡ returned value = ap (λ x. x.0) same in
            (cc, sym (ap (λ x. x.1) same))
      ]

  pub remote_session-Named :
      (ctx : TurnContext) (session : AgentSession) (bot_route : Text) (r : Remote) (o : Option Text)
      → session.remote_session_id ≡ o
      → ((sid : Text) → session.remote_session_id ≡ some sid → is_name sid)
      → ((company profile_id sid : Text)
          → session.remote_session_id ≡ none
          → deps.getenv remote.company_env ≡ some company
          → let asked =
              upsert_profile deps.rt deps.client deps.send ctx.caller.email remote.flow_name company
                r.requests in
            asked.0 ≡ returned profile_id
            → (generate_session deps.rt deps.client deps.send asked.1).0 ≡ returned sid
            → is_name sid)
      → Named r.talks (remote_session deps remote ctx session bot_route o r)
  unfolding remote_session on_rest ◌>>=◌
  remote_session-Named ctx session bot_route r (some sid) h kept got =
      named _ r sid refl h (kept sid h)
  remote_session-Named ctx session bot_route r none h kept got =
      Named-then r.talks (resolve_env deps remote remote.company_env r) _
        (resolve_env-same remote.company_env r)
        (λ company r1 e1 h1.
          Named-then r.talks
            (on_rest _
              (upsert_profile deps.rt deps.client deps.send ctx.caller.email remote.flow_name
                company)
              r1)
            _ h1
            (λ profile_id r2 e2 h2.
              Named-then r.talks (on_rest _ (generate_session deps.rt deps.client deps.send) r2) _
                h2
                (λ sid r3 e3 h3.
                  let (c, q) = resolved remote.company_env company r r1 e1 in
                  let asked = ap (λ x. x.0) e2 in
                  let left = ap (λ x. x.1.requests) e2 in
                  let given = ap (λ x. x.0) e3 in
                  let same = ap (λ x. x.requests) q in
                  named _ r3 sid h3 refl (
                    got company profile_id sid h c (rw same at asked)
                      (rw same at (rw (← left) at given))))))
