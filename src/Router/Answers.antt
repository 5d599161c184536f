-- ===== src/Router/Answers.antt =====
-- What the answer of the language model comes to.
use saarathi.Common.{
  ℕ, Text, codes, Bool, true, false, ◌&&◌, Option, none, some, List, ◌≡◌, refl, if◌then◌else◌,
}
use saarathi.Python.{Json, null, bool, int, float, str, list, dict, Fields, Runtime, truthy, get}
use saarathi.Exec.{Outcome, returned, raises, runtime_error}
use saarathi.Agents.{RegisteredAgent}
use saarathi.Registry.{Registry, get_by_key_exact}
use saarathi.Router.{llm, RouteDecision, parsed, answered, read, agent_of_key, confidence_of}

module _ (rt : Runtime) (registry : Registry) (invoke : List RegisteredAgent → Outcome Text)
    (loads : Text → Outcome Json) (float_of : Json → Outcome ℕ) (at_least : ℕ → ℕ → Bool)
    (offered : List RegisteredAgent) where
  -- The model, offered these agents, has answered with an object that names `a` with confidence
  -- `conf`, and that is enough.
  pub record Accepted (a : RegisteredAgent) (conf : ℕ) : Type 0 where
    pub raw : Text
    pub answers : invoke offered ≡ returned raw
    pub fields : Fields
    pub parses : loads raw ≡ returned (dict fields)
    pub key : Text
    pub names : get (codes "agent_key") fields ≡ str key
    pub known : get_by_key_exact rt key registry ≡ some a
    pub confidence :
        float_of (confidence_of rt registry invoke loads float_of at_least fields) ≡ returned conf
    pub selectable : a.spec.routing.router_selectable ≡ true
    pub sure : at_least conf a.spec.routing.confidence_threshold ≡ true

  -- the decision that the answer comes to
  pub data Answer : Option RouteDecision → Type 0 where
    no_answer : ((a : RegisteredAgent) (conf : ℕ) → ¬ Accepted a conf) → Answer none
    answer :
        (a : RegisteredAgent) (conf : ℕ)
        → Accepted a conf
        → Answer
            (some (record { agent = some a; reason = llm; confidence = conf; unpinned = false }))

  abbrev decided : Outcome (Option RegisteredAgent) → Outcome ℕ → Option RouteDecision
  decided = answered rt registry invoke loads float_of at_least

  module _ (raw : Text) (h : invoke offered ≡ returned raw) (fields : Fields)
      (p : loads raw ≡ returned (dict fields)) where
    abbrev conf_of : Outcome ℕ
    conf_of = float_of (confidence_of rt registry invoke loads float_of at_least fields)

    same_fields : (a : RegisteredAgent) (conf : ℕ) (k : Accepted a conf) → k.fields ≡ fields
    same_fields a conf k = cc (k.answers, k.parses)

    weighed :
        (key : Text)
        → get (codes "agent_key") fields ≡ str key
        → (o : Option RegisteredAgent) → get_by_key_exact rt key registry ≡ o
        → (c : Outcome ℕ) → conf_of ≡ c
        → Answer (decided (returned o) c)
    weighed key n none e c f = no_answer (λ a conf k. cc (same_fields a conf k, k.names, k.known))
    weighed key n (some b) e (raises x) f =
        no_answer (λ a conf k. cc (same_fields a conf k, k.confidence))
    weighed key n (some b) e (returned c) f =
        go b.spec.routing.router_selectable refl (at_least c b.spec.routing.confidence_threshold)
          refl
      where
        same : (a : RegisteredAgent) (conf : ℕ) (k : Accepted a conf) → a ≡ b
        same a conf k = cc (same_fields a conf k, k.names, k.known)

        same_conf : (a : RegisteredAgent) (conf : ℕ) (k : Accepted a conf) → conf ≡ c
        same_conf a conf k = cc (same_fields a conf k, k.confidence)

        go :
            (x : Bool)
            → b.spec.routing.router_selectable ≡ x
            → (y : Bool) → at_least c b.spec.routing.confidence_threshold ≡ y
            → Answer (
                if x && y
                then some
                    (record { agent = some b; reason = llm; confidence = c; unpinned = false })
                else none)
        go true s true t = answer b c (record {
          raw = raw;
          answers = h;
          fields = fields;
          parses = p;
          key = key;
          names = n;
          known = e;
          confidence = f;
          selectable = s;
          sure = t;
        })
        go true s false t = no_answer (λ a conf k. cc (same a conf k, same_conf a conf k, k.sure))
        go false s y t = no_answer (λ a conf k. cc (same a conf k, k.selectable))

    nobody :
        (j : Json)
        → get (codes "agent_key") fields ≡ j
        → ((key : Text) → ¬ (j ≡ str key))
        → (b : Bool)
        → Answer (
            decided
              (if b then raises (runtime_error (codes "AttributeError")) else returned none)
              conf_of)
    nobody j n not_text true =
        no_answer (λ a conf k. not_text k.key (cc (same_fields a conf k, k.names)))
    nobody j n not_text false =
        no_answer (λ a conf k. not_text k.key (cc (same_fields a conf k, k.names)))

    named :
        (j : Json)
        → get (codes "agent_key") fields ≡ j
        → Answer (decided (agent_of_key rt registry invoke loads float_of at_least j) conf_of)
    unfolding agent_of_key
    named (str key) n = weighed key n (get_by_key_exact rt key registry) refl conf_of refl
    named null n = nobody null n (λ key e. cc) (truthy null)
    named (bool b) n = nobody (bool b) n (λ key e. cc) (truthy (bool b))
    named (int z) n = nobody (int z) n (λ key e. cc) (truthy (int z))
    named (float b) n = nobody (float b) n (λ key e. cc) (truthy (float b))
    named (list l) n = nobody (list l) n (λ key e. cc) (truthy (list l))
    named (dict fs) n = nobody (dict fs) n (λ key e. cc) (truthy (dict fs))

  loaded-Answer :
      (raw : Text) (o : Outcome Json)
      → invoke offered ≡ returned raw
      → loads raw ≡ o
      → Answer (parsed rt registry invoke loads float_of at_least o)
  unfolding parsed
  loaded-Answer raw (returned (dict fields)) h p = named raw h fields p _ refl
  loaded-Answer raw (returned null) h p = no_answer (λ a conf k. cc (k.answers, k.parses))
  loaded-Answer raw (returned (bool b)) h p = no_answer (λ a conf k. cc (k.answers, k.parses))
  loaded-Answer raw (returned (int n)) h p = no_answer (λ a conf k. cc (k.answers, k.parses))
  loaded-Answer raw (returned (float b)) h p = no_answer (λ a conf k. cc (k.answers, k.parses))
  loaded-Answer raw (returned (str t)) h p = no_answer (λ a conf k. cc (k.answers, k.parses))
  loaded-Answer raw (returned (list l)) h p = no_answer (λ a conf k. cc (k.answers, k.parses))
  loaded-Answer raw (raises e) h p = no_answer (λ a conf k. cc (k.answers, k.parses))

  pub parsed-Answer :
      (o : Outcome Text)
      → invoke offered ≡ o
      → Answer (
          parsed rt registry invoke loads float_of at_least
            (read rt registry invoke loads float_of at_least o))
  unfolding parsed
  parsed-Answer (returned raw) h = loaded-Answer raw (loads raw) h refl
  parsed-Answer (raises e) h = no_answer (λ a conf k. cc k.answers)
