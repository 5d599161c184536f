-- ===== src/Registry/Keyed.antt =====
-- backend/app/services/agent_registry.py: the keys of the snapshot, over any course of reloads.
use saarathi.Common.{
  ℕ, ◌-◌, Text, Option, none, some, List, [], ◌∷◌, ltb, text_eq, text_eq_iff, is_empty, Bool-cases,
  ◌≡◌, inl, inr, refl, sym, ◌∙◌,
}
use saarathi.Python.{Runtime}
use saarathi.Exec.{Outcome, returned, raises}
use saarathi.Agents.{AgentSpec, RegisteredAgent}
use saarathi.Registry.{
  Registry, Row, Load, assign, lookup, registered, load_row, latest, load_rows, loaded, reload,
  same_time, check, maybe_reload, normalised_key, get_by_key_exact,
}

-- an agent stands at its own key
pub data Keyed : List (Text × RegisteredAgent) → Type 0 where
  no_agent : Keyed []
  agent_at :
      (key : Text) (a : RegisteredAgent) (items : List (Text × RegisteredAgent))
      → a.key ≡ key
      → Keyed items
      → Keyed ((key, a) ∷ items)

pub data KeyedLoad : Outcome Load → Type 0 where
  none_loaded : (e : saarathi.Exec.Error) → KeyedLoad (raises e)
  all_loaded : (load : Load) → Keyed load.0 → KeyedLoad (returned load)

assign-Keyed :
    (a : RegisteredAgent) (items : List (Text × RegisteredAgent))
    → Keyed items
    → Keyed (assign a.key a items)
unfolding assign
assign-Keyed a _ no_agent = agent_at a.key a [] refl no_agent
assign-Keyed a _ (agent_at key b items e k) = elim (Bool-cases (text_eq key a.key)) [
  | inl h ↦ rw h (agent_at key a items (sym ((text_eq_iff key a.key).0 h)) k)
  | inr h ↦ rw h (agent_at key b _ e (assign-Keyed a items k))
]

load_rows-Keyed : (rows : List Row) (load : Load) → Keyed load.0 → KeyedLoad (load_rows rows load)
unfolding load_rows
load_rows-Keyed [] load k = all_loaded load k
load_rows-Keyed (row ∷ rows) load k =
    go (λ spec. load_rows-Keyed rows _ (assign-Keyed (registered row spec) load.0 k)) row.config
  where
    go :
        ((spec : AgentSpec)
          → KeyedLoad (
              load_rows rows (
                assign row.key (registered row spec) load.0,
                (assign row.name row.key load.1.0, latest load.1.1 row.updated_at),
              )))
        → (config : Option AgentSpec)
        → KeyedLoad (elim (load_row row config load) [
          | returned next ↦ load_rows rows next
          | raises e ↦ raises e
        ])
    go step none = none_loaded _
    go step (some spec) = step spec

loaded-Keyed :
    (now : ℕ) (r : Registry) (l : Outcome Load)
    → KeyedLoad l
    → Keyed r.snapshot
    → Keyed (loaded now r l).snapshot
loaded-Keyed now r _ (none_loaded e) k = k
loaded-Keyed now r _ (all_loaded load h) k = h

reload-Keyed :
    (rows : Outcome (List Row)) (now : ℕ) (r : Registry)
    → Keyed r.snapshot
    → Keyed (reload rows now r).snapshot
unfolding reload
reload-Keyed (raises e) now r k = k
reload-Keyed (returned rows) now r k =
    loaded-Keyed now r (load_rows rows ([], ([], none))) (load_rows-Keyed rows _ no_agent) k

pub maybe_reload-Keyed :
    (ttl : ℕ) (db_max : Outcome (Option ℕ)) (rows : Outcome (List Row)) (now : ℕ) (r : Registry)
    → Keyed r.snapshot
    → Keyed (maybe_reload ttl db_max rows now r).snapshot
unfolding maybe_reload
maybe_reload-Keyed ttl db_max rows now r k = elim (Bool-cases (ltb (now - r.loaded_at) ttl)) [
  | inl h ↦ rw h k
  | inr h ↦ rw h (checked db_max)
]
  where
    checked : (m : Outcome (Option ℕ)) → Keyed (check m rows now r).snapshot
    checked (raises e) = k
    checked (returned m) = elim (Bool-cases (same_time m r.max_updated_at)) [
      | inl h ↦ rw h k
      | inr h ↦ rw h (reload-Keyed rows now r k)
    ]

-- the agent that is found, if one is
pub data Found (key : Text) : Option RegisteredAgent → Type 0 where
  nobody : Found key none
  by_its_key : (a : RegisteredAgent) → a.key ≡ key → Found key (some a)

lookup-Found :
    (key : Text) (items : List (Text × RegisteredAgent))
    → Keyed items
    → Found key (lookup key items)
unfolding lookup
lookup-Found key _ no_agent = nobody
lookup-Found key _ (agent_at k a items e rest) = elim (Bool-cases (text_eq k key)) [
  | inl h ↦ rw h (by_its_key a (e ∙ (text_eq_iff k key).0 h))
  | inr h ↦ rw h (lookup-Found key items rest)
]

-- what one request finds when it polls for changes
pub record Poll : Type 0 where
  pub db_max : Outcome (Option ℕ)
  pub rows : Outcome (List Row)
  pub now : ℕ

unfoldable pub polls : ℕ → List Poll → Registry → Registry
unfolding maybe_reload
polls ttl [] r = r
polls ttl (p ∷ ps) r = polls ttl ps (maybe_reload ttl p.db_max p.rows p.now r)

abbrev pub new_registry : Registry
new_registry = record {
  snapshot = [];
  legacy_names = [];
  version = 0;
  loaded_at = 0;
  max_updated_at = none;
}

polls-Keyed :
    (ttl : ℕ) (ps : List Poll) (r : Registry) → Keyed r.snapshot → Keyed (polls ttl ps r).snapshot
unfolding polls
polls-Keyed ttl [] r k = k
polls-Keyed ttl (p ∷ ps) r k =
    polls-Keyed ttl ps _ (maybe_reload-Keyed ttl p.db_max p.rows p.now r k)

-- After any polls for changes, with reloads that succeed or fail, looking a key up finds an agent
-- only if its own key is the normalised key: no agent is found by a key that is another agent's.
pub get_by_key_exact-Found :
    (rt : Runtime) (ttl : ℕ) (ps : List Poll) (key : Text)
    → Found (normalised_key rt key) (get_by_key_exact rt key (polls ttl ps new_registry))
unfolding get_by_key_exact
get_by_key_exact-Found rt ttl ps key = elim (Bool-cases (is_empty key)) [
  | inl h ↦ rw h nobody
  | inr h ↦ rw h (lookup-Found (normalised_key rt key) _ (polls-Keyed ttl ps new_registry no_agent))
]
