-- ===== src/Orchestration/Gives.antt =====
-- What holds of the result and of the state that an action leaves, unless it raises.
use saarathi.Exec.{Exec, Error, Outcome, returned, raises, continue, ◌>>=◌}
use saarathi.Orchestration.{World}

pub data Ensures {V : Type 0} (Post : V → World → Type 0) : Outcome V × World → Type 0 where
  ensured : (v : V) (w : World) → Post v w → Ensures Post (returned v, w)
  raised : (e : Error) (w : World) → Ensures Post (raises e, w)

pub record Gives {V : Type 0} (Pre : World → Type 0) (Post : V → World → Type 0)
    (action : Exec World V) : Type 0 where
  pub after : (w : World) → Pre w → Ensures Post (action w)

-- a rule for each action of a block: what the first leaves, and what the rest makes of it
pub Gives-then :
    {A B : Type 0} {Pre : World → Type 0} {Post : B → World → Type 0} (Mid : A → World → Type 0)
    (first : Exec World A) (rest : A → Exec World B)
    → Gives Pre Mid first
    → ((v : A) → Gives (Mid v) Post (rest v))
    → Gives Pre Post (first >>= rest)
unfolding ◌>>=◌
Gives-then {A} {Post = Post} Mid first rest h k = record {
  after = λ w i. go (first w) (h.after w i);
}
  where
    go : (r : Outcome A × World) → Ensures Mid r → Ensures Post (continue r.0 rest r.1)
    go _ (ensured v w' m) = (k v).after w' m
    go _ (raised e w') = raised e w'

abbrev pub Anything : {V : Type 0} → V → World → Type 0
Anything v w = Unit {0}

pub Ensures-Anything : {V : Type 0} (r : Outcome V × World) → Ensures (Anything {V = V}) r
Ensures-Anything (returned v, w) = ensured v w tt
Ensures-Anything (raises e, w) = raised e w

pub Gives-Anything :
    {V : Type 0} (Pre : World → Type 0) (action : Exec World V)
    → Gives Pre (Anything {V = V}) action
Gives-Anything Pre action = record { after = λ w i. Ensures-Anything (action w) }

-- an action of which nothing is needed
pub Gives-skip :
    {A B : Type 0} {Pre : World → Type 0} {Post : B → World → Type 0} (first : Exec World A)
    (rest : A → Exec World B)
    → ((v : A) → Gives (Anything v) Post (rest v))
    → Gives Pre Post (first >>= rest)
Gives-skip first rest k = Gives-then Anything first rest (Gives-Anything _ first) k
