-- ===== src/Sessions/Evolution.antt =====
-- What any operation of the session service may do to the table of sessions.
use mathlib.Core.List.{Memᴰ}
use saarathi.Common.{
  ℕ, Text, Bool, true, false, List, [], ◌∷◌, ◌≡◌, refl, arith, if◌then◌else◌, ◌∙◌,
}
use saarathi.Database.{pending, abandoned, AgentSession, is_terminal}
use saarathi.Database.Tables.{update}
use saarathi.Database.Sessions.{is_open, as_abandoned}
use saarathi.Sessions.Transitions.{
  legal, Leads, here, step, Leads-trans, allowed→legal, allowed→open,
}
use saarathi.Sessions.{allowed}

-- One row over time: it stays the same session, its state follows the lifecycle, and a row in a
-- terminal state does not change at all.
pub record Moves (a b : AgentSession) : Type 0 where
  pub same_id : b.id ≡ a.id
  pub same_conversation : b.conversation_id ≡ a.conversation_id
  pub same_agent : b.agent_id ≡ a.agent_id
  pub route : Leads a.state b.state
  pub frozen : is_terminal a.state ≡ true → b ≡ a

pub Moves-refl : (a : AgentSession) → Moves a a
Moves-refl a = record {
  same_id = refl;
  same_conversation = refl;
  same_agent = refl;
  route = here a.state;
  frozen = λ _. refl;
}

pub Moves-trans : (a b c : AgentSession) → Moves a b → Moves b c → Moves a c
Moves-trans a b c m n = record {
  same_id = n.same_id ∙ m.same_id;
  same_conversation = n.same_conversation ∙ m.same_conversation;
  same_agent = n.same_agent ∙ m.same_agent;
  route = Leads-trans _ _ _ m.route n.route;
  frozen = λ t. n.frozen (rw (m.frozen t) t) ∙ m.frozen t;
}

-- A table over time: rows move, and new ones start in `pending`.
pub data Evolves : List AgentSession → List AgentSession → Type 0 where
  empty : Evolves [] []
  moved :
      (a b : AgentSession) (xs ys : List AgentSession)
      → Moves a b
      → Evolves xs ys
      → Evolves (a ∷ xs) (b ∷ ys)
  created :
      (b : AgentSession) (xs ys : List AgentSession)
      → Leads pending b.state
      → Evolves xs ys
      → Evolves xs (b ∷ ys)

pub Evolves-refl : (rows : List AgentSession) → Evolves rows rows
Evolves-refl [] = empty
Evolves-refl (a ∷ rows) = moved a a rows rows (Moves-refl a) (Evolves-refl rows)

pub Evolves-trans : (xs ys zs : List AgentSession) → Evolves xs ys → Evolves ys zs → Evolves xs zs
Evolves-trans xs ys zs e empty = e
Evolves-trans xs ys zs (moved a _ xs' _ m e) (moved b c ys' zs' n k) =
    moved a c xs' zs' (Moves-trans a b c m n) (Evolves-trans xs' ys' zs' e k)
Evolves-trans xs ys zs (created _ _ _ l e) (moved b c ys' zs' n k) =
    created c xs zs' (Leads-trans pending b.state c.state l n.route) (Evolves-trans xs ys' zs' e k)
Evolves-trans xs ys zs e (created c _ zs' l k) = created c xs zs' l (Evolves-trans xs ys zs' e k)

-- A row of the table is still there later, moved.
pub Evolves-Mem :
    (xs ys : List AgentSession) (a : AgentSession)
    → Evolves xs ys
    → Memᴰ a xs
    → (b : AgentSession) × Moves a b × Memᴰ b ys
Evolves-Mem xs ys a empty m = elim m [ ]
Evolves-Mem xs ys a (moved a' b xs' ys' n e) (Memᴰ.head h) = (b, rw h n, Memᴰ.head refl)
Evolves-Mem xs ys a (moved a' b xs' ys' n e) (Memᴰ.tail m) =
    let (c, n', k) = Evolves-Mem xs' ys' a e m in (c, n', Memᴰ.tail k)
Evolves-Mem xs ys a (created b xs' ys' l e) m =
    let (c, n', k) = Evolves-Mem xs ys' a e m in (c, n', Memᴰ.tail k)

pub update-Evolves :
    (p : AgentSession → Bool) (f : AgentSession → AgentSession)
    → ((a : AgentSession) → p a ≡ true → Moves a (f a))
    → (rows : List AgentSession) → Evolves rows (update p f rows)
unfolding update
update-Evolves p f h [] = empty
update-Evolves p f h (a ∷ rows) = moved a _ rows _ (go (p a) refl) (update-Evolves p f h rows)
  where
    go : (b : Bool) → p a ≡ b → Moves a (if b then f a else a)
    go true e = h a e
    go false e = Moves-refl a

-- A row whose state changes by one transition of the table.
pub allowed-Moves :
    (a b : AgentSession)
    → b.id ≡ a.id
    → b.conversation_id ≡ a.conversation_id
    → b.agent_id ≡ a.agent_id
    → allowed a.state b.state ≡ true
    → Moves a b
allowed-Moves a b i c g h = record {
  same_id = i;
  same_conversation = c;
  same_agent = g;
  route = step a.state b.state b.state (allowed→legal _ _ h) (here b.state);
  frozen = λ t. cc (allowed→open a.state b.state h);
}

pub abandoned-Moves :
    (reason : Text) (now : ℕ) (a : AgentSession)
    → is_open a ≡ true
    → Moves a (as_abandoned reason now a)
unfolding legal
abandoned-Moves reason now a h = record {
  same_id = refl;
  same_conversation = refl;
  same_agent = refl;
  route = step a.state abandoned abandoned h (here abandoned);
  frozen = λ t. ground arith;
}
