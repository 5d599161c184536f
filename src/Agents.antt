-- ===== src/Agents.antt =====
-- Agents: their configuration (backend/app/domain/agent_spec.py) and who may reach them.
mod Spec
pub mod Access
mod Examples
pub use Spec.{
  RoutingSpec, MemorySpec, Strategy, recent, nothing, LimitsSpec, OrgMembership, UserContext,
  AccessSpec, HandshakeSpec, TurnSpec, RemoteSpec, AgentType, llm, remote_flow, AgentSpec,
  RegisteredAgent, remote_of, default_language_of,
}
