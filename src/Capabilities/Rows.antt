-- ===== src/Capabilities/Rows.antt =====
-- The rows that backend/app/services/capability_service.py reads, and the document that it returns.
use saarathi.Common.{ℕ, Text, codes, Bool, true, false, Option, List}
use saarathi.Python.{Fields}
use saarathi.Registry.Scopes.{ScopedConfig}

pub data CapabilityStatus : Type 0 where
  shown coming_soon disabled : CapabilityStatus

pub record CapabilityRow : Type 0 where
  pub id : ℕ
  pub tenant_id : Text
  pub organization_id : Text
  pub key : Text
  pub name : Text
  pub description : Option Text
  pub icon : Option Text
  pub badge : Option Text
  pub status : CapabilityStatus
  pub display_order : ℕ
  pub metadata : Fields

pub record CapabilityAgent : Type 0 where
  pub capability_id : ℕ
  pub agent_id : ℕ
  pub label_override : Option Text
  pub agent_order : ℕ
  pub is_visible : Bool
  pub agent_metadata : Fields

pub record AgentRow : Type 0 where
  pub row_id : ℕ
  pub agent_key : Text
  pub agent_name : Text
  pub agent_description : Option Text
  pub agent_icon : Option Text
  pub is_enabled : Bool

pub record Tables : Type 0 where
  pub capabilities : List CapabilityRow
  pub members : List CapabilityAgent
  pub agents : List AgentRow
  pub configs : List ScopedConfig

pub record AgentItem : Type 0 where
  pub item_key : Text
  pub label : Text
  pub item_description : Text
  pub item_icon : Text
  pub item_order : ℕ
  pub item_action : Fields

pub record Capability : Type 0 where
  pub capability_key : Text
  pub title : Text
  pub capability_description : Text
  pub capability_icon : Text
  pub capability_badge : Option Text
  pub capability_status : Text
  pub order : ℕ
  pub action : Fields
  pub items : List AgentItem

-- `_STATUS_OUT`
abbrev pub status_out : CapabilityStatus → Text
status_out shown = codes "enabled"
status_out coming_soon = codes "coming_soon"
status_out disabled = codes "disabled"

abbrev pub is_disabled : CapabilityStatus → Bool
is_disabled disabled = true
is_disabled _ = false
