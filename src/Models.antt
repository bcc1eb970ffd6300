-- ===== src/Models.antt =====
-- The domain models of sdk/wapsell/models.py. A `datetime` is the number of microseconds since the
-- epoch; the identifiers and the clock's readings that the defaults draw are arguments.
use wapsell_saas.Prelude.{ℕ, Bool, Option, List, Text, ℤ}

pub data TenantStatus : Type 0 where
  provisioning active suspended : TenantStatus

pub record SoulConfig : Type 0 where
  pub language : Text
  pub tone : Text
  pub mission : Text
  pub rules : List Text
  pub include_skills : Bool

pub record HandoffConfig : Type 0 where
  pub enabled : Bool
  pub keywords : List Text
  pub webhook_url : Option Text
  pub handoff_message : Text
  pub auto_pause_hours : ℤ

pub record Tenant : Type 0 where
  pub id : Text
  pub name : Text
  pub slug : Text
  pub status : TenantStatus
  pub whatsapp_phone_number_id : Option Text
  pub model : Text
  pub soul_config : Option SoulConfig
  pub handoff_config : Option HandoffConfig
  pub created_at : ℕ

pub record InboundMessage : Type 0 where
  pub tenant_id : Text
  pub from_number : Text
  pub text : Text
  pub message_id : Text
  pub profile_name : Option Text
  pub received_at : ℕ

pub data UserRole : Type 0 where
  admin tenant : UserRole

pub record User : Type 0 where
  pub id : Text
  pub email : Text
  pub password_hash : Text
  pub role : UserRole
  pub tenant_id : Option Text
  pub created_at : ℕ

pub record Session : Type 0 where
  pub token : Text
  pub user_id : Text
  pub expires_at : ℕ
  pub created_at : ℕ

pub data TemplateStatus : Type 0 where
  draft submitted approved rejected : TemplateStatus

pub data TemplateCategory : Type 0 where
  utility marketing authentication : TemplateCategory

pub record MessageTemplate : Type 0 where
  pub id : Text
  pub tenant_id : Text
  pub name : Text
  pub language : Text
  pub category : TemplateCategory
  pub body : Text
  pub status : TemplateStatus
  pub vendor_template_id : Option Text
  pub rejection_reason : Option Text
  pub created_at : ℕ
  pub submitted_at : Option ℕ
  pub approved_at : Option ℕ
