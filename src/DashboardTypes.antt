-- ===== src/DashboardTypes.antt =====
-- The dashboard's data as the frontend receives it: `LayoutItem`, the widgets, `DashboardResponse`
-- and `DashboardSummary` of frontend/src/api/generated/contract.ts as frontend/src/api/dashboards.ts
-- uses them. A widget's config is its JSON text.
use frontdashboard.Prelude.{ℕ, String, Bool, Option, List}

pub record LayoutItem : Type 0 where
  pub i : String
  pub x : ℕ
  pub y : ℕ
  pub w : ℕ
  pub h : ℕ

pub record DashboardWidget : Type 0 where
  pub id : String
  pub widget_type : String
  pub resource_type : Option String
  pub resource_id : Option String
  pub config : String

pub record Dashboard : Type 0 where
  pub id : String
  pub name : String
  pub user_id : String
  pub version : ℕ
  pub is_favorite : Bool
  pub is_shared : Bool
  pub can_edit : Bool
  pub can_manage_shares : Bool
  pub layout : List LayoutItem
  pub widgets : List DashboardWidget

pub record DashboardSummary : Type 0 where
  pub id : String
  pub name : String
  pub user_id : String
  pub version : ℕ
  pub is_favorite : Bool
  pub is_shared : Bool
  pub can_edit : Bool
  pub can_manage_shares : Bool
  pub updated_at : String

pub record TrashedDashboard : Type 0 where
  pub id : String
  pub name : String
