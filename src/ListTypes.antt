-- ===== src/ListTypes.antt =====
-- The lists as the frontend receives them: `ListItemResponse`, `ListResponse` and
-- `ListDetailResponse` of frontend/src/api/generated/contract.ts, with the fields that the modelled
-- code reads or patches.
use frontdashboard.Prelude.{ℕ, String, Bool, Option, List}

pub record ListItem : Type 0 where
  pub id : String
  pub text : String
  pub checked : Bool
  pub due_date : Option String
  pub priority : Option String
  pub category : Option String
  pub assigned_to : Option String

pub record ListSummary : Type 0 where
  pub id : String
  pub name : String
  pub dashboard_id : String
  pub item_count : ℕ
  pub updated_at : String

pub record ListDetail : Type 0 where
  pub id : String
  pub name : String
  pub dashboard_id : String
  pub item_count : ℕ
  pub updated_at : String
  pub items : List ListItem
