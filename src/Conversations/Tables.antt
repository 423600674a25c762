-- ===== src/Conversations/Tables.antt =====
-- frontend/src/lib/db/schema.ts: the tables that queries.ts reads and writes. A timestamp is a number,
-- and a JSON column is its text.
use agent_workflow_fast_api.Base.{ℕ, String, Bool, List, Option}

pub data VisibilityType : Type 0 where
  public private : VisibilityType

pub data ArtifactKind : Type 0 where
  text code image sheet : ArtifactKind

pub record Chat : Type 0 where
  pub created_at : ℕ
  pub id : String
  pub title : String
  pub user_id : String
  pub visibility : VisibilityType
  pub workspace_id : String

pub record DbMessage : Type 0 where
  pub attachments : String
  pub chat_id : String
  pub created_at : ℕ
  pub id : String
  pub parts : String
  pub role : String

pub record Document : Type 0 where
  pub content : Option String
  pub created_at : ℕ
  pub id : String
  pub kind : ArtifactKind
  pub title : String
  pub user_id : String
  pub workspace_id : String

pub record Suggestion : Type 0 where
  pub created_at : ℕ
  pub description : Option String
  pub document_created_at : ℕ
  pub document_id : String
  pub id : String
  pub is_resolved : Bool
  pub original_text : String
  pub suggested_text : String
  pub user_id : String

pub record Stream : Type 0 where
  pub chat_id : String
  pub created_at : ℕ
  pub id : String

pub record Tables : Type 0 where
  pub chats : List Chat
  pub messages : List DbMessage
  pub documents : List Document
  pub suggestions : List Suggestion
  pub streams : List Stream
