-- ===== src/Demo/Rows.antt =====
-- integrations/github-factory-demo/barista_github_factory_demo/store.py: the rows of the tables, and
-- `Claim`. Of the documents in JSON columns a row has the fields that the store reads and the text.
use barista_apps.Prelude.{ℕ, String, Bool, Option, List}

-- A result of a run: its JSON text, and what the store reads of it.
pub record Outcome : Type 0 where
  pub text : String
  pub question_digest : Option String
  pub factory_result_digest : Option String

pub record Answer : Type 0 where
  pub comment_id : ℕ
  pub body : String
  pub prior_result_digest : Option String

pub record Delivery : Type 0 where
  pub delivery_id : String
  pub repository : String
  pub issue_number : ℕ
  pub issue_uri : String
  pub status : String
  pub run_name : String
  pub result : Option Outcome
  pub error : Option String
  pub created_at : ℕ
  pub updated_at : ℕ
  pub attempt : ℕ
  pub answer_comment_id : Option ℕ
  pub answer : Option String
  pub prior_result_digest : Option String
  pub question_digest : Option String
  pub answer_history : List Answer
  pub workflow_kind : String
  pub program_id : Option String
  pub feature_id : Option String

pub record Claim : Type 0 where
  pub delivery_id : String
  pub repository : String
  pub issue_number : ℕ
  pub issue_uri : String
  pub status : String
  pub run_name : String
  pub created : Bool
  pub attempt : ℕ
  pub answer_comment_id : Option ℕ
  pub answer : Option String
  pub prior_result_digest : Option String
  pub answers : List Answer
  pub workflow_kind : String
  pub program_id : Option String
  pub feature_id : Option String

pub record Comment : Type 0 where
  pub delivery_id : String
  pub repository : String
  pub issue_number : ℕ
  pub comment_id : ℕ
  pub disposition : String
  pub created_at : ℕ

pub record Program : Type 0 where
  pub program_id : String
  pub repository : String
  pub issue_number : ℕ
  pub issue_uri : String
  pub status : String
  pub brd_delivery_id : String
  pub brd_pr_number : Option ℕ
  pub brd_pr_uri : Option String
  pub brd_head_commit : Option String
  pub brd_path : Option String
  pub brd_digest : Option String
  pub approved_commit : Option String
  pub approved_by : Option String
  pub approved_at : Option ℕ
  pub plan : Option String
  pub plan_digest : Option String
  pub acceptance : Option String
  pub error : Option String
  pub created_at : ℕ
  pub updated_at : ℕ

pub record Feature : Type 0 where
  pub program_id : String
  pub feature_id : String
  pub ordinal : ℕ
  pub title : String
  pub summary : String
  pub criteria : List String
  pub dependencies : List String
  pub status : String
  pub issue_number : Option ℕ
  pub issue_uri : Option String
  pub delivery_id : Option String
  pub pr_number : Option ℕ
  pub pr_uri : Option String
  pub head_commit : Option String
  pub merged_commit : Option String
  pub error : Option String
  pub updated_at : ℕ

pub record External : Type 0 where
  pub delivery_id : String
  pub event : String
  pub disposition : String
  pub created_at : ℕ

pub record Projection : Type 0 where
  pub issue_uri : String
  pub desired_status : String
  pub projected_status : Option String
  pub item_id : Option String
  pub last_error : Option String
  pub attempts : ℕ
  pub details : Option String
  pub updated_at : ℕ

-- A document without its revision, as its canonical text, and the revision.
pub record Activity : Type 0 where
  pub program_id : String
  pub revision : ℕ
  pub content_digest : String
  pub source : String
  pub published_digest : Option String
  pub last_error : Option String
  pub attempts : ℕ
  pub updated_at : ℕ

pub record Link : Type 0 where
  pub rel : String
  pub label : String
  pub url : String

-- The content of an event, save the time; the attributes stand in the order of their keys.
pub record EventContent : Type 0 where
  pub event_type : String
  pub title : String
  pub summary : Option String
  pub phase : Option String
  pub actor : Option String
  pub links : List Link
  pub attributes : List (String × String)

pub record ProgramEvent : Type 0 where
  pub program_id : String
  pub event_id : String
  pub content : EventContent
  pub occurred_at : ℕ

pub record Deployment : Type 0 where
  pub request_id : String
  pub program_id : String
  pub state : String
  pub result : Option String
  pub error : Option String
  pub attempts : ℕ
  pub created_at : ℕ
  pub updated_at : ℕ

pub record Scenario : Type 0 where
  pub idempotency_key : String
  pub scenario_id : String
  pub issue_number : ℕ
  pub issue_uri : String
  pub created_at : ℕ
  pub reset_at : Option ℕ
