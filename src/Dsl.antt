-- ===== src/Dsl.antt =====
-- api/pkg/dsl/types.go: the pipeline as the YAML of a project declares it. A value of any type
-- (`any`) is a Json. An optional pointer is an Option; the other fields keep Go's zero value.
pub mod Render
use helios_ci_cd.Prelude.{ℕ, Bool, String, Option, List, Dict}
use helios_ci_cd.Prelude.Json.{Json}

pub record Input : Type 0 where
  pub type : String
  pub description : String
  pub options : List String
  pub default : Json
  pub required : Bool

pub record Trigger : Type 0 where
  pub on : String
  pub branches : List String
  pub tags : List String
  pub paths : List String
  pub paths_ignore : List String
  pub cron : String
  pub timezone : String
  pub inputs : Dict Input

pub record Step : Type 0 where
  pub id : String
  pub name : String
  pub if_expr : String
  pub run : String
  pub uses : String
  pub with : Dict Json
  pub env : Dict String
  pub working_dir : String
  pub shell : String
  pub continue_on_error : Bool
  pub timeout_minutes : ℕ

pub record RunsOn : Type 0 where
  pub type : String
  pub image : String
  pub labels : List String
  pub arch : String
  pub service : String
  pub raw : String

pub record Matrix : Type 0 where
  pub dimensions : Dict (List Json)
  pub include : List (Dict Json)
  pub exclude : List (Dict Json)

pub record Service : Type 0 where
  pub image : String
  pub env : Dict String
  pub ports : List String
  pub cmd : List String

pub record Stage : Type 0 where
  pub id : String
  pub name : String
  pub needs : List String
  pub type : String
  pub if_expr : String
  pub runs_on : Option RunsOn
  pub matrix : Option Matrix
  pub steps : List Step
  pub uses : String
  pub with : Dict Json
  pub env : Dict String
  pub secrets : List String
  pub outputs : Dict String
  pub services : Dict Service
  pub approvers : List String
  pub mode : String
  pub timeout : String
  pub on_timeout : String

pub record Pipeline : Type 0 where
  pub version : String
  pub name : String
  pub description : String
  pub triggers : List Trigger
  pub env : Dict String
  pub variables : Dict String
  pub stages : List Stage
  pub extra : Dict Json
