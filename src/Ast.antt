-- ===== src/Ast.antt =====
-- include/hmr/ast/ast.hpp: the syntax tree of a ruleset.
pub mod Keywords
pub mod Factory
pub mod Names
pub mod Printer
use mathlib.Core.Bool.{Bool}
use mathlib.Core.List.{List}
use olproff_fastsbc_hmr.Text.{Bytes}
use olproff_fastsbc_hmr.Value.{Value}
use olproff_fastsbc_hmr.Diagnostics.{SourceLocation}

pub data HeaderAction : Type 0 where
  none add store manipulate replace find_replace_all delete delete_element : HeaderAction
  delete_header sip_manip log reject : HeaderAction

pub data ElementAction : Type 0 where
  none add store replace delete_element delete_header find_replace_all : ElementAction
  sip_manip log reject : ElementAction

pub data ElementType : Type 0 where
  none header_value header_param_name header_param uri_display uri_user : ElementType
  uri_user_param uri_host uri_port uri_param_name uri_param : ElementType
  uri_header_name uri_header status_code reason_phrase : ElementType
  uri_user_only uri_phone_number_only : ElementType

pub data ComparisonType : Type 0 where
  case_sensitive case_insensitive pattern_rule boolean : ComparisonType
  refer_case_sensitive refer_case_insensitive : ComparisonType

pub data MatchValType : Type 0 where
  any ip fqdn : MatchValType

pub data MsgType : Type 0 where
  any request reply out_of_dialog : MsgType

pub record ElementRule : Type 0 where
  pub name : Bytes
  pub parameter_name : Bytes
  pub type : ElementType
  pub action : ElementAction
  pub match_val_type : MatchValType
  pub comparison : ComparisonType
  pub match_value : Value
  pub new_value : Value
  pub loc : SourceLocation

pub record HeaderRule : Type 0 where
  pub name : Bytes
  pub header_name : Bytes
  pub action : HeaderAction
  pub comparison : ComparisonType
  pub msg_type : MsgType
  pub methods : List Bytes
  pub match_value : Value
  pub new_value : Value
  pub element_rules : List ElementRule
  pub loc : SourceLocation

pub record Ruleset : Type 0 where
  pub name : Bytes
  pub description : Bytes
  pub header_rules : List HeaderRule
  pub split_headers : List Bytes
  pub join_headers : List Bytes
  pub import_file : Bytes
  pub export_file : Bytes
  pub loc : SourceLocation
