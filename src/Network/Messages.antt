-- ===== src/Network/Messages.antt =====
-- The messages between a requester and a responder, with the fields that libs/networking_node uses. A status
-- that the code may leave unset is an `Option`.
use mapit.Base.{Str, ℕ, List, Option, Bool}
use mapit.Messages.{Content}
use mapit.Operators.{OperationDescription}

pub data WorkspaceStatus : Type 0 where
  error success existed : WorkspaceStatus

pub record RequestWorkspace : Type 0 where
  pub workspace : Str
  pub commit : List Str
  pub createifnotexists : Bool

pub record ReplyWorkspace : Type 0 where
  pub status : WorkspaceStatus
  pub commit : List Str

pub data DataStatus : Type 0 where
  not_found exceeded_boundary success : DataStatus

pub record RequestEntitydata : Type 0 where
  pub workspace : Str
  pub entitypath : Str
  pub offset : ℕ
  pub maxlength : ℕ

pub record ReplyEntitydata : Type 0 where
  pub status : DataStatus
  pub receivedlength : ℕ
  pub entitylength : ℕ

pub record ReplyHierarchyPlain : Type 0 where
  pub workspace_not_found : Bool
  pub entities : List Str

pub record RequestOperatorExecution : Type 0 where
  pub workspace : Str
  pub param : OperationDescription

pub record ReplyOperatorExecution : Type 0 where
  pub status_code : ℕ
  pub error_msg : Str
  pub result : OperationDescription

pub record RequestStoreEntity : Type 0 where
  pub workspace : Str
  pub path : Str
  pub type : Str
  pub offset : ℕ
  pub sendlength : ℕ
  pub entitylength : ℕ

-- `SUCCESS` or `ERROR`, of storing and deleting.
pub data DoneStatus : Type 0 where
  error success : DoneStatus

-- `RequestDeleteEntity`, `RequestDeleteTree` and `RequestGenericEntry`
pub record RequestPath : Type 0 where
  pub workspace : Str
  pub path : Str

pub data EntryStatus : Type 0 where
  not_found success : EntryStatus

pub record ReplyGenericEntry : Type 0 where
  pub status : Option EntryStatus
  pub entry : Content

-- The types of the messages, and the messages.
pub data Kind : Type 0 where
  request_workspace request_entitydata request_hierarchy request_hierarchy_plain : Kind
  request_list_workspaces request_operator_execution request_generic_entry request_store_entity :
      Kind
  request_delete_entity request_delete_tree : Kind
  reply_workspace reply_entitydata reply_hierarchy reply_hierarchy_plain : Kind
  reply_list_workspaces reply_operator_execution reply_generic_entry reply_store_entity : Kind
  reply_store_tree reply_delete_entity reply_delete_tree : Kind

pub data Msg : Type 0 where
  ask_workspace : RequestWorkspace → Msg
  ask_entitydata : RequestEntitydata → Msg
  ask_hierarchy : Msg
  ask_hierarchy_plain : Str → Msg
  ask_list_workspaces : Msg
  ask_operator_execution : RequestOperatorExecution → Msg
  ask_generic_entry : RequestPath → Msg
  ask_store_entity : RequestStoreEntity → Msg
  ask_delete_entity : RequestPath → Msg
  ask_delete_tree : RequestPath → Msg
  say_workspace : ReplyWorkspace → Msg
  say_entitydata : ReplyEntitydata → Msg
  say_hierarchy : Msg
  say_hierarchy_plain : ReplyHierarchyPlain → Msg
  say_list_workspaces : List Str → Msg
  say_operator_execution : ReplyOperatorExecution → Msg
  say_generic_entry : ReplyGenericEntry → Msg
  say_store_entity : DoneStatus → Msg
  say_store_tree : DoneStatus → Msg
  say_delete_entity : DoneStatus → Msg
  say_delete_tree : DoneStatus → Msg

-- `GetDescriptor`
abbrev pub kind_of : Msg → Kind
kind_of (ask_workspace m) = request_workspace
kind_of (ask_entitydata m) = request_entitydata
kind_of ask_hierarchy = request_hierarchy
kind_of (ask_hierarchy_plain m) = request_hierarchy_plain
kind_of ask_list_workspaces = request_list_workspaces
kind_of (ask_operator_execution m) = request_operator_execution
kind_of (ask_generic_entry m) = request_generic_entry
kind_of (ask_store_entity m) = request_store_entity
kind_of (ask_delete_entity m) = request_delete_entity
kind_of (ask_delete_tree m) = request_delete_tree
kind_of (say_workspace m) = reply_workspace
kind_of (say_entitydata m) = reply_entitydata
kind_of say_hierarchy = reply_hierarchy
kind_of (say_hierarchy_plain m) = reply_hierarchy_plain
kind_of (say_list_workspaces m) = reply_list_workspaces
kind_of (say_operator_execution m) = reply_operator_execution
kind_of (say_generic_entry m) = reply_generic_entry
kind_of (say_store_entity m) = reply_store_entity
kind_of (say_store_tree m) = reply_store_tree
kind_of (say_delete_entity m) = reply_delete_entity
kind_of (say_delete_tree m) = reply_delete_tree
