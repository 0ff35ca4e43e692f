-- ===== src/Policy/Action.antt =====
-- policy.rs: `AuthAction`, rusqlite's enum with the payloads that the code reads (`other` stands for
-- a variant that the code does not know), and its classification.
use sqlite_mcp.Prelude.{Bool, true, false, Option}
use sqlite_mcp.Prelude.Text.{Text}

pub data AuthAction : Type 0 where
  insert update delete : AuthAction
  create_index create_table create_trigger create_view : AuthAction
  drop_index drop_table drop_trigger drop_view : AuthAction
  alter_table : Text → AuthAction
  pragma : Text → Option Text → AuthAction
  function : Text → AuthAction
  unknown attach detach transaction savepoint : AuthAction
  create_temp_index create_temp_table create_temp_trigger create_temp_view drop_temp_index :
      AuthAction
  drop_temp_table drop_temp_trigger drop_temp_view create_vtable drop_vtable : AuthAction
  analyze reindex : AuthAction
  select read recursive other : AuthAction

pub data ActionKind : Type 0 where
  insert update delete : ActionKind
  create_index create_table create_trigger create_view : ActionKind
  drop_index drop_table drop_trigger drop_view : ActionKind
  alter_table : Text → ActionKind
  pragma : Text → Option Text → ActionKind
  function : Text → ActionKind
  unknown attach detach transaction savepoint : ActionKind
  create_temp_index create_temp_table create_temp_trigger create_temp_view drop_temp_index :
      ActionKind
  drop_temp_table drop_temp_trigger drop_temp_view create_vtable drop_vtable : ActionKind
  analyze reindex : ActionKind
  select read recursive unmapped : ActionKind

unfoldable pub classify : AuthAction → ActionKind
classify AuthAction.insert = ActionKind.insert
classify AuthAction.update = ActionKind.update
classify AuthAction.delete = ActionKind.delete
classify AuthAction.create_index = ActionKind.create_index
classify AuthAction.create_table = ActionKind.create_table
classify AuthAction.create_trigger = ActionKind.create_trigger
classify AuthAction.create_view = ActionKind.create_view
classify AuthAction.drop_index = ActionKind.drop_index
classify AuthAction.drop_table = ActionKind.drop_table
classify AuthAction.drop_trigger = ActionKind.drop_trigger
classify AuthAction.drop_view = ActionKind.drop_view
classify (AuthAction.alter_table database) = ActionKind.alter_table database
classify AuthAction.unknown = ActionKind.unknown
classify (AuthAction.pragma name value) = ActionKind.pragma name value
classify AuthAction.attach = ActionKind.attach
classify AuthAction.detach = ActionKind.detach
classify AuthAction.transaction = ActionKind.transaction
classify AuthAction.savepoint = ActionKind.savepoint
classify AuthAction.create_temp_index = ActionKind.create_temp_index
classify AuthAction.create_temp_table = ActionKind.create_temp_table
classify AuthAction.create_temp_trigger = ActionKind.create_temp_trigger
classify AuthAction.create_temp_view = ActionKind.create_temp_view
classify AuthAction.drop_temp_index = ActionKind.drop_temp_index
classify AuthAction.drop_temp_table = ActionKind.drop_temp_table
classify AuthAction.drop_temp_trigger = ActionKind.drop_temp_trigger
classify AuthAction.drop_temp_view = ActionKind.drop_temp_view
classify AuthAction.create_vtable = ActionKind.create_vtable
classify AuthAction.drop_vtable = ActionKind.drop_vtable
classify AuthAction.analyze = ActionKind.analyze
classify AuthAction.reindex = ActionKind.reindex
classify AuthAction.select = ActionKind.select
classify AuthAction.read = ActionKind.read
classify (AuthAction.function name) = ActionKind.function name
classify AuthAction.recursive = ActionKind.recursive
classify AuthAction.other = ActionKind.unmapped

abbrev pub is_dml : ActionKind → Bool
is_dml ActionKind.insert = true
is_dml ActionKind.update = true
is_dml ActionKind.delete = true
is_dml _ = false

abbrev pub is_ddl : ActionKind → Bool
is_ddl ActionKind.create_index = true
is_ddl ActionKind.create_table = true
is_ddl ActionKind.create_trigger = true
is_ddl ActionKind.create_view = true
is_ddl ActionKind.drop_index = true
is_ddl ActionKind.drop_table = true
is_ddl ActionKind.drop_trigger = true
is_ddl ActionKind.drop_view = true
is_ddl (ActionKind.alter_table database) = true
is_ddl _ = false

abbrev pub is_object_scoped : ActionKind → Bool
is_object_scoped ActionKind.insert = true
is_object_scoped ActionKind.update = true
is_object_scoped ActionKind.delete = true
is_object_scoped ActionKind.read = true
is_object_scoped ActionKind.create_index = true
is_object_scoped ActionKind.create_table = true
is_object_scoped ActionKind.create_trigger = true
is_object_scoped ActionKind.create_view = true
is_object_scoped ActionKind.drop_index = true
is_object_scoped ActionKind.drop_table = true
is_object_scoped ActionKind.drop_trigger = true
is_object_scoped ActionKind.drop_view = true
is_object_scoped (ActionKind.alter_table database) = true
is_object_scoped _ = false
