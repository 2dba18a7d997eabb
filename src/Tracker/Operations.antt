-- ===== src/Tracker/Operations.antt =====
-- The classes of operations (src/LayerMount.dll/impl/ProcessTracker.cpp: IsReadOp, IsWriteOp,
-- IsDeleteOp, IsExecuteOp), which the access rules are about.
use layer_mount.Base.{ℕ, ◌+◌, ◌≡◌, refl, Bool, true, false, if◌then◌else◌}

pub data OperationType : Type 0 where
  create open_op read write overwrite delete rename : OperationType
  get_info set_info set_size get_security set_security : OperationType
  read_directory flush cleanup close : OperationType

unfoldable pub is_read_op : OperationType → Bool
is_read_op create = false
is_read_op open_op = true
is_read_op read = true
is_read_op write = false
is_read_op overwrite = false
is_read_op delete = false
is_read_op rename = false
is_read_op get_info = true
is_read_op set_info = false
is_read_op set_size = false
is_read_op get_security = true
is_read_op set_security = false
is_read_op read_directory = true
is_read_op flush = false
is_read_op cleanup = false
is_read_op close = false

unfoldable pub is_write_op : OperationType → Bool
is_write_op create = true
is_write_op open_op = false
is_write_op read = false
is_write_op write = true
is_write_op overwrite = true
is_write_op delete = false
is_write_op rename = true
is_write_op get_info = false
is_write_op set_info = true
is_write_op set_size = true
is_write_op get_security = false
is_write_op set_security = true
is_write_op read_directory = false
is_write_op flush = true
is_write_op cleanup = false
is_write_op close = false

unfoldable pub is_delete_op : OperationType → Bool
is_delete_op create = false
is_delete_op open_op = false
is_delete_op read = false
is_delete_op write = false
is_delete_op overwrite = false
is_delete_op delete = true
is_delete_op rename = false
is_delete_op get_info = false
is_delete_op set_info = false
is_delete_op set_size = false
is_delete_op get_security = false
is_delete_op set_security = false
is_delete_op read_directory = false
is_delete_op flush = false
is_delete_op cleanup = false
is_delete_op close = false

unfoldable pub is_execute_op : OperationType → Bool
is_execute_op op = false

abbrev one_if : Bool → ℕ
one_if true = 1
one_if false = 0

-- The end of a handle's life, which no rule restricts.
abbrev pub ends_handle : OperationType → Bool
ends_handle create = false
ends_handle open_op = false
ends_handle read = false
ends_handle write = false
ends_handle overwrite = false
ends_handle delete = false
ends_handle rename = false
ends_handle get_info = false
ends_handle set_info = false
ends_handle set_size = false
ends_handle get_security = false
ends_handle set_security = false
ends_handle read_directory = false
ends_handle flush = false
ends_handle cleanup = true
ends_handle close = true

abbrev pub class_count : OperationType → ℕ
unfolding is_read_op is_write_op is_delete_op is_execute_op
class_count op =
    one_if (is_read_op op)
    + (one_if (is_write_op op) + (one_if (is_delete_op op) + one_if (is_execute_op op)))

-- Every operation is in exactly one of the classes read, write, delete and execute, except that
-- the cleanup and the close of a handle are in none.
pub class_count_lem : (op : OperationType) → class_count op ≡ (if ends_handle op then 0 else 1)
unfolding class_count
class_count_lem create = refl
class_count_lem open_op = refl
class_count_lem read = refl
class_count_lem write = refl
class_count_lem overwrite = refl
class_count_lem delete = refl
class_count_lem rename = refl
class_count_lem get_info = refl
class_count_lem set_info = refl
class_count_lem set_size = refl
class_count_lem get_security = refl
class_count_lem set_security = refl
class_count_lem read_directory = refl
class_count_lem flush = refl
class_count_lem cleanup = refl
class_count_lem close = refl
