-- ===== src/Constants.antt =====
-- protocol/constants.rs: the wire constants.
use ruslock.Prelude.{ℕ}

abbrev pub magic : ℕ
magic = 0x56

abbrev pub version : ℕ
version = 0x01

abbrev pub command_type_init : ℕ
command_type_init = 0x00

abbrev pub command_type_lock : ℕ
command_type_lock = 0x01

abbrev pub command_type_unlock : ℕ
command_type_unlock = 0x02

abbrev pub command_type_ping : ℕ
command_type_ping = 0x05

abbrev pub command_result_succed : ℕ
command_result_succed = 0x00

abbrev pub command_result_unknown_magic : ℕ
command_result_unknown_magic = 0x01

abbrev pub command_result_unknown_version : ℕ
command_result_unknown_version = 0x02

abbrev pub command_result_unknown_db : ℕ
command_result_unknown_db = 0x03

abbrev pub command_result_unknown_command : ℕ
command_result_unknown_command = 0x04

abbrev pub command_result_locked_error : ℕ
command_result_locked_error = 0x05

abbrev pub command_result_unlock_error : ℕ
command_result_unlock_error = 0x06

abbrev pub command_result_unown_error : ℕ
command_result_unown_error = 0x07

abbrev pub command_result_timeout : ℕ
command_result_timeout = 0x08

abbrev pub command_result_expried : ℕ
command_result_expried = 0x09

abbrev pub command_result_state_error : ℕ
command_result_state_error = 0x0a

abbrev pub command_result_error : ℕ
command_result_error = 0x0b

abbrev pub command_result_lock_ack_waiting : ℕ
command_result_lock_ack_waiting = 0x0c

abbrev pub init_type_flag_ha_client : ℕ
init_type_flag_ha_client = 0x01

abbrev pub init_type_flag_is_transparency : ℕ
init_type_flag_is_transparency = 0x02

abbrev pub init_type_flag_is_leader : ℕ
init_type_flag_is_leader = 0x04

abbrev pub init_type_flag_has_leader : ℕ
init_type_flag_has_leader = 0x08

abbrev pub init_type_flag_is_shutdown : ℕ
init_type_flag_is_shutdown = 0x10

abbrev pub lock_flag_show_when_locked : ℕ
lock_flag_show_when_locked = 0x01

abbrev pub lock_flag_update_when_locked : ℕ
lock_flag_update_when_locked = 0x02

abbrev pub lock_flag_from_aof : ℕ
lock_flag_from_aof = 0x04

abbrev pub lock_flag_concurrent_check : ℕ
lock_flag_concurrent_check = 0x08

abbrev pub lock_flag_lock_tree_lock : ℕ
lock_flag_lock_tree_lock = 0x10

abbrev pub lock_flag_contains_data : ℕ
lock_flag_contains_data = 0x20

abbrev pub unlock_flag_unlock_first_lock_when_unlocked : ℕ
unlock_flag_unlock_first_lock_when_unlocked = 0x01

abbrev pub unlock_flag_cancel_wait_lock_when_unlocked : ℕ
unlock_flag_cancel_wait_lock_when_unlocked = 0x02

abbrev pub unlock_flag_from_aof : ℕ
unlock_flag_from_aof = 0x04

abbrev pub unlock_flag_succed_to_lock_wait : ℕ
unlock_flag_succed_to_lock_wait = 0x08

abbrev pub unlock_flag_unlock_tree_lock : ℕ
unlock_flag_unlock_tree_lock = 0x10

abbrev pub unlock_flag_contains_data : ℕ
unlock_flag_contains_data = 0x20

abbrev pub timeout_flag_timeout_when_contains_data : ℕ
timeout_flag_timeout_when_contains_data = 0x0008

abbrev pub timeout_flag_rcount_is_priority : ℕ
timeout_flag_rcount_is_priority = 0x0010

abbrev pub timeout_flag_push_subscribe : ℕ
timeout_flag_push_subscribe = 0x0020

abbrev pub timeout_flag_minute_time : ℕ
timeout_flag_minute_time = 0x0040

abbrev pub timeout_flag_reverse_key_lock_when_timeout : ℕ
timeout_flag_reverse_key_lock_when_timeout = 0x0080

abbrev pub timeout_flag_unrenew_expried_time_when_timeout : ℕ
timeout_flag_unrenew_expried_time_when_timeout = 0x0100

abbrev pub timeout_flag_lock_wait_when_unlock : ℕ
timeout_flag_lock_wait_when_unlock = 0x0200

abbrev pub timeout_flag_millisecond_time : ℕ
timeout_flag_millisecond_time = 0x0400

abbrev pub timeout_flag_log_error_when_timeout : ℕ
timeout_flag_log_error_when_timeout = 0x0800

abbrev pub timeout_flag_require_acked : ℕ
timeout_flag_require_acked = 0x1000

abbrev pub timeout_flag_update_no_reset_timeout_checked_count : ℕ
timeout_flag_update_no_reset_timeout_checked_count = 0x2000

abbrev pub timeout_flag_less_lock_version_is_lock_succed : ℕ
timeout_flag_less_lock_version_is_lock_succed = 0x4000

abbrev pub timeout_flag_keeplived : ℕ
timeout_flag_keeplived = 0x8000

abbrev pub expried_flag_push_subscribe : ℕ
expried_flag_push_subscribe = 0x0020

abbrev pub expried_flag_minute_time : ℕ
expried_flag_minute_time = 0x0040

abbrev pub expried_flag_reverse_key_lock_when_expried : ℕ
expried_flag_reverse_key_lock_when_expried = 0x0080

abbrev pub expried_flag_zeor_aof_time : ℕ
expried_flag_zeor_aof_time = 0x0100

abbrev pub expried_flag_unlimited_aof_time : ℕ
expried_flag_unlimited_aof_time = 0x0200

abbrev pub expried_flag_millisecond_time : ℕ
expried_flag_millisecond_time = 0x0400

abbrev pub expried_flag_log_error_when_expried : ℕ
expried_flag_log_error_when_expried = 0x0800

abbrev pub expried_flag_aof_time_of_expried_parcent : ℕ
expried_flag_aof_time_of_expried_parcent = 0x1000

abbrev pub expried_flag_update_no_reset_expried_checked_count : ℕ
expried_flag_update_no_reset_expried_checked_count = 0x2000

abbrev pub expried_flag_unlimited_expried_time : ℕ
expried_flag_unlimited_expried_time = 0x4000

abbrev pub expried_flag_keeplived : ℕ
expried_flag_keeplived = 0x8000

abbrev pub lock_data_stage_current : ℕ
lock_data_stage_current = 0

abbrev pub lock_data_stage_unlock : ℕ
lock_data_stage_unlock = 1

abbrev pub lock_data_stage_timeout : ℕ
lock_data_stage_timeout = 2

abbrev pub lock_data_stage_expried : ℕ
lock_data_stage_expried = 3

abbrev pub lock_data_command_type_set : ℕ
lock_data_command_type_set = 0

abbrev pub lock_data_command_type_unset : ℕ
lock_data_command_type_unset = 1

abbrev pub lock_data_command_type_incr : ℕ
lock_data_command_type_incr = 2

abbrev pub lock_data_command_type_append : ℕ
lock_data_command_type_append = 3

abbrev pub lock_data_command_type_shift : ℕ
lock_data_command_type_shift = 4

abbrev pub lock_data_command_type_execute : ℕ
lock_data_command_type_execute = 5

abbrev pub lock_data_command_type_pipeline : ℕ
lock_data_command_type_pipeline = 6

abbrev pub lock_data_command_type_push : ℕ
lock_data_command_type_push = 7

abbrev pub lock_data_command_type_pop : ℕ
lock_data_command_type_pop = 8

abbrev pub lock_data_flag_value_type_number : ℕ
lock_data_flag_value_type_number = 0x01

abbrev pub lock_data_flag_value_type_array : ℕ
lock_data_flag_value_type_array = 0x02

abbrev pub lock_data_flag_value_type_kv : ℕ
lock_data_flag_value_type_kv = 0x04

abbrev pub lock_data_flag_contains_property : ℕ
lock_data_flag_contains_property = 0x10

abbrev pub lock_data_flag_process_first_or_last : ℕ
lock_data_flag_process_first_or_last = 0x20
