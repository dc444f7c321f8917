-- ===== src/Command/Classes.antt =====
-- internal/matchcommand/orchestrator.go: the classes of commands, their type names and reasons.
use rct_hub_backend.Base.{Bool, true, false, Text, [], codes, Option, none, some}
use rct_hub_backend.Model.Events.{Command}

unfoldable pub is_strategist_command : Command → Bool
is_strategist_command (Command.ban_pool_slot _) = true
is_strategist_command (Command.place_piece _ _ _) = true
is_strategist_command (Command.place_shiro _ _) = true
is_strategist_command (Command.rob_piece _ _) = true
is_strategist_command _ = false

unfoldable pub is_captain_command : Command → Bool
is_captain_command (Command.request_tb _ _) = true
is_captain_command (Command.respond_tb_request _ _) = true
is_captain_command _ = false

unfoldable pub is_referee_proxy_command : Command → Bool
is_referee_proxy_command (Command.referee_ban_pool_slot _ _ _) = true
is_referee_proxy_command (Command.referee_place_piece _ _ _ _ _) = true
is_referee_proxy_command (Command.referee_place_shiro _ _ _ _) = true
is_referee_proxy_command (Command.referee_rob_piece _ _ _ _) = true
is_referee_proxy_command (Command.referee_request_tb _ _ _ _) = true
is_referee_proxy_command (Command.referee_respond_tb_request _ _ _ _) = true
is_referee_proxy_command _ = false

unfoldable pub is_referee_command : Command → Bool
is_referee_command Command.start_match = true
is_referee_command (Command.grant_additional_time _) = true
is_referee_command (Command.calibrate_timer _ _) = true
is_referee_command (Command.pause_timer _) = true
is_referee_command (Command.resume_timer _) = true
is_referee_command (Command.suspend_match _) = true
is_referee_command (Command.resume_match _) = true
is_referee_command (Command.skip_current_action _) = true
is_referee_command (Command.abort_match _) = true
is_referee_command (Command.start_tb _) = true
is_referee_command (Command.confirm_tb_result _) = true
is_referee_command (Command.record_surrender _ _ _) = true
is_referee_command (Command.confirm_beatmap_result _ _) = true
is_referee_command _ = false

unfoldable pub command_reason : Command → Text
command_reason (Command.referee_ban_pool_slot _ _ reason) = reason
command_reason (Command.referee_place_piece _ _ _ _ reason) = reason
command_reason (Command.referee_place_shiro _ _ _ reason) = reason
command_reason (Command.referee_rob_piece _ _ _ reason) = reason
command_reason (Command.grant_additional_time reason) = reason
command_reason (Command.calibrate_timer _ reason) = reason
command_reason (Command.pause_timer reason) = reason
command_reason (Command.resume_timer reason) = reason
command_reason (Command.suspend_match reason) = reason
command_reason (Command.resume_match reason) = reason
command_reason (Command.skip_current_action reason) = reason
command_reason (Command.abort_match reason) = reason
command_reason (Command.referee_request_tb _ _ _ reason) = reason
command_reason (Command.referee_respond_tb_request _ _ _ reason) = reason
command_reason (Command.start_tb reason) = reason
command_reason (Command.record_surrender _ _ reason) = reason
command_reason _ = []

unfoldable pub command_type : Command → Option Text
command_type Command.start_match = some (codes "START_MATCH")
command_type (Command.ban_pool_slot _) = some (codes "BAN_POOL_SLOT")
command_type (Command.referee_ban_pool_slot _ _ _) = some (codes "REFEREE_BAN_POOL_SLOT")
command_type (Command.place_piece _ _ _) = some (codes "PLACE_PIECE")
command_type (Command.referee_place_piece _ _ _ _ _) = some (codes "REFEREE_PLACE_PIECE")
command_type (Command.place_shiro _ _) = some (codes "PLACE_SHIRO")
command_type (Command.referee_place_shiro _ _ _ _) = some (codes "REFEREE_PLACE_SHIRO")
command_type (Command.rob_piece _ _) = some (codes "ROB_PIECE")
command_type (Command.referee_rob_piece _ _ _ _) = some (codes "REFEREE_ROB_PIECE")
command_type (Command.grant_additional_time _) = some (codes "GRANT_ADDITIONAL_TIME")
command_type (Command.calibrate_timer _ _) = some (codes "CALIBRATE_TIMER")
command_type (Command.pause_timer _) = some (codes "PAUSE_TIMER")
command_type (Command.resume_timer _) = some (codes "RESUME_TIMER")
command_type (Command.suspend_match _) = some (codes "SUSPEND_MATCH")
command_type (Command.resume_match _) = some (codes "RESUME_MATCH")
command_type (Command.skip_current_action _) = some (codes "SKIP_CURRENT_ACTION")
command_type (Command.abort_match _) = some (codes "ABORT_MATCH")
command_type (Command.request_tb _ _) = some (codes "REQUEST_TB")
command_type (Command.referee_request_tb _ _ _ _) = some (codes "REFEREE_REQUEST_TB")
command_type (Command.respond_tb_request _ _) = some (codes "RESPOND_TB_REQUEST")
command_type (Command.referee_respond_tb_request _ _ _ _) =
    some (codes "REFEREE_RESPOND_TB_REQUEST")
command_type (Command.start_tb _) = some (codes "START_TB")
command_type (Command.confirm_tb_result _) = some (codes "CONFIRM_TB_RESULT")
command_type (Command.record_surrender _ _ _) = some (codes "RECORD_SURRENDER")
command_type (Command.confirm_beatmap_result _ _) = some (codes "CONFIRM_BEATMAP_RESULT")
command_type Command.unsupported = none
