-- ===== src/Logger.antt =====
-- lib/logger: the lines that the console logger writes. The time and the text that package fmt makes of
-- the format and its data are arguments.
use dbgp_tools.Base.{Bytes, codes, ◌++◌, ltb, length, if◌then◌else◌, [], false, true}
use dbgp_tools.Dbgpxml.Common.{Paint, bright_green, bright_yellow, bright_red, white}

abbrev bracketed : Bytes → Bytes
bracketed text = codes " [" ++ text ++ codes "]"

-- logger.logHandler(severity, category, user, format, data), with the time in front
unfoldable pub log_handler : Paint → Bytes → Bytes → Bytes → Bytes → Bytes → Bytes
log_handler paint now severity category user text =
    if ltb 0 (length user)
    then now
      ++ bracketed severity
      ++ bracketed (paint false white category)
      ++ bracketed (paint true white user)
      ++ codes " "
      ++ text
      ++ codes "\n"
    else now
      ++ bracketed severity
      ++ bracketed (paint false white category)
      ++ codes " "
      ++ text
      ++ codes "\n"

-- LogInfo, LogWarning, LogError
unfoldable pub log_info : Paint → Bytes → Bytes → Bytes → Bytes
unfolding log_handler
log_info paint now category text =
    log_handler paint now (paint false bright_green (codes "info")) category [] text

unfoldable pub log_warning : Paint → Bytes → Bytes → Bytes → Bytes
unfolding log_handler
log_warning paint now category text =
    log_handler paint now (paint false bright_yellow (codes "warn")) category [] text

unfoldable pub log_error : Paint → Bytes → Bytes → Bytes → Bytes
unfolding log_handler
log_error paint now category text =
    log_handler paint now (paint false bright_red (codes "err ")) category [] text

-- LogUserInfo, LogUserWarning, LogUserError
unfoldable pub log_user_info : Paint → Bytes → Bytes → Bytes → Bytes → Bytes
unfolding log_handler
log_user_info paint now category user text =
    log_handler paint now (paint false bright_green (codes "info")) category user text

unfoldable pub log_user_warning : Paint → Bytes → Bytes → Bytes → Bytes → Bytes
unfolding log_handler
log_user_warning paint now category user text =
    log_handler paint now (paint false bright_yellow (codes "warn")) category user text

unfoldable pub log_user_error : Paint → Bytes → Bytes → Bytes → Bytes → Bytes
unfolding log_handler
log_user_error paint now category user text =
    log_handler paint now (paint false bright_red (codes "err ")) category user text
