-- ===== src/LogEntry.antt =====
-- include/fix/log/LogEntry.hpp, include/fix/log/LogContext.hpp and include/fix/error: what is logged.
use fix_engine.Prelude.{◌++◌, Bytes}
use fix_engine.Chars.{codes}
use fix_engine.Definitions.{SessionId}
use fix_engine.Validator.Result.{Severity, na, low, moderate, high, fatal}

pub data Category : Type 0 where
  debug info warn error : Category

pub data Layer : Type 0 where
  transport fix app peripheral : Layer

pub record Context : Type 0 where
  pub layer : Layer
  pub cat : Category
  pub sev : Severity

pub record Entry : Type 0 where
  pub message : Bytes
  pub sess_id : SessionId
  pub context : Context

unfoldable pub category_name : Category → Bytes
category_name debug = codes "Debug"
category_name info = codes "Info"
category_name warn = codes "Warn"
category_name error = codes "Error"

unfoldable pub layer_name : Layer → Bytes
layer_name transport = codes "Transport"
layer_name fix = codes "Fix"
layer_name app = codes "App"
layer_name peripheral = codes "Peripheral"

unfoldable pub severity_name : Severity → Bytes
severity_name na = codes "NA"
severity_name low = codes "Low"
severity_name moderate = codes "Moderate"
severity_name high = codes "High"
severity_name fatal = codes "Fatal"

unfoldable pub to_json : Entry → Bytes
unfolding category_name layer_name severity_name
to_json e =
    codes "{\"Category\":\""
    ++ category_name e.context.cat
    ++ codes "\",\"Layer\":\""
    ++ layer_name e.context.layer
    ++ codes "\",\"Severity\":\""
    ++ severity_name e.context.sev
    ++ codes "\",\"Message\":\""
    ++ e.message
    ++ codes "\"}"
