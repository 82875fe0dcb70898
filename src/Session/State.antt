-- ===== src/Session/State.antt =====
-- The fields of `Session`. Logging is left out. What the session asks of the outside is a list of
-- effects, newest first; a timer is whether it is armed.
use fix_engine.Prelude.{ℕ, Bool, true, false, List, [], ◌∷◌, Bytes}
use fix_engine.Definitions.{Role, SessionId, SessionParameters, SeqProvider, new_seq_provider}
use fix_engine.FactoryScratch
use fix_engine.FactoryScratch.{FactoryScratch}
use fix_engine.Message.{FieldView}
use fix_engine.MessageStore
use fix_engine.MessageStore.{MessageStore}
use fix_engine.RecoveryCache
use fix_engine.RecoveryCache.{RecoveryCache}

pub data SessionState : Type 0 where
  awaiting_logon awaiting_logout logon_received logon_sent recovering_resend active disconnected :
      SessionState

-- `PendingWrite`: the bytes of the message, and how many of them are sent.
pub record PendingWrite : Type 0 where
  pub bytes : Bytes
  pub sent : ℕ

pub data Effect : Type 0 where
  -- async_write_some of these bytes
  write_some : Bytes → Effect
  -- async_read_some
  read_some : Effect
  close_connection : Effect
  -- reconnect_callback_(id_)
  reconnect : Effect
  -- app_sink_
  deliver : List FieldView → Effect

pub record Session : Type 0 where
  pub id : SessionId
  pub recovery_cache : RecoveryCache
  pub params : SessionParameters
  pub write_q : List PendingWrite
  -- whether `conn_` points to a connection
  pub conn : Bool
  pub store : MessageStore
  pub state : SessionState
  pub seq_provider : SeqProvider
  -- the buffer of `msg_factory_`
  pub scratch : FactoryScratch
  pub logon_timer : Bool
  pub inbound_timer : Bool
  pub heartbeat_timer : Bool
  pub logout_timer : Bool
  pub test_req_id : ℕ
  pub stopped : Bool
  pub write_inflight : Bool
  pub awaiting_test_request_response : Bool
  pub reconnecting : Bool
  pub role : Role
  pub effects : List Effect

-- The constructor.
unfoldable pub new_session : SessionId → Role → SessionParameters → Session
new_session id role params = record {
  id = id;
  recovery_cache = RecoveryCache.init;
  params = params;
  write_q = [];
  conn = false;
  store = MessageStore.init;
  state = disconnected;
  seq_provider = new_seq_provider;
  scratch = FactoryScratch.init;
  logon_timer = false;
  inbound_timer = false;
  heartbeat_timer = false;
  logout_timer = false;
  test_req_id = 0;
  stopped = false;
  write_inflight = false;
  awaiting_test_request_response = false;
  reconnecting = false;
  role = role;
  effects = [];
}

-- operator== of two states
unfoldable pub is_state : SessionState → SessionState → Bool
is_state awaiting_logon awaiting_logon = true
is_state awaiting_logout awaiting_logout = true
is_state logon_received logon_received = true
is_state logon_sent logon_sent = true
is_state recovering_resend recovering_resend = true
is_state active active = true
is_state disconnected disconnected = true
is_state _ _ = false

-- state_ == ACTIVE || state_ == RECOVERING_RESEND
unfoldable pub is_running : SessionState → Bool
is_running recovering_resend = true
is_running active = true
is_running _ = false

abbrev pub emit : Session → Effect → Session
emit s e = record s { effects = e ∷ s.effects }
