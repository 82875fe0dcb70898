-- ===== src/ConnectionFactory.antt =====
-- src/AsioConnectionFactory.cpp: connecting and listening.
pub mod Errors
pub mod Connect
pub mod Listen
pub mod ConnectEnds
pub mod ListenEnds
mod Tests
use fix_engine.Prelude.{ℕ, List, [], ◌∷◌, Bytes, ltb, ◌==◌, if◌then◌else◌}
use fix_engine.Chars.{codes}
use fix_engine.Definitions.{Role}
use fix_engine.ConnectionFactory.Errors.{ErrorCodes, success}
use fix_engine.ConnectionFactory.Listen.{ListenOp, Answers, start}

-- A backlog that is not positive is 0.
pub record ConnectionConfig : Type 0 where
  pub ip : Bytes
  pub port : ℕ
  pub role : Role
  pub backlog : ℕ

-- What becomes of a call of `async_listen`: its handler is called with an error, or an operation is
-- started on an address, a port and a backlog.
pub data Listening (Address : Type 0) : Type 0 where
  refused : ℕ → Listening Address
  listens : Address → ℕ → ℕ → ListenOp → Listening Address

-- The host and the backlog to listen with.
abbrev pub host_of : ConnectionConfig → Bytes
host_of cfg = elim (cfg.ip) [ [] ↦ codes "0.0.0.0" | c ∷ cs ↦ c ∷ cs ]

abbrev pub backlog_of : ℕ → ConnectionConfig → ℕ
backlog_of somaxconn cfg = if ltb 0 cfg.backlog then cfg.backlog else somaxconn

-- `async_listen`, by what the address of a host is, or the error of that.
unfoldable pub async_listen :
    {A : Type 0} → ErrorCodes → ℕ → (Bytes → ℕ × A) → ConnectionConfig → Answers → Listening A
async_listen errors somaxconn make_address cfg net =
    let (ec, addr) = make_address (host_of cfg) in
    if ec == success
    then listens addr cfg.port (backlog_of somaxconn cfg) (start errors net)
    else refused ec
