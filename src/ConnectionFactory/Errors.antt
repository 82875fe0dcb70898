-- ===== src/ConnectionFactory/Errors.antt =====
-- include/fix/error/Network.hpp: how the errors of the network library are taken, but for those of reads and
-- writes, which the session takes.
use fix_engine.Prelude.{ℕ, Bool, ◌||◌, ◌==◌, if◌then◌else◌}
use fix_engine.Session.Io.{RetryClass, permanent, transient, canceled}

-- The numbers of the error codes that the source names, as the network library has them; the number 0 is
-- success.
pub record ErrorCodes : Type 0 where
  pub operation_aborted : ℕ
  pub host_not_found : ℕ
  pub host_not_found_try_again : ℕ
  pub service_not_found : ℕ
  pub no_recovery : ℕ
  pub invalid_argument : ℕ
  pub connection_refused : ℕ
  pub timed_out : ℕ
  pub network_unreachable : ℕ
  pub host_unreachable : ℕ
  pub connection_reset : ℕ
  pub address_family_not_supported : ℕ
  pub already_connected : ℕ
  pub too_many_files_open : ℕ
  pub too_many_files_open_in_system : ℕ
  pub address_in_use : ℕ
  pub no_buffer_space : ℕ

abbrev pub success : ℕ
success = 0

module _ (codes : ErrorCodes) where
  unfoldable pub classify_resolve_error : ℕ → RetryClass
  classify_resolve_error ec =
      if ec == codes.operation_aborted
      then canceled
      else if ec == codes.host_not_found_try_again
      then transient
      else if ec == codes.host_not_found
          || (ec == codes.service_not_found
              || (ec == codes.no_recovery || ec == codes.invalid_argument))
      then permanent
      else transient

  unfoldable pub classify_connect_error : ℕ → RetryClass
  classify_connect_error ec =
      if ec == codes.operation_aborted
      then canceled
      else if ec == codes.connection_refused
          || (ec == codes.timed_out
              || (ec == codes.network_unreachable
                  || (ec == codes.host_unreachable || ec == codes.connection_reset)))
      then transient
      else if ec == codes.address_family_not_supported
          || (ec == codes.already_connected || ec == codes.invalid_argument)
      then permanent
      else transient

  unfoldable pub is_transient_open : ℕ → Bool
  is_transient_open ec =
      ec == codes.too_many_files_open || ec == codes.too_many_files_open_in_system

  unfoldable pub is_transient_bind : ℕ → Bool
  is_transient_bind ec = ec == codes.address_in_use

  unfoldable pub is_transient_listen : ℕ → Bool
  is_transient_listen ec = ec == codes.no_buffer_space
