-- ===== src/Validator/Result.antt =====
-- What include/fix/error and include/fix/core/Validator.hpp call the result of a validation.
use fix_engine.Prelude.{ℕ, Bool, true, false, List, [], ◌++◌, ◌∷◌, Bytes}

-- `Error::Severity`
pub data Severity : Type 0 where
  na low moderate high fatal : Severity

-- `ValidatorErrorContext`; the code is the number of the `Error::Validator` constant.
pub record ValidatorErrorContext : Type 0 where
  pub info : Bytes
  pub tag : ℕ
  pub code : ℕ

pub record ValidatorResult : Type 0 where
  pub severity : Severity
  pub errors : List ValidatorErrorContext

abbrev pub is_fatal : Severity → Bool
is_fatal fatal = true
is_fatal _ = false

-- `ValidatorResult::clear`
abbrev pub cleared : ValidatorResult
cleared = record { severity = moderate; errors = [] }

-- errors.push_back
unfoldable pub push : ValidatorResult → Bytes → ℕ → ℕ → ValidatorResult
push r info tag code = record r {
  errors = r.errors ++ (record { info = info; tag = tag; code = code } ∷ []);
}

-- An error that sets the severity too.
unfoldable pub push_fatal : ValidatorResult → Bytes → ℕ → ℕ → ValidatorResult
unfolding push
push_fatal r info tag code = record (push r info tag code) { severity = fatal }
