-- ===== src/MessageFactory/Tests.antt =====
-- The messages of a new session with the default parameters.
use fix_engine.Prelude.{◌≡◌, List, [], ◌∷◌, ◌++◌, arith}
use fix_engine.Chars.{codes, to_chars, to_chars_int64, digits_before}
use fix_engine.Definitions.{default_parameters, new_seq_provider}
use fix_engine.FactoryScratch
use fix_engine.FactoryScratch.View.{field}
use fix_engine.MessageFactory.{Factory, GenericField, heart_beat, resend_request, from_app}
use fix_engine.MessageFactory.WellFormed.{
  wire_of, optional_field, heart_beat_lem, resend_request_lem,
}
use fix_engine.MessageFactory.Parsed.{CleanParameters, view_of, sent_views, parse-from_app}
use fix_engine.Parser.{parse}
use fix_engine.Parser.RoundTrip.{sum_digits}

abbrev new_factory : Factory
new_factory = record { scratch = FactoryScratch.init; seq_provider = new_seq_provider }

abbrev order : List GenericField
order = record { value = codes "IBM"; tag = 55 } ∷ []

heart_beat_example :
    (heart_beat default_parameters new_factory (codes "T1")).0
    ≡ wire_of default_parameters new_factory (codes "0") (optional_field 112 (codes "T1"))
unfolding to_chars_int64 to_chars digits_before
heart_beat_example =
    heart_beat_lem default_parameters new_factory (codes "T1") (omega arith, omega arith)

resend_request_example :
    (resend_request default_parameters new_factory 2 5).0
    ≡ wire_of default_parameters new_factory
        (codes "2")
        (field 7 (to_chars_int64 2) ++ field 16 (to_chars_int64 5))
unfolding to_chars_int64 to_chars digits_before
resend_request_example =
    resend_request_lem default_parameters new_factory 2 5 (omega arith, omega arith)

parameters-CleanParameters : CleanParameters default_parameters
parameters-CleanParameters = ground arith

parse-from_app_example :
    parse (from_app default_parameters new_factory order (codes "D")).0 ≡ record {
      out_msg =
          sent_views default_parameters new_factory (codes "D") order
          ++ view_of 10 (sum_digits (sent_views default_parameters new_factory (codes "D") order))
            ∷ [];
      out_errs = [];
    }
unfolding to_chars_int64 to_chars digits_before
parse-from_app_example =
    parse-from_app default_parameters new_factory order (codes "D") parameters-CleanParameters
      (ground arith) (ground arith) (omega arith) (omega arith, omega arith)
