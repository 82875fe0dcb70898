-- ===== src/Parser/Tests.antt =====
-- A message of three fields, parsed back.
use fix_engine.Prelude.{◌≡◌, List, [], ◌∷◌, ◌++◌, arith}
use fix_engine.Chars.{codes}
use fix_engine.FactoryScratch.Trailer.{checksum_field}
use fix_engine.Message.{FieldView}
use fix_engine.Parser.{parse}
use fix_engine.Parser.RoundTrip.{wire_fields, sum_digits, AllClean, parse-wire_fields}

abbrev heartbeat : List FieldView
heartbeat =
    record { tag = 8; value = codes "FIX.4.4" }
    ∷ record { tag = 35; value = codes "0" }
    ∷ record { tag = 34; value = codes "7" }
    ∷ []

heartbeat-AllClean : AllClean heartbeat
heartbeat-AllClean = ground arith

parse-wire_fields_example :
    parse (wire_fields heartbeat ++ checksum_field (wire_fields heartbeat)) ≡ record {
      out_msg = heartbeat ++ record { tag = 10; value = sum_digits heartbeat } ∷ [];
      out_errs = [];
    }
parse-wire_fields_example = parse-wire_fields heartbeat heartbeat-AllClean
