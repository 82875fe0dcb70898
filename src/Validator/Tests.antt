-- ===== src/Validator/Tests.antt =====
-- Messages that the validator takes and refuses.
use fix_engine.Prelude.{◌≡◌, refl, List, [], ◌∷◌, Bytes, some, ℕ}
use fix_engine.Chars.{codes, same, from_chars, scan_digits}
use fix_engine.Definitions.{default_parameters}
use fix_engine.Message.{
  cache_from, note, note_seq_num, FieldView, ValidMessageView, make_valid_message_view,
}
use fix_engine.Schema.{
  int, string, validate_type, is_int_type, some_digits, all_digits, is_boolean_type,
}
use fix_engine.Schema.Registry.{
  get, lower_bound, entry_at, sorted_indices, sort_indices, insert_index, less, key_at, mid_key,
}
use fix_engine.Validator.Accepted.{NoErrors}
use fix_engine.Validator.Acceptance.{Accepted, validate_message-Accepted}
use fix_engine.Validator.Required.{Has, required_found}
use fix_engine.Validator.{
  validate_message, validate_by, validate_header, validate_ids, slot_is, slot_is_int,
  validate_fields, check_field, field_found, find_if, flag_extra,
}
use fix_engine.Validator.TagScratch.{clear, resize, set_in, word_at, full, full_words, all_set}

abbrev at : ℕ → Bytes → FieldView
at tag value = record { tag = tag; value = value }

-- A test request as the peer sends it.
abbrev test_request : List FieldView
test_request =
    at 8 (codes "FIX.4.4")
    ∷ at 9 (codes "60")
    ∷ at 35 (codes "1")
    ∷ at 49 default_parameters.target_comp_id
    ∷ at 56 default_parameters.sender_comp_id
    ∷ at 34 (codes "2")
    ∷ at 52 (codes "now")
    ∷ at 112 (codes "ping")
    ∷ at 10 (codes "128")
    ∷ []

abbrev view : ValidMessageView
view = make_valid_message_view test_request

test_request_accepted : NoErrors (validate_message [] view default_parameters)
unfolding NoErrors validate_message make_valid_message_view cache_from note note_seq_num from_chars
    scan_digits get lower_bound entry_at sorted_indices sort_indices insert_index less key_at
    mid_key same validate_by validate_header validate_ids slot_is slot_is_int validate_fields
    check_field field_found find_if validate_type is_int_type some_digits all_digits is_boolean_type
    flag_extra clear resize set_in word_at full full_words all_set
test_request_accepted = refl

validate_message-Accepted_example : Accepted view default_parameters
validate_message-Accepted_example =
    validate_message-Accepted [] view default_parameters test_request_accepted

required_found_example :
    (view.header_cache.msg_type ≡ some (codes "A") → Has test_request 108 int)
    × ((view.header_cache.msg_type ≡ some (codes "1") → Has test_request 112 string)
        × ((view.header_cache.msg_type ≡ some (codes "2")
              → Has test_request 7 int × Has test_request 16 int)
            × ((view.header_cache.msg_type ≡ some (codes "4") → Has test_request 36 int)
                × (view.header_cache.msg_type ≡ some (codes "3") → Has test_request 45 int))))
unfolding make_valid_message_view
required_found_example = required_found [] view default_parameters test_request_accepted
