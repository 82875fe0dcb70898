-- ===== src/MessageFactory/Parsed.antt =====
-- What the factory builds, the parser takes apart again: the fields that went in come out.
use fix_engine.Prelude.{
  ℕ, ◌^◌, ◌<◌, ◌≡◌, refl, sym, ◌∙◌, ap, List, [], ◌∷◌, ◌++◌, append_assoc, append-nil, ap₂, Bytes,
  arith, ltb, if_yes, length,
}
use fix_engine.Chars.{codes, soh, to_chars, to_chars_int64, digits_before}
use fix_engine.Chars.Decimal.{AllDigits, to_chars-AllDigits, to_chars_some}
use fix_engine.Chars.Search.{Lacks}
use fix_engine.Definitions.{SessionParameters, next_out, now_fix}
use fix_engine.FactoryScratch.Trailer.{checksum_field, with_length}
use fix_engine.FactoryScratch.View.{field}
use fix_engine.Message.{FieldView}
use fix_engine.MessageFactory.{Factory, GenericField, from_app}
use fix_engine.MessageFactory.WellFormed.{
  preamble, header_fields, message, FitsWith, app_fields, from_app_lem,
}
use fix_engine.Parser.{parse}
use fix_engine.Parser.RoundTrip.{
  IsClean, AllClean, wire_field, wire_fields, sum_digits, parse-wire_fields,
}

abbrev pub view_of : ℕ → Bytes → FieldView
view_of tag value = record { tag = tag; value = value }

abbrev pub views : List GenericField → List FieldView
views [] = []
views (x ∷ xs) = view_of x.tag x.value ∷ views xs

int64_small : (n : ℕ) → n < 2 ^ 63 → to_chars_int64 n ≡ to_chars n
unfolding to_chars_int64
int64_small n h = if_yes (ltb n (2 ^ 63)) _ _ (ground arith)

field-wire :
    (tag : ℕ) (value : Bytes) → tag < 2 ^ 63 → field tag value ≡ wire_field (view_of tag value)
field-wire tag value h = rw (int64_small tag h) refl

app_fields-wire :
    (msg : List GenericField) → AllClean (views msg) → app_fields msg ≡ wire_fields (views msg)
app_fields-wire [] c = refl
app_fields-wire (x ∷ xs) c =
    rw (field-wire x.tag x.value (omega (arith, c.0.tag_small)), app_fields-wire xs c.1) refl

pub digits-Lacks-soh : (s : Bytes) → AllDigits s → Lacks soh s
digits-Lacks-soh [] d = tt
digits-Lacks-soh (c ∷ cs) d = (ground (arith, d.0), digits-Lacks-soh cs d.1)

number-IsClean : (tag n : ℕ) → tag < 10 ^ 7 → IsClean (view_of tag (to_chars n))
number-IsClean tag n h = record {
  tag_small = h;
  some_value = to_chars_some n;
  no_soh = digits-Lacks-soh (to_chars n) (to_chars-AllDigits n);
}

-- The fields of the header behind the length, as the parser returns them.
abbrev pub header_views : SessionParameters → Bytes → ℕ → List FieldView
header_views params type seq =
    view_of 35 type
    ∷ view_of 34 (to_chars seq)
    ∷ view_of 49 params.sender_comp_id
    ∷ view_of 56 params.target_comp_id
    ∷ view_of 52 now_fix
    ∷ []

-- The fields of a message with these fields behind its length, without the CheckSum field.
abbrev pub message_views : SessionParameters → List FieldView → List FieldView
message_views params fs =
    view_of 8 params.fix_version ∷ view_of 9 (to_chars (length (wire_fields fs))) ∷ fs

now-IsClean : IsClean (view_of 52 now_fix)
now-IsClean = record {
  tag_small = omega arith;
  some_value = omega arith;
  no_soh = (refl, (refl, (refl, tt)));
}

-- Texts that a message can carry.
pub record CleanParameters (params : SessionParameters) : Type 0 where
  pub version : IsClean (view_of 8 params.fix_version)
  pub sender : IsClean (view_of 49 params.sender_comp_id)
  pub target : IsClean (view_of 56 params.target_comp_id)

wire_fields-append :
    (xs ys : List FieldView) → wire_fields (xs ++ ys) ≡ wire_fields xs ++ wire_fields ys
wire_fields-append [] ys = refl
wire_fields-append (x ∷ xs) ys =
    rw (wire_fields-append xs ys)
      (sym (append_assoc (wire_field x) (wire_fields xs) (wire_fields ys)))

AllClean-append : (xs ys : List FieldView) → AllClean xs → AllClean ys → AllClean (xs ++ ys)
AllClean-append [] ys c d = d
AllClean-append (x ∷ xs) ys c d = (c.0, AllClean-append xs ys c.1 d)

nine : to_chars 9 ≡ codes "9"
unfolding to_chars digits_before
nine = refl

message-wire :
    (params : SessionParameters) (fs : List FieldView)
    → with_length (preamble params) (wire_fields fs) ≡ wire_fields (message_views params fs)
message-wire params fs =
    rw (field-wire 8 params.fix_version (omega arith), nine) (simp append_assoc)

pub parse-message :
    (params : SessionParameters) (fs : List FieldView)
    → CleanParameters params
    → AllClean fs
    → parse (message params (wire_fields fs)) ≡ record {
      out_msg = message_views params fs ++ view_of 10 (sum_digits (message_views params fs)) ∷ [];
      out_errs = [];
    }
parse-message params fs c d =
    ap (λ w. parse (w ++ checksum_field w)) (message-wire params fs)
    ∙ parse-wire_fields (message_views params fs)
        (c.version, (number-IsClean 9 (length (wire_fields fs)) (omega arith), d))

-- The header's fields are as they were stamped.
header-wire :
    (params : SessionParameters) (type : Bytes) (seq : ℕ)
    → seq < 2 ^ 63
    → header_fields params type seq ≡ wire_fields (header_views params type seq)
header-wire params type seq h =
    rw
      (
        field-wire 35 type (omega arith),
        field-wire 34 (to_chars_int64 seq) (omega arith),
        field-wire 49 params.sender_comp_id (omega arith),
        field-wire 56 params.target_comp_id (omega arith),
        field-wire 52 now_fix (omega arith),
        int64_small seq h,
      )
      (simp append-nil)

header-AllClean :
    (params : SessionParameters) (type : Bytes) (seq : ℕ)
    → CleanParameters params
    → IsClean (view_of 35 type)
    → AllClean (header_views params type seq)
header-AllClean params type seq c t =
    (t, (number-IsClean 34 seq (omega arith), (c.sender, (c.target, (now-IsClean, tt)))))

-- What a parser makes of an application message: its header, its own fields in their order, the
-- CheckSum field.
abbrev pub sent_views : SessionParameters → Factory → Bytes → List GenericField → List FieldView
sent_views params f type msg =
    message_views params (header_views params type (next_out f.seq_provider) ++ views msg)

-- An application message that the factory builds is parsed without error, into its BeginString, its
-- BodyLength, its type, the number it was stamped with, the two CompIDs, the time, the fields of the
-- application in their order, and the CheckSum. The texts are not empty and hold no SOH, the tags have
-- at most seven digits, the number is below 2^63, and the body has fewer than 10^10 bytes.
pub parse-from_app :
    (params : SessionParameters) (f : Factory) (msg : List GenericField) (type : Bytes)
    → CleanParameters params
    → IsClean (view_of 35 type)
    → AllClean (views msg)
    → next_out f.seq_provider < 2 ^ 63
    → FitsWith params f type (app_fields msg)
    → parse (from_app params f msg type).0 ≡ record {
      out_msg =
          sent_views params f type msg
          ++ view_of 10 (sum_digits (sent_views params f type msg)) ∷ [];
      out_errs = [];
    }
parse-from_app params f msg type c t m n fits =
    let seq = next_out f.seq_provider in
    let hs = header_views params type seq in
    let body : header_fields params type seq ++ app_fields msg ≡ wire_fields (hs ++ views msg) =
      ap₂ ◌++◌ (header-wire params type seq n) (app_fields-wire msg m)
      ∙ sym (wire_fields-append hs (views msg)) in
    ap parse (from_app_lem params f msg type fits ∙ ap (message params) body)
    ∙ parse-message params (hs ++ views msg) c
        (AllClean-append hs (views msg) (header-AllClean params type seq c t) m)
