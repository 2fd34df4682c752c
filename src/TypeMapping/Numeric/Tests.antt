-- ===== src/TypeMapping/Numeric/Tests.antt =====
-- Concrete decimals, parsed and printed.
use psqlodbc_new.Prelude.{
  ◌%◌, ◌^◌, ◌≤◌, ◌<◌, ◌≡◌, refl, true, false, [], ◌∷◌, arith, length, All, Bytes, codes,
}
use psqlodbc_new.TypeMapping.Numeric.Mantissa.{le_value, digits_value}
use psqlodbc_new.TypeMapping.Numeric.Parse.{numeric_text, parse_numeric_text_lem}
use psqlodbc_new.Prelude.Int.{pos}
use psqlodbc_new.CLib.{isdigit}
use psqlodbc_new.TypeMapping.Numeric.Mantissa.{IsByte}
use psqlodbc_new.TypeMapping.Numeric.AnyText.{parse_numeric_text_well_formed}
use psqlodbc_new.TypeMapping.Numeric.RoundTrip.{parse-format}
use psqlodbc_new.TypeMapping.Numeric.Format.{format_numeric_text_bounded}
use psqlodbc_new.TypeMapping.Numeric.{
  SqlNumericStruct, type_mapping_parse_numeric_text, type_mapping_format_numeric_text, FormatResult,
  written,
}

abbrev printed : Bytes → FormatResult
printed text = type_mapping_format_numeric_text (type_mapping_parse_numeric_text text).0 256

plain : printed (codes " -0120.450x") ≡ written (codes "-120.450")
unfolding type_mapping_parse_numeric_text type_mapping_format_numeric_text
plain = refl

small : printed (codes "0.0007") ≡ written (codes "0.0007")
unfolding type_mapping_parse_numeric_text type_mapping_format_numeric_text
small = refl

largest :
    printed (codes "340282366920938463463374607431768211455")
    ≡ written (codes "340282366920938463463374607431768211455")
unfolding type_mapping_parse_numeric_text type_mapping_format_numeric_text
largest = refl

too_large :
    (type_mapping_parse_numeric_text (codes "340282366920938463463374607431768211456")).1 ≡ true
unfolding type_mapping_parse_numeric_text type_mapping_format_numeric_text
too_large = refl

parse_numeric_text_lem_example :
    let (numeric, overflow) =
      type_mapping_parse_numeric_text (numeric_text true (codes "0120") (codes "450")) in
    (numeric.sign ≡ 0)
    × (numeric.scale ≡ pos 3)
    × (numeric.precision ≡ 6)
    × (le_value numeric.val ≡ digits_value 0 (codes "0120450") % 2 ^ 128)
    × (overflow ≡ false)
unfolding type_mapping_parse_numeric_text
parse_numeric_text_lem_example =
    parse_numeric_text_lem true (codes "0120") (codes "450")
      (unfold isdigit in (refl, (refl, (refl, (refl, tt)))))
      (unfold isdigit in (refl, (refl, (refl, tt))))
      (unfold type_mapping_parse_numeric_text in omega arith)

abbrev amount : SqlNumericStruct
amount = record {
  precision = 6;
  scale = pos 3;
  sign = 0;
  val = 0x02 ∷ 0xD6 ∷ 0x01 ∷ 0 ∷ 0 ∷ 0 ∷ 0 ∷ 0 ∷ 0 ∷ 0 ∷ 0 ∷ 0 ∷ 0 ∷ 0 ∷ 0 ∷ 0 ∷ [];
}

amount_prints : type_mapping_format_numeric_text amount 256 ≡ written (codes "-120.322")
unfolding type_mapping_format_numeric_text
amount_prints = refl

parse-format_example :
    (text : Bytes) × (type_mapping_format_numeric_text amount 256 ≡ written text)
    × (let (again, overflow) = type_mapping_parse_numeric_text text in
        (again.sign ≡ 0)
        × (again.scale ≡ pos 3)
        × (le_value again.val ≡ le_value amount.val)
        × (overflow ≡ false))
parse-format_example =
    parse-format true 6 3 amount.val 256 (omega arith) (omega arith) (omega arith) refl
      (grind arith) (omega arith) (omega arith)

format_numeric_text_bounded_example :
    (text : Bytes) × (type_mapping_format_numeric_text amount 256 ≡ written text)
    × (length text < 256)
format_numeric_text_bounded_example =
    format_numeric_text_bounded amount 3 256 refl (omega arith) (omega arith)

parse_numeric_text_well_formed_example :
    let numeric = (type_mapping_parse_numeric_text (codes "+1e5")).0 in
    (numeric.precision ≤ 48) × (length numeric.val ≡ 16) × All IsByte numeric.val
parse_numeric_text_well_formed_example = parse_numeric_text_well_formed (codes "+1e5")
