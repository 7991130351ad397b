-- ===== src/Tests/Texts.antt =====
-- Names and character strings.
use mathlib.Core.List.{flat_map}
use contractdb.Base.{some, [], ◌∷◌, bytes_eq, codes, map, ◌≡◌, refl, arith}
use contractdb.Base32.{encode}
use contractdb.Text.{to_lower, lower, to_upper, upper, has_prefix, has_suffix, split, first_label}
use contractdb.Txt.{chunk_bytes, decode_txt_strings}
use contractdb.Txt.Decode.{present, decode_txt_strings-present}
use contractdb.Names.{
  parse_key, item_name, is_safe, key_of_rest, pad_raw, all_safe, safe_part, safe_parts,
}
use contractdb.Names.RoundTrip.{parse_key-item_name}

program : Unit {0}
unfolding parse_key item_name is_safe key_of_rest pad_raw all_safe safe_part safe_parts to_lower
    lower to_upper upper has_prefix has_suffix split first_label bytes_eq chunk_bytes
    decode_txt_strings encode
program = tt

safe_key : item_name (codes "db.") (codes "user-1") ≡ codes "user-1.db."
unfolding program
safe_key = refl

-- A key with an upper case letter is published in base32.
coded_key : item_name (codes "db.") (codes "A") ≡ codes "k-ie======.db."
unfolding program
coded_key = refl

parse_key-item_name_example :
    parse_key (codes "db.") (item_name (codes "db.") (codes "User 1")) ≡ some (codes "User 1")
unfolding program
parse_key-item_name_example =
    parse_key-item_name (codes "db.") (codes "User 1") refl (λ e. cc)
      (omega arith, (omega arith, (omega arith, (omega arith, (omega arith, (omega arith, tt))))))
      refl

decode_txt_strings-present_example :
    decode_txt_strings (map (flat_map present) (codes "a\"" ∷ codes "b" ∷ [])) ≡ some (codes "a\"b")
decode_txt_strings-present_example =
    decode_txt_strings-present (codes "a\"" ∷ codes "b" ∷ [])
      ((omega arith, (omega arith, tt)), ((omega arith, tt), tt))
