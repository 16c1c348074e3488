-- ===== src/Examples/Documents.antt =====
-- A JSON object of two members, in both orders.
use proof.Prelude.{◌≡◌, refl, ◌↔◌, [], ◌∷◌, ◌++◌, some, true, false}
use proof.Prelude.Bytes.{Bytes, codes, bytes_eq, bytes_lt}
use proof.Canonical.{
  Json, null, number, array, object, end, element, no_more, member, ok, Texts, is_float, join,
  insert_member, sort_members, validate_canonical_string, validate_keys, write_sorted,
}
use proof.Canonical.Order.{SameJson, same_object, swapped, write_sorted-SameJson}
use proof.Canonical.Writable.{IsOk, IsWritable, write_sorted-IsWritable}

abbrev plain : Texts
plain = record {
  valid_utf8 = λ s. true;
  is_nfc = λ s. true;
  quote = λ s. b'"' ∷ (s ++ b'"' ∷ []);
  decoded = λ v. some v;
}

abbrev one_way : Json
one_way = object (
    member (codes "b") (number (codes "2")) (member (codes "a") (array (element null end)) no_more))

abbrev other_way : Json
other_way = object (
    member (codes "a") (array (element null end)) (member (codes "b") (number (codes "2")) no_more))

keys_differ : bytes_eq (codes "b") (codes "a") ≡ false
unfolding bytes_eq
keys_differ = refl

abbrev reordered : SameJson one_way other_way
reordered = same_object (
    swapped (codes "b") (codes "a") (number (codes "2")) (array (element null end)) no_more
      keys_differ)

abbrev document : Bytes
document = codes "{\"a\":[null],\"b\":2}"

writes : write_sorted plain 0 one_way ≡ ok document
unfolding write_sorted is_float join insert_member sort_members validate_canonical_string
    validate_keys bytes_lt
writes = refl

write_sorted-SameJson_example : write_sorted plain 0 other_way ≡ ok document
write_sorted-SameJson_example = write_sorted-SameJson plain 0 document reordered writes

write_sorted-IsWritable_example : IsOk (write_sorted plain 0 one_way) ↔ IsWritable plain 0 one_way
write_sorted-IsWritable_example = write_sorted-IsWritable plain one_way
