-- ===== src/BaseTypes/Names.antt =====
-- The two tables of names of kinds are inverse, the ranges of the integer types are those of their
-- widths, and each type that is built in has the kind of its name.
use go_restconf.GoMap.{get}
use go_restconf.GoText.{split, trim_space}
use go_restconf.GoText.Digits.{parse_uint}
use go_restconf.Number.{Number, from_int, from_uint, less, less_magnitude, trunc, pow10}
use go_restconf.Number.Text.{parse_number}
use go_restconf.Range.{YangRange, parse_ranges}
use go_restconf.BaseTypes.{TypeKind, type_kind_from_name, type_kind_to_name}
use go_restconf.BaseTypes.Table.{
  must_parse_ranges, int8_range, int16_range, int32_range, int64_range, uint8_range, uint16_range,
  uint32_range, uint64_range,
}
use go_restconf.Common.{
  bytes_eq, bytes_eq_iff, Bytes, All, Bool-cases, pos, negsuc, ℕ, ◌-◌, ◌^◌, ◌≡◌, refl, ◌∙◌, inl,
  inr, Option, some, List, [], ◌∷◌,
}

-- The name of each kind is that of the kind, and of no other.
pub type_kind_from_name-type_kind_to_name :
    (k : TypeKind) → get (type_kind_to_name k) type_kind_from_name ≡ some k
unfolding get type_kind_from_name type_kind_to_name
type_kind_from_name-type_kind_to_name TypeKind.y_none = refl
type_kind_from_name-type_kind_to_name TypeKind.y_int8 = refl
type_kind_from_name-type_kind_to_name TypeKind.y_int16 = refl
type_kind_from_name-type_kind_to_name TypeKind.y_int32 = refl
type_kind_from_name-type_kind_to_name TypeKind.y_int64 = refl
type_kind_from_name-type_kind_to_name TypeKind.y_uint8 = refl
type_kind_from_name-type_kind_to_name TypeKind.y_uint16 = refl
type_kind_from_name-type_kind_to_name TypeKind.y_uint32 = refl
type_kind_from_name-type_kind_to_name TypeKind.y_uint64 = refl
type_kind_from_name-type_kind_to_name TypeKind.y_binary = refl
type_kind_from_name-type_kind_to_name TypeKind.y_bits = refl
type_kind_from_name-type_kind_to_name TypeKind.y_bool = refl
type_kind_from_name-type_kind_to_name TypeKind.y_decimal64 = refl
type_kind_from_name-type_kind_to_name TypeKind.y_empty = refl
type_kind_from_name-type_kind_to_name TypeKind.y_enum = refl
type_kind_from_name-type_kind_to_name TypeKind.y_identityref = refl
type_kind_from_name-type_kind_to_name TypeKind.y_instance_identifier = refl
type_kind_from_name-type_kind_to_name TypeKind.y_leafref = refl
type_kind_from_name-type_kind_to_name TypeKind.y_string = refl
type_kind_from_name-type_kind_to_name TypeKind.y_union = refl

ToNames : List (Bytes × TypeKind) → Type 0
ToNames = All (λ a. type_kind_to_name a.1 ≡ a.0)

names_back : ToNames type_kind_from_name
unfolding ToNames type_kind_from_name type_kind_to_name
names_back = (
  refl,
  (
    refl,
    (
      refl,
      (
        refl,
        (
          refl,
          (
            refl,
            (
              refl,
              (
                refl,
                (
                  refl,
                  (
                    refl,
                    (
                      refl,
                      (refl, (refl, (refl, (refl, (refl, (refl, (refl, (refl, (refl, tt))))))))),
                    ),
                  ),
                ),
              ),
            ),
          ),
        ),
      ),
    ),
  ),
)

kind_some : {i k : TypeKind} → some i ≡ some k → i ≡ k
kind_some h = cc

get_all :
    (m : List (Bytes × TypeKind)) (s : Bytes) (k : TypeKind)
    → ToNames m
    → get s m ≡ some k
    → type_kind_to_name k ≡ s
unfolding ToNames get
get_all [] s k h q = absurd (cc)
get_all ((j, i) ∷ m) s k (e, h) q = elim (Bool-cases (bytes_eq j s)) [
  | inl same ↦ let f : i ≡ k = kind_some (rw same at q) in rw (← f) (e ∙ (bytes_eq_iff j s).0 same)
  | inr other ↦ get_all m s k h (rw other at q)
]

-- A text that is the name of a kind is the one that the kind has.
pub type_kind_to_name-type_kind_from_name :
    (s : Bytes) (k : TypeKind) → get s type_kind_from_name ≡ some k → type_kind_to_name k ≡ s
type_kind_to_name-type_kind_from_name s k h = get_all type_kind_from_name s k names_back h

pub data Width : Type 0 where
  w8 w16 w32 w64 : Width

abbrev pub bits : Width → ℕ
bits w8 = 8
bits w16 = 16
bits w32 = 32
bits w64 = 64

abbrev pub signed_text : Width → Bytes
signed_text w8 = int8_range
signed_text w16 = int16_range
signed_text w32 = int32_range
signed_text w64 = int64_range

abbrev pub unsigned_text : Width → Bytes
unsigned_text w8 = uint8_range
unsigned_text w16 = uint16_range
unsigned_text w32 = uint32_range
unsigned_text w64 = uint64_range

abbrev pub interval : Number → Number → Option YangRange
interval lo hi = some (record { min = lo; max = hi } ∷ [])

-- The ranges of the integer types are those of the two's complement and of the unsigned numbers of
-- their widths.
pub must_parse_ranges_widths :
    (w : Width)
    → (must_parse_ranges (signed_text w)
        ≡ interval
            (from_int (negsuc (2 ^ (bits w - 1) - 1)))
            (from_int (pos (2 ^ (bits w - 1) - 1))))
      × (must_parse_ranges (unsigned_text w) ≡ interval (from_uint 0) (from_uint (2 ^ bits w - 1)))
unfolding must_parse_ranges parse_ranges split parse_number trim_space parse_uint less from_int
    less_magnitude trunc pow10 from_uint
must_parse_ranges_widths w8 = (refl, refl)
must_parse_ranges_widths w16 = (refl, refl)
must_parse_ranges_widths w32 = (refl, refl)
must_parse_ranges_widths w64 = (refl, refl)
