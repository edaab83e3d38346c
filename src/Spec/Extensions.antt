-- ===== src/Spec/Extensions.antt =====
-- spec/extensions.rs: the type codes of values, and timestamped values. `FrcType` is the external
-- crate's enum; its constructors are those that the matches of this file list in full, and of a
-- struct descriptor only `type_str` is read.
use frclib_nettables.Base.{ℕ, ◌≡◌, refl, Option, none, some, ◌++◌, arith, ◌==◌, if◌then◌else◌}
use frclib_nettables.Base.Text.{Text, codes}

pub data FrcType : Type 0 where
  boolean double int float string raw void : FrcType
  struct struct_array : Text → FrcType
  boolean_array double_array int_array float_array string_array : FrcType

unfoldable pub as_u8 : FrcType → ℕ
as_u8 boolean = 0
as_u8 double = 1
as_u8 int = 2
as_u8 float = 3
as_u8 string = 4
as_u8 raw = 5
as_u8 void = 5
as_u8 (struct desc) = 5
as_u8 (struct_array desc) = 5
as_u8 boolean_array = 16
as_u8 double_array = 17
as_u8 int_array = 18
as_u8 float_array = 19
as_u8 string_array = 20

unfoldable pub from_u8 : ℕ → Option FrcType
from_u8 byte =
    if byte == 0
    then some boolean
    else if byte == 1
    then some double
    else if byte == 2
    then some int
    else if byte == 3
    then some float
    else if byte == 4
    then some string
    else if byte == 5
    then some raw
    else if byte == 16
    then some boolean_array
    else if byte == 17
    then some double_array
    else if byte == 18
    then some int_array
    else if byte == 19
    then some float_array
    else if byte == 20
    then some string_array
    else none

unfoldable pub stringify : FrcType → Text
stringify boolean = codes "boolean"
stringify double = codes "double"
stringify int = codes "int"
stringify float = codes "float"
stringify string = codes "string"
stringify raw = codes "raw"
stringify void = codes "raw"
stringify (struct type_str) = type_str
stringify (struct_array type_str) = type_str ++ codes "[]"
stringify boolean_array = codes "boolean[]"
stringify double_array = codes "double[]"
stringify int_array = codes "int[]"
stringify float_array = codes "float[]"
stringify string_array = codes "string[]"

-- `FrcTimestampedValue` of the external crate, over an unknown type of values.
pub record TimestampedValue (V : Type 0) : Type 0 where
  pub timestamp : ℕ
  pub value : V

unfoldable pub replace_inplace :
    {V : Type 0} → TimestampedValue V → TimestampedValue V → TimestampedValue V
replace_inplace this other = record { timestamp = other.timestamp; value = other.value }

-- What is left of a type once it has gone over the wire as its code.
abbrev pub wire_type : FrcType → FrcType
wire_type void = raw
wire_type (struct type_str) = raw
wire_type (struct_array type_str) = raw
wire_type t = t

-- Decoding the code of a type gives that type back, save that void, structs and arrays of structs
-- are decoded as raw.
from_u8-as_u8 : (t : FrcType) → from_u8 (as_u8 t) ≡ some (wire_type t)
unfolding from_u8 as_u8
from_u8-as_u8 boolean = refl
from_u8-as_u8 t = refl

-- A byte that decodes to a type is the code of that type.
as_u8-from_u8 : (byte : ℕ) (t : FrcType) → from_u8 byte ≡ some t → as_u8 t ≡ byte
unfolding from_u8 as_u8
as_u8-from_u8 byte t h = ground arith
