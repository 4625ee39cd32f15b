-- ===== src/Job/Payload.antt =====
-- jobpayload/payload.go. `to_int` is the conversion of a float64 that is a whole number to an int,
-- which Go leaves to the machine outside the range of an int.
use synapse_go.Base.{
  ◌-◌, ◌^◌, Bool, ◌&&◌, Option, none, some, if◌then◌else◌, ℤ, pos, negsuc, leb_ℤ, nat_eq, Text,
  text_eq,
}

-- A value of a payload: `whole` and `fraction` are float64, the whole ones with their number;
-- `number` is a json.Number with what Int64 makes of it.
pub data Value : Type 0 where
  int : ℤ → Value
  int64 : ℤ → Value
  whole : ℤ → Value
  fraction : Value
  number : Option ℤ → Value
  another : Value

unfoldable pub in_float_range : ℤ → Bool
in_float_range n = leb_ℤ (negsuc (2 ^ 63 - 1)) n && leb_ℤ n (pos (2 ^ 63))

unfoldable pub int_or : Option ℤ → ℤ → ℤ
int_or none default = default
int_or (some n) default = n

unfoldable pub int_value : (ℤ → ℤ) → Option Value → ℤ → ℤ
int_value to_int none default = default
int_value to_int (some (int n)) default = n
int_value to_int (some (int64 n)) default = n
int_value to_int (some (whole n)) default = if in_float_range n then to_int n else default
int_value to_int (some fraction) default = default
int_value to_int (some (number parsed)) default = int_or parsed default
int_value to_int (some another) default = default

unfoldable pub payload_int : (ℤ → ℤ) → Option (Text → Option Value) → Text → ℤ → ℤ
payload_int to_int none key default = default
payload_int to_int (some payload) key default = int_value to_int (payload key) default
