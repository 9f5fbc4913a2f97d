-- ===== src/Resp/Encode.antt =====
-- The reply encoders of src/protocol/RespParser.cpp.
use redis_cpp.Base.{List, [], ◌∷◌, ◌++◌, Bytes, ℤ, pos, codes, length}
use redis_cpp.Decimal.{to_string}

abbrev pub crlf : Bytes
crlf = 13 ∷ 10 ∷ []

unfoldable pub simple_string : Bytes → Bytes
simple_string s = b'+' ∷ (s ++ crlf)

unfoldable pub error : Bytes → Bytes
error msg = codes "-ERR " ++ (msg ++ crlf)

unfoldable pub integer : ℤ → Bytes
integer n = b':' ∷ (to_string n ++ crlf)

unfoldable pub bulk_string : Bytes → Bytes
bulk_string s = b'$' ∷ (to_string (pos (length s)) ++ (crlf ++ (s ++ crlf)))

unfoldable pub nil_bulk : Bytes
nil_bulk = codes "$-1" ++ crlf

-- for (item : items) r += bulk_string(item)
unfoldable pub bulk_strings : List Bytes → Bytes
bulk_strings [] = []
bulk_strings (item ∷ items) = bulk_string item ++ bulk_strings items

unfoldable pub array : List Bytes → Bytes
unfolding bulk_strings
array items = b'*' ∷ (to_string (pos (length items)) ++ (crlf ++ bulk_strings items))
