-- ===== src/Http/Text.antt =====
-- The text functions of http.cpp and the operations of `std::string_view` that they use.
use amgi_net_tools.Base.{
  ℕ, suc, ◌+◌, ◌-◌, ◌%◌, ◌^◌, Bool, true, false, ◌&&◌, ◌||◌, List, [], ◌∷◌, ◌++◌, Option, none,
  some, Bytes, length, take, drop, leb, ◌==◌, if◌then◌else◌, Result, ok, fault, over_read,
  length_error,
}

unfoldable pub is_one_of : Bytes → ℕ → Bool
is_one_of [] c = false
is_one_of (d ∷ ds) c = d == c || is_one_of ds c

-- `if ((next_pos - cur_pos) > 0) items.emplace_back(…)`
unfoldable pub emit : Bytes → List Bytes → List Bytes
emit [] items = items
emit (c ∷ cs) items = (c ∷ cs) ∷ items

-- The loop of `split` from `cur_pos` on: `item` is the text between `cur_pos` and the place looked at.
unfoldable pub split_from : Bytes → Bytes → Bytes → List Bytes
unfolding is_one_of emit
split_from delimeter item [] = emit item []
split_from delimeter item (c ∷ cs) =
    let hit = is_one_of delimeter c in
    let rest = split_from delimeter (if hit then [] else item ++ c ∷ []) cs in
    if hit then emit item rest else rest

unfoldable pub split : Bytes → Bytes → List Bytes
unfolding split_from
split str delimeter = split_from delimeter [] str

unfoldable pub starts_with : Bytes → Bytes → Bool
starts_with [] str = true
starts_with (p ∷ ps) [] = false
starts_with (p ∷ ps) (c ∷ cs) = p == c && starts_with ps cs

one_further : Option ℕ → Option ℕ
one_further none = none
one_further (some n) = some (suc n)

-- `str.find(pattern)`: the place of the first occurrence.
unfoldable pub find : Bytes → Bytes → Option ℕ
unfolding starts_with one_further
find pattern [] = if starts_with pattern [] then some 0 else none
find pattern (c ∷ cs) =
    let rest = one_further (find pattern cs) in
    if starts_with pattern (c ∷ cs) then some 0 else rest

-- A `std::string_view`: the text from its first byte to the end of the line that it was taken from, and
-- its size, which may say more than is there.
pub record StringView : Type 0 where
  pub text : Bytes
  pub size : ℕ

abbrev pub view : Bytes → StringView
view text = record { text = text; size = length text }

-- `std::string{v}`. A size that does not fit the line is 2^64 - 1 here, beyond any
-- `max_size()`, and the constructor throws before it reads.
unfoldable pub to_string : StringView → Result Bytes
to_string v = if leb v.size (length v.text) then ok (take v.size v.text) else fault length_error

-- The bytes of a view that is read.
unfoldable pub read_view : StringView → Result Bytes
read_view v = if leb v.size (length v.text) then ok (take v.size v.text) else fault over_read

unfoldable pub value_at : Bytes → Bytes → Option ℕ → StringView
value_at name str none = view []
value_at name str (some pos) = record {
  text = drop (length name + pos + 1) str;
  size = (length str + 2 ^ 64 - length name - pos - 1) % 2 ^ 64;
}

-- The sizes are size_t, so that the difference wraps around where the name ends the line.
unfoldable pub get_http_header_value : Bytes → Bytes → StringView
unfolding value_at find
get_http_header_value name str = value_at name str (find name str)
