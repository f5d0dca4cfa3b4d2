-- ===== src/Config.antt =====
-- soaagent/conf.c: `get_config_item_int`, and `parse_addr` of soaagent/util.c, which reads the address
-- that the agent listens on. What iniparser finds for an item is a parameter.
pub mod Numbers
pub mod Substitute
pub mod Replacing
pub mod Delivery
mod Examples
use ddmframework.Common.{
  ℕ, ◌+◌, ◌-◌, ◌*◌, ◌%◌, ◌^◌, Bool, true, false, ◌&&◌, ◌||◌, List, [], ◌∷◌, ◌++◌, Option, none,
  some, length, leb, ltb, ◌==◌, if◌then◌else◌,
}
use ddmframework.Conn.{snprintf_s}

-- `atoi` of the C library, which is `strtol` cut to an `int`, as the 32 bits of the `int`: a number
-- that no `long` holds counts as the greatest or the least one.
unfoldable pub digits_value : ℕ → List ℕ → ℕ
digits_value acc [] = acc
digits_value acc (d ∷ s) =
    let rest = digits_value (acc * 10 + (d - b'0')) s in
    if leb b'0' d && leb d b'9' then rest else acc

unfoldable pub at_most : (bound : ℕ) → ℕ → ℕ
at_most bound n = if ltb bound n then bound else n

unfoldable pub signed_value : List ℕ → ℕ
unfolding digits_value at_most
signed_value [] = 0
signed_value (c ∷ s) =
    if c == b'-'
    then (2 ^ 32 - at_most (2 ^ 63) (digits_value 0 s) % 2 ^ 32) % 2 ^ 32
    else if c == b'+'
    then at_most (2 ^ 63 - 1) (digits_value 0 s) % 2 ^ 32
    else at_most (2 ^ 63 - 1) (digits_value 0 (c ∷ s)) % 2 ^ 32

unfoldable pub atoi : List ℕ → ℕ
unfolding signed_value
atoi [] = 0
atoi (c ∷ s) =
    let rest = atoi s in if c == b' ' || (leb 9 c && leb c 13) then rest else signed_value (c ∷ s)

-- `strtok_r` with the delimiter `*`, from a token on that has begun; no token is empty.
unfoldable pub tokens : (token : List ℕ) → List ℕ → List (List ℕ)
tokens [] [] = []
tokens (t ∷ token) [] = (t ∷ token) ∷ []
tokens [] (c ∷ s) =
    let next = tokens [] s in let begun = tokens (c ∷ []) s in if c == b'*' then next else begun
tokens (t ∷ token) (c ∷ s) =
    let next = tokens [] s in
    let longer = tokens (t ∷ (token ++ c ∷ [])) s in
    if c == b'*' then (t ∷ token) ∷ next else longer

-- The loop over the factors, in `int`.
unfoldable pub multiply : ℕ → List (List ℕ) → ℕ
unfolding atoi
multiply result_value [] = result_value
multiply result_value (result ∷ results) = multiply (result_value * atoi result % 2 ^ 32) results

-- The value is copied into 200 bytes; one that leaves no NUL there is a fault.
unfoldable pub get_config_item_int : (value : Option (List ℕ)) → (default_value : ℕ) → Option ℕ
unfolding multiply tokens
get_config_item_int none default_value = some default_value
get_config_item_int (some value) default_value =
    if ltb (length value) 200 then some (multiply 1 (tokens [] value)) else none

-- `strchr` for a colon: what stands before it and after it.
unfoldable pub split_colon : (before : List ℕ) → List ℕ → Option (List ℕ × List ℕ)
split_colon before [] = none
split_colon before (c ∷ s) =
    let rest = split_colon (before ++ c ∷ []) s in if c == b':' then some (before, s) else rest

-- PATH_MAX
abbrev pub path_max : ℕ
path_max = 4096

-- The host, cut to its buffer, and the port; `none` is the result -1. The search begins at the
-- second byte, so the address is not empty.
unfoldable pub parse_path : (path : List ℕ) → (ip_buf_len : ℕ) → Option (List ℕ × ℕ)
unfolding split_colon atoi
parse_path [] ip_buf_len = none
parse_path (c ∷ path) ip_buf_len = elim (split_colon (c ∷ []) path) [
  | none ↦ none
  | some (ip, port) ↦ some (snprintf_s ip_buf_len ip, atoi port)
]

unfoldable pub parse_addr : (addr : List ℕ) → (ip_buf_len : ℕ) → Option (List ℕ × ℕ)
unfolding parse_path
parse_addr addr ip_buf_len = parse_path (snprintf_s path_max addr) ip_buf_len
