-- ===== src/Strings.antt =====
-- The strings of xx_chat_server/src/base: string_util.h and Strtok of utils.h.
-- A text is its list of bytes. A loop runs on fuel, and `none` is a loop that needs more. Sizes stay
-- below 2 ^ 64. The streams of stringToNumber and numberToString, realpath, and the random numbers and
-- the clock of utils are left out. `tolower` and `toupper` are those of the C locale.
pub mod Replace
pub mod Tokens
mod Tests
use xx_chat.Base.{
  ℕ, zero, suc, ◌+◌, ◌-◌, Bool, true, false, ◌&&◌, ◌||◌, Option, none, some, List, [], ◌∷◌, ◌++◌,
  length, take, drop, map, ltb, leb, ◌==◌, if◌then◌else◌,
}
use xx_chat.Base.Options.{◌>>=◌, found}

unfoldable pub str_to_lower : List ℕ → List ℕ
str_to_lower s = map (λ c. if leb 65 c && leb c 90 then c + 32 else c) s

unfoldable pub str_to_upper : List ℕ → List ℕ
str_to_upper s = map (λ c. if leb 97 c && leb c 122 then c - 32 else c) s

-- Whether a text begins with the pattern.
unfoldable pub matches : List ℕ → List ℕ → Bool
matches [] xs = true
matches (p ∷ ps) [] = false
matches (p ∷ ps) (x ∷ xs) = (p == x) && matches ps xs

-- `std::string::find` in a text that begins at the index `at_`.
unfoldable pub find_at : List ℕ → List ℕ → ℕ → Option ℕ
unfolding matches
find_at src [] at_ = if matches src [] then some at_ else none
find_at src (x ∷ xs) at_ =
    let rest = find_at src xs (at_ + 1) in if matches src (x ∷ xs) then some at_ else rest

unfoldable pub find : List ℕ → List ℕ → ℕ → Option ℕ
unfolding find_at
find str src pos = if leb pos (length str) then find_at src (drop pos str) pos else none

-- `std::string::replace`
abbrev pub replace : List ℕ → ℕ → ℕ → List ℕ → List ℕ
replace str pos n dst = take pos str ++ (dst ++ drop (pos + n) str)

-- The loop of strReplace, from `pos`.
unfoldable pub replace_loop : ℕ → List ℕ → List ℕ → List ℕ → ℕ → Option (List ℕ)
unfolding find
replace_loop zero str src dst pos = none
replace_loop (suc fuel) str src dst pos =
    found (find str src pos) (some str)
      (λ at_. replace_loop fuel (replace str at_ (length src) dst) src dst (at_ + length dst))

-- As many turns as the text has bytes, and one more.
unfoldable pub str_replace : List ℕ → List ℕ → List ℕ → Option (List ℕ)
unfolding replace_loop
str_replace str src dst = replace_loop (length str + 1) str src dst 0

abbrev pub equal : List ℕ → List ℕ → Bool
equal xs ys = (length xs == length ys) && matches xs ys

unfoldable pub start_with_prefix_string : List ℕ → List ℕ → Bool
unfolding matches
start_with_prefix_string str prefix =
    leb (length prefix) (length str) && equal (take (length prefix) str) prefix

unfoldable pub end_with_suffix_string : List ℕ → List ℕ → Bool
unfolding matches
end_with_suffix_string str suffix =
    leb (length suffix) (length str) && equal (drop (length str - length suffix) str) suffix

abbrev pub is_one_of : List ℕ → ℕ → Bool
is_one_of [] c = false
is_one_of (d ∷ ds) c = (c == d) || is_one_of ds c

-- `find_first_of` in a text that begins at the index `at_`.
unfoldable pub find_first_of : List ℕ → List ℕ → ℕ → Option ℕ
find_first_of delims [] at_ = none
find_first_of delims (x ∷ xs) at_ =
    let rest = find_first_of delims xs (at_ + 1) in if is_one_of delims x then some at_ else rest

-- The loop of Strtok, from `start`.
unfoldable pub strtok_loop : ℕ → List ℕ → List ℕ → ℕ → Option (List (List ℕ))
unfolding find_first_of
strtok_loop zero s delims start = none
strtok_loop (suc fuel) s delims start =
    found (find_first_of delims (drop start s) start)
      (some (if ltb start (length s) then drop start s ∷ [] else []))
      (λ pos. strtok_loop fuel s delims (pos + 1) >>= λ ret.
        some (if ltb start pos then take (pos - start) (drop start s) ∷ ret else ret))

unfoldable pub strtok : List ℕ → List ℕ → Option (List (List ℕ))
unfolding strtok_loop
strtok s delims = strtok_loop (length s + 1) s delims 0
