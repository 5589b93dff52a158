-- ===== src/Strings/Tests.antt =====
-- The strings on concrete values: strReplace of "aa" in "aaaba", and Strtok.
use xx_chat.Base.{zero, ◌≡◌, refl, true, false, some, [], ◌∷◌}
use xx_chat.Strings.{
  matches, find_at, find, replace_loop, str_replace, start_with_prefix_string,
  end_with_suffix_string, find_first_of, strtok_loop, strtok,
}
use xx_chat.Strings.Replace.{replaced, str_replace_lem}
use xx_chat.Strings.Tokens.{words, strtok_lem}

str_replace_lem_example :
    str_replace (97 ∷ 97 ∷ 97 ∷ 98 ∷ 97 ∷ []) (97 ∷ 97 ∷ []) (97 ∷ [])
    ≡ some (replaced (97 ∷ 97 ∷ []) (97 ∷ []) zero (97 ∷ 97 ∷ 97 ∷ 98 ∷ 97 ∷ []))
str_replace_lem_example = str_replace_lem (97 ∷ 97 ∷ 97 ∷ 98 ∷ 97 ∷ []) (97 ∷ []) 97 (97 ∷ [])

not_twice :
    str_replace (97 ∷ 97 ∷ 97 ∷ 98 ∷ 97 ∷ []) (97 ∷ 97 ∷ []) (97 ∷ [])
    ≡ some (97 ∷ 97 ∷ 98 ∷ 97 ∷ [])
unfolding str_replace replace_loop find find_at matches
not_twice = refl

strtok_lem_example :
    strtok (44 ∷ 97 ∷ 44 ∷ 44 ∷ 98 ∷ 99 ∷ []) (44 ∷ 59 ∷ [])
    ≡ some (words (44 ∷ 59 ∷ []) [] (44 ∷ 97 ∷ 44 ∷ 44 ∷ 98 ∷ 99 ∷ []))
strtok_lem_example = strtok_lem (44 ∷ 97 ∷ 44 ∷ 44 ∷ 98 ∷ 99 ∷ []) (44 ∷ 59 ∷ [])

two_words :
    strtok (44 ∷ 97 ∷ 44 ∷ 44 ∷ 98 ∷ 99 ∷ []) (44 ∷ 59 ∷ [])
    ≡ some ((97 ∷ []) ∷ (98 ∷ 99 ∷ []) ∷ [])
unfolding strtok strtok_loop find_first_of
two_words = refl

affixes :
    (start_with_prefix_string (97 ∷ 98 ∷ 99 ∷ []) (97 ∷ 98 ∷ []) ≡ true)
    × (end_with_suffix_string (97 ∷ 98 ∷ 99 ∷ []) (98 ∷ 99 ∷ []) ≡ true)
    × (end_with_suffix_string (97 ∷ 98 ∷ []) (97 ∷ 97 ∷ 98 ∷ []) ≡ false)
unfolding start_with_prefix_string end_with_suffix_string matches
affixes = (refl, refl, refl)
