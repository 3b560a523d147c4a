-- ===== src/Toml/Examples.antt =====
-- Strings and keys as the writer puts them out.
use code_analyzer.Prelude.{◌≡◌, refl, some, [], ◌∷◌, ◌++◌}
use code_analyzer.Prelude.Text.{Text, codes}
use code_analyzer.Toml.{string_text, key_text}
use code_analyzer.Toml.Read.{read, between, read-string_text}

abbrev odd : Text
odd = 34 ∷ 92 ∷ 10 ∷ 1 ∷ 127 ∷ 8364 ∷ []

odd_written : string_text odd ≡ codes "\"\\\"\\\\\\n\\u0001\\u007f" ++ 8364 ∷ 34 ∷ []
unfolding string_text
odd_written = refl

-- A key that ends in a line break is taken for a bare one, and written with the line break.
break_in_key : key_text (codes "a" ++ 10 ∷ []) ≡ codes "a" ++ 10 ∷ []
unfolding key_text
break_in_key = refl

read-string_text_example :
    (body : Text) × ((string_text odd ++ codes ", 1" ≡ 34 ∷ body)
      × (read between body ≡ some (odd, codes ", 1")))
read-string_text_example =
    read-string_text odd (codes ", 1") (refl, (refl, (refl, (refl, (refl, (refl, tt))))))
