-- ===== src/Js/Trim.antt =====
-- `trim` and the case of ASCII letters.
use teslatlas_sdk_typescript.Prelude.{ℕ, ◌+◌, Bool, ◌&&◌, ◌||◌, [], ◌∷◌, leb, ◌==◌, if◌then◌else◌}
use teslatlas_sdk_typescript.Js.Text.{Text}

-- The white space of `trim`.
is_space : ℕ → Bool
is_space c =
    (leb 9 c && leb c 13)
    || (c == 32
        || (c == 160
            || (c == 5760
                || ((leb 8192 c && leb c 8202)
                    || (c == 8232
                        || (c == 8233
                            || (c == 8239 || (c == 8287 || (c == 12288 || c == 65279)))))))))

trim_start : Text → Text
unfolding is_space
trim_start [] = []
trim_start (c ∷ s) = if is_space c then trim_start s else c ∷ s

drop_trailing : ℕ → Text → Text
unfolding is_space
drop_trailing c [] = if is_space c then [] else c ∷ []
drop_trailing c (d ∷ s) = c ∷ d ∷ s

trim_end : Text → Text
unfolding drop_trailing
trim_end [] = []
trim_end (c ∷ s) = drop_trailing c (trim_end s)

unfoldable pub trim : Text → Text
unfolding trim_start trim_end
trim s = trim_end (trim_start s)

unfoldable pub lower : ℕ → ℕ
lower c = if leb b'A' c && leb c b'Z' then c + 32 else c
