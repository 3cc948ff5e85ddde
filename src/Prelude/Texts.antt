-- ===== src/Prelude/Texts.antt =====
-- Texts as JavaScript's `trim` reads them: without the white space at both ends.
use Prim.Native.Char.{Char, code}
use Prim.Native.String.{String, [], ◌∷◌}
use mathlib.Core.Bool.{Bool, ◌&&◌, ◌||◌}
use gooseherd.Prelude.Tests.{nat_eq, leb, if◌then◌else◌}

abbrev is_space : Char → Bool
is_space c =
    let n = code c in
    (leb 9 n && leb n 13)
    || (nat_eq n 32
        || (nat_eq n 160
            || (nat_eq n 5760
                || ((leb 8192 n && leb n 8202)
                    || (nat_eq n 8232
                        || (nat_eq n 8233
                            || (nat_eq n 8239
                                || (nat_eq n 8287 || (nat_eq n 12288 || nat_eq n 65279)))))))))

unfoldable pub trim_start : String → String
trim_start [] = []
trim_start (c ∷ s) = let rest = trim_start s in if is_space c then rest else c ∷ s

abbrev space_or_cons : Char → String → String
space_or_cons c [] = if is_space c then [] else c ∷ []
space_or_cons c (d ∷ s) = c ∷ d ∷ s

unfoldable pub trim_end : String → String
trim_end [] = []
trim_end (c ∷ s) = space_or_cons c (trim_end s)

unfoldable pub trim : String → String
unfolding trim_start trim_end
trim s = trim_end (trim_start s)
