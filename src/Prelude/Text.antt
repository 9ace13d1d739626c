-- ===== src/Prelude/Text.antt =====
-- What the programs use of Go's packages `strings` and `path`. Letters outside ASCII are left as they
-- are: none of them is a letter of another case of the texts that the programs compare.
use dra_rt_driver.Prelude.Tests.{leb, nat_beq, ◌==◌, string_key, if◌then◌else◌}
use Prim.Native.Nat.{ℕ, ◌-◌}
use Prim.Native.Char.{Char, code}
use Prim.Native.String.{String, [], ◌∷◌, char_at, ◌++◌ as text_append}
use mathlib.Core.Bool.{◌&&◌, ◌||◌}
use mathlib.Core.List.{List, [], ◌∷◌}

abbrev lower_char : Char → Char
lower_char c =
    if leb 65 (code c) && leb (code c) 90
    then char_at "abcdefghijklmnopqrstuvwxyz" (code c - 65)
    else c

abbrev upper_char : Char → Char
upper_char c =
    if leb 97 (code c) && leb (code c) 122
    then char_at "ABCDEFGHIJKLMNOPQRSTUVWXYZ" (code c - 97)
    else c

-- `strings.ToLower`
unfoldable pub to_lower : String → String
to_lower [] = []
to_lower (c ∷ s) = lower_char c ∷ to_lower s

-- `strings.ToUpper`
unfoldable pub to_upper : String → String
to_upper [] = []
to_upper (c ∷ s) = upper_char c ∷ to_upper s

-- `strings.ReplaceAll(s, "-", "_")`
unfoldable pub dashes_to_underscores : String → String
dashes_to_underscores [] = []
dashes_to_underscores (c ∷ s) = (if nat_beq (code c) 45 then "_" else c) ∷ dashes_to_underscores s

-- The parts of a text between the characters with this number.
unfoldable pub split_at : ℕ → String → String → List String
split_at n part [] = part ∷ []
split_at n part (c ∷ s) =
    let here = split_at n "" s in
    let on = split_at n (text_append part (c ∷ [])) s in
    if nat_beq (code c) n then part ∷ here else on

-- The elements of a rooted path, the last one first, after `path.Clean`.
unfoldable pub clean_elements : List String → List String → List String
clean_elements stack [] = stack
clean_elements [] (e ∷ es) =
    let skip = clean_elements [] es in
    let push = clean_elements (e ∷ []) es in if e == "" || e == "." || e == ".." then skip else push
clean_elements (top ∷ stack) (e ∷ es) =
    let skip = clean_elements (top ∷ stack) es in
    let pop = clean_elements stack es in
    let push = clean_elements (e ∷ top ∷ stack) es in
    if e == "" || e == "." then skip else if e == ".." then pop else push

unfoldable pub rooted : List String → String → String
rooted [] path = path
rooted (e ∷ es) path = rooted es (text_append "/" (text_append e path))

abbrev or_root : String → String
or_root path = if path == "" then "/" else path

-- `path.Join` of a rooted path and a text.
unfoldable pub join_path : String → String → String
unfolding split_at clean_elements rooted
join_path base name =
    or_root
      (rooted (clean_elements [] (split_at 47 "" (text_append base (text_append "/" name)))) "")
