-- ===== src/Gateway/Cookies.antt =====
-- `readCookie` of apps/gateway/src/auth/jwt.guard.ts. A text is the list of its UTF-16 code units.
use crispy_enigma.Base.{
  ℕ, List, [], ◌∷◌, ◌++◌, Bool, true, false, ◌&&◌, ◌||◌, Option, none, some, if◌then◌else◌, ◌==◌,
  leb, includes,
}

abbrev pub Text : Type 0
Text = List ℕ

-- The units `;`, `=` and the space
abbrev pub semicolon : ℕ
semicolon = 59

abbrev pub equals : ℕ
equals = 61

abbrev pub space : ℕ
space = 32

abbrev pub same_text : Text → Text → Bool
same_text [] [] = true
same_text (u ∷ us) (v ∷ vs) = let rest = same_text us vs in (u == v) && rest
same_text [] (v ∷ vs) = false
same_text (u ∷ us) [] = false

abbrev pub prepend : ℕ → List Text → List Text
prepend c [] = []
prepend c (part ∷ parts) = (c ∷ part) ∷ parts

-- `text.split(separator)` at a single unit
unfoldable pub split_on : ℕ → Text → List Text
split_on separator [] = [] ∷ []
split_on separator (c ∷ cs) =
    let rest = split_on separator cs in if c == separator then [] ∷ rest else prepend c rest

-- `parts.join(separator)` with a single unit
unfoldable pub join : ℕ → List Text → Text
join separator [] = []
join separator (part ∷ []) = part
join separator (part ∷ next ∷ parts) = part ++ (separator ∷ join separator (next ∷ parts))

-- The white space and line ends that `trim` takes off.
abbrev pub is_space : ℕ → Bool
is_space c =
    (leb 9 c && leb c 13)
    || ((leb 8192 c && leb c 8202)
        || includes (32 ∷ 160 ∷ 5760 ∷ 8232 ∷ 8233 ∷ 8239 ∷ 8287 ∷ 12288 ∷ 65279 ∷ []) c)

unfoldable pub trim_start : Text → Text
trim_start [] = []
trim_start (c ∷ cs) = let rest = trim_start cs in if is_space c then rest else c ∷ cs

abbrev pub keep_end : ℕ → Text → Text
keep_end c [] = if is_space c then [] else c ∷ []
keep_end c (d ∷ ds) = c ∷ d ∷ ds

unfoldable pub trim_end : Text → Text
trim_end [] = []
trim_end (c ∷ cs) = keep_end c (trim_end cs)

unfoldable pub trim : Text → Text
trim text = trim_end (trim_start text)

-- `[key, ...rest]`, and the rest joined again if the key is the name
abbrev pub value_if : Text → List Text → Option Text
value_if name [] = none
value_if name (key ∷ rest) = if same_text key name then some (join equals rest) else none

abbrev pub or_next : Option Text → Option Text → Option Text
or_next none next = next
or_next (some value) next = some value

unfoldable pub find_cookie : Text → List Text → Option Text
find_cookie name [] = none
find_cookie name (part ∷ parts) =
    or_next (value_if name (split_on equals (trim part))) (find_cookie name parts)

-- `readCookie`; an absent header and an empty one have no cookies.
unfoldable pub read_cookie : Option Text → Text → Option Text
read_cookie none name = none
read_cookie (some []) name = none
read_cookie (some (c ∷ cs)) name = find_cookie name (split_on semicolon (c ∷ cs))
