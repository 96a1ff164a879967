-- ===== src/Common/Text.antt =====
-- The string operations of Python that the program uses.
use Prim.Native.Nat.{ℕ, zero, suc, ◌+◌, ◌/◌, ◌%◌}
use Prim.Native.Char.{code}
use Prim.Native.String.{String, ◌++◌ as ◌<>◌}
use mathlib.Core.Bool.{Bool, true, false, ◌&&◌, ◌||◌}
use mathlib.Core.Option.{Option, none, some}
use mathlib.Core.List.{List, [], ◌∷◌, map}
use resume_screening_service.Common.Tests.{leb, if◌then◌else◌}
use resume_screening_service.Common.Equality.{◌==◌, nat_eq, string_eq}

-- `sep.join(parts)`
unfoldable pub join : String → List String → String
join sep [] = ""
join sep (x ∷ []) = x
join sep (x ∷ y ∷ ys) = x <> (sep <> join sep (y ∷ ys))

-- The truth value of a text: only the empty one is false.
abbrev pub truthy : String → Bool
truthy s = if s == "" then false else true

-- The truth value of a text that may be `None`.
abbrev pub option_truthy : Option String → Bool
option_truthy none = false
option_truthy (some s) = truthy s

-- `s or default`
abbrev pub text_or : String → String → String
text_or s default = if truthy s then s else default

-- `s or default`, where `s` may be `None`
abbrev pub option_or : Option String → String → String
option_or none default = default
option_or (some s) default = text_or s default

-- `f"{s}"`, where `s` may be `None`
abbrev pub show_option : Option String → String
show_option none = "None"
show_option (some s) = s

-- `s[:n]`
unfoldable pub prefix : ℕ → String → String
prefix zero s = ""
prefix (suc n) String.[] = ""
prefix (suc n) (String.◌∷◌ c s) = String.◌∷◌ c (prefix n s)

-- `s.partition(" ")`, without the separator that it returns in the middle
unfoldable pub partition : String → String × String
partition String.[] = ("", "")
partition (String.◌∷◌ c s) =
    let rest = partition s in if code c == b' ' then ("", s) else (String.◌∷◌ c rest.0, rest.1)

abbrev pub codes : String → List ℕ
codes String.[] = []
codes (String.◌∷◌ c s) = code c ∷ codes s

-- `s.isascii()`
unfoldable pub is_ascii : String → Bool
is_ascii String.[] = true
is_ascii (String.◌∷◌ c s) = leb (code c) 127 && is_ascii s

abbrev pub lower_code : ℕ → ℕ
lower_code c = if leb b'A' c && leb c b'Z' then c + 32 else c

abbrev pub codes_eq : List ℕ → List ℕ → Bool
codes_eq [] [] = true
codes_eq (x ∷ xs) (y ∷ ys) = if x == y then codes_eq xs ys else false
codes_eq _ _ = false

-- `s.lower() == t`, for a `t` of ASCII letters none of which another character is lowered to
unfoldable pub lower_is : String → String → Bool
lower_is s t = codes_eq (map lower_code (codes s)) (codes t)

-- `str.isspace` of one character
abbrev is_space : ℕ → Bool
is_space c =
    (leb 9 c && leb c 13)
    || (leb 28 c && leb c 32)
    || c == 133
    || c == 160
    || c == 5760
    || (leb 8192 c && leb c 8202)
    || c == 8232
    || c == 8233
    || c == 8239
    || c == 8287
    || c == 12288

lstrip : String → String
lstrip String.[] = ""
lstrip (String.◌∷◌ c s) = let rest = lstrip s in if is_space (code c) then rest else String.◌∷◌ c s

rstrip : String → String
rstrip String.[] = ""
rstrip (String.◌∷◌ c s) =
    let rest = rstrip s in if is_space (code c) && rest == "" then "" else String.◌∷◌ c rest

-- `s.strip()`
unfoldable pub strip : String → String
unfolding lstrip rstrip
strip s = rstrip (lstrip s)

digit : ℕ → String
digit n =
    if n == 0
    then "0"
    else if n == 1
    then "1"
    else if n == 2
    then "2"
    else if n == 3
    then "3"
    else if n == 4
    then "4"
    else if n == 5
    then "5"
    else if n == 6
    then "6"
    else if n == 7
    then "7"
    else if n == 8
    then "8"
    else "9"

-- A number has no more digits than its value and one, which is the fuel.
decimal : ℕ → ℕ → String
decimal zero n = ""
decimal (suc fuel) n =
    let rest = decimal fuel (n / 10) <> digit (n % 10) in if leb n 9 then digit n else rest

-- `str(n)`
unfoldable pub show_ℕ : ℕ → String
unfolding decimal digit
show_ℕ n = decimal (suc n) n
