-- ===== src/Base/Text.antt =====
-- Texts as Python sees them: blank ones, prefixes, parts, and joined ones.
use Prim.Native.Char.{Char, code}
use Prim.Native.Nat.{ℕ}
use Prim.Native.String.{String}
use mathlib.Core.Path.{◌≡◌}
use mathlib.Core.Bool.{Bool, true, false, ◌&&◌, ◌||◌, not}
use mathlib.Core.List.{List, [], ◌∷◌}
use text.Mathlib.Text.{◌==◌ as str_eq}
use ckb_vm_sail_verify.Base.Tests.{leb, ◌==◌, if◌then◌else◌}

-- The code points that `str.strip` removes.
unfoldable pub is_space : ℕ → Bool
is_space c =
    leb 9 c && leb c 13
    || leb 28 c && leb c 32
    || c == 0x85
    || c == 0xa0
    || c == 0x1680
    || leb 0x2000 c && leb c 0x200a
    || c == 0x2028
    || c == 0x2029
    || c == 0x202f
    || c == 0x205f
    || c == 0x3000

-- not text.strip()
unfoldable pub is_blank : String → Bool
unfolding is_space
is_blank String.[] = true
is_blank (String.◌∷◌ c s) = is_space (code c) && is_blank s

-- text.startswith(prefix)
unfoldable pub starts_with : String → String → Bool
starts_with String.[] s = true
starts_with (String.◌∷◌ c p) String.[] = false
starts_with (String.◌∷◌ c p) (String.◌∷◌ d s) = code c == code d && starts_with p s

-- text.endswith(part)
unfoldable pub ends_with : String → String → Bool
ends_with part String.[] = str_eq part String.[]
ends_with part (String.◌∷◌ c s) = str_eq part (String.◌∷◌ c s) || ends_with part s

-- part in text
unfoldable pub occurs : String → String → Bool
unfolding starts_with
occurs part String.[] = starts_with part String.[]
occurs part (String.◌∷◌ c s) = starts_with part (String.◌∷◌ c s) || occurs part s

-- x + rest
unfoldable pub append : String → String → String
append String.[] rest = rest
append (String.◌∷◌ c x) rest = String.◌∷◌ c (append x rest)

-- ' '.join(xs)
unfoldable pub spaced : List String → String
unfolding append
spaced [] = String.[]
spaced (x ∷ []) = x
spaced (x ∷ y ∷ rest) = append x (append " " (spaced (y ∷ rest)))

-- where `str.splitlines` ends a line
unfoldable pub is_line_end : ℕ → Bool
is_line_end c =
    leb 10 c && leb c 13 || leb 28 c && leb c 30 || c == 0x85 || c == 0x2028 || c == 0x2029

-- text.splitlines()[0], for a text that is not empty
unfoldable pub first_line : String → String
unfolding is_line_end
first_line String.[] = String.[]
first_line (String.◌∷◌ c s) =
    let rest = first_line s in if is_line_end (code c) then String.[] else String.◌∷◌ c rest

-- text.lstrip()
unfoldable pub skip_spaces : String → String
skip_spaces String.[] = String.[]
skip_spaces (String.◌∷◌ c s) = if is_space (code c) then skip_spaces s else String.◌∷◌ c s

abbrev pub is_empty : String → Bool
is_empty String.[] = true
is_empty (String.◌∷◌ c s) = false

-- text.rstrip()
unfoldable pub trim_end : String → String
trim_end String.[] = String.[]
trim_end (String.◌∷◌ c s) =
    let rest = trim_end s in
    if is_empty rest && is_space (code c) then String.[] else String.◌∷◌ c rest

-- text.strip()
abbrev pub strip : String → String
strip s = trim_end (skip_spaces s)

abbrev pub push : Char → List String → List String
push c [] = String.◌∷◌ c String.[] ∷ []
push c (x ∷ xs) = String.◌∷◌ c x ∷ xs

-- A carriage return and the line feed after it end one line.
abbrev pub is_pair : ℕ → String → Bool
is_pair c String.[] = false
is_pair c (String.◌∷◌ d s) = c == 13 && code d == 10

-- text.splitlines()
unfoldable pub lines : String → List String
unfolding is_line_end
lines String.[] = []
lines (String.◌∷◌ c s) =
    let rest = lines s in
    if is_line_end (code c)
    then if is_pair (code c) s then rest else String.[] ∷ rest
    else push c rest

abbrev pub starts_word : String → Bool
starts_word String.[] = false
starts_word (String.◌∷◌ c s) = not (is_space (code c))

-- text.split()
unfoldable pub words : String → List String
words String.[] = []
words (String.◌∷◌ c s) =
    let rest = words s in
    if is_space (code c)
    then rest
    else if starts_word s
    then push c rest
    else String.◌∷◌ c String.[] ∷ rest

pub append-injective : (x a b : String) → append x a ≡ append x b → a ≡ b
unfolding append
append-injective String.[] a b h = h
append-injective (String.◌∷◌ c x) a b h = append-injective x a b (cc h)
