-- ===== src/Gate/Lines.antt =====
-- Lines of a text: `str.splitlines`, `(?m)^…$`, `in` and `str.count`.
use Prim.Native.Char.{code}
use devpath_shared.Base.{
  ℕ, zero, suc, ◌+◌, Bool, true, false, ◌&&◌, ◌||◌, Option, none, some, List, [], ◌∷◌, String, ◌<>◌,
  ◌==◌, leb, if◌then◌else◌,
}
use devpath_shared.Base.Text.{after_prefix}

-- The characters at which `str.splitlines` ends a line. The texts hold no `\r`.
abbrev pub is_break : ℕ → Bool
is_break c =
    (leb 10 c && leb c 13)
    || ((leb 0x1c c && leb c 0x1e) || (c == 0x85 || (c == 0x2028 || c == 0x2029)))

abbrev prepend : String → List String → List String
prepend s [] = s ∷ []
prepend s (line ∷ lines) = (s <> line) ∷ lines

-- `s.splitlines(keepends=True)`
unfoldable pub split_lines : String → List String
split_lines String.[] = []
split_lines (String.◌∷◌ c s) =
    let rest = split_lines s in
    if is_break (code c)
    then String.◌∷◌ c String.[] ∷ rest
    else prepend (String.◌∷◌ c String.[]) rest

-- A line without what ends it.
unfoldable pub chomp : String → String
chomp String.[] = String.[]
chomp (String.◌∷◌ c s) =
    let rest = chomp s in if is_break (code c) then String.[] else String.◌∷◌ c rest

-- The pieces between the characters `\n`: what `^` and `$` see in multi-line mode.
unfoldable pub lf_lines : String → List String
lf_lines String.[] = String.[] ∷ []
lf_lines (String.◌∷◌ c s) =
    let rest = lf_lines s in
    if code c == b'\n' then String.[] ∷ rest else prepend (String.◌∷◌ c String.[]) rest

abbrev pub is_some {ℓ} : {A : Type ℓ} → Option A → Bool
is_some none = false
is_some (some a) = true

-- `s.startswith(p)`
abbrev pub starts : String → String → Bool
starts p s = is_some (after_prefix p s)

-- `p in s`
unfoldable pub occurs : String → String → Bool
occurs p String.[] = starts p String.[]
occurs p (String.◌∷◌ c s) = starts p (String.◌∷◌ c s) || occurs p s

-- `s[n:]`
unfoldable pub drop_text : ℕ → String → String
drop_text zero s = s
drop_text (suc n) String.[] = String.[]
drop_text (suc n) (String.◌∷◌ c s) = drop_text n s

-- `len(s) - len(s.lstrip(" "))`
unfoldable pub indent : String → ℕ
indent String.[] = 0
indent (String.◌∷◌ c s) = let more = indent s in if code c == b' ' then suc more else 0

abbrev pub count_if : (String → Bool) → List String → ℕ
count_if p [] = 0
count_if p (s ∷ ss) = (if p s then 1 else 0) + count_if p ss

abbrev pub filter : (String → Bool) → List String → List String
filter p [] = []
filter p (s ∷ ss) = let rest = filter p ss in if p s then s ∷ rest else rest

-- `"".join(lines)`
abbrev pub join : List String → String
join [] = ""
join (s ∷ ss) = s <> join ss
