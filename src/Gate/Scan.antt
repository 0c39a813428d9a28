-- ===== src/Gate/Scan.antt =====
-- What `re` and `str.count` find in a text, from left to right and without overlaps, and the parts of
-- a rendered manifest. A matcher takes the text from a position on and returns what the match captures
-- and the text behind the match.
use Prim.Native.Char.{code}
use devpath_shared.Base.{
  ℕ, zero, suc, ◌-◌, Bool, true, false, ◌&&◌, ◌||◌, not, Option, none, some, List, [], ◌∷◌, String,
  ◌<>◌, ◌==◌, length, if◌then◌else◌,
}
use devpath_shared.Base.Text.{codes, after_prefix, is_space, is_empty}
use devpath_shared.Gate.Lines.{drop_text}

abbrev pub Matcher : Type 0
Matcher = String → Option (String × String)

abbrev pub size : String → ℕ
size s = length (codes s)

-- `re.findall`: matches are tried at every position or, under `^`, at the beginnings of lines; `skip`
-- characters are left of the last match. No matcher here matches the empty text.
unfoldable pub find_all : Bool → Matcher → ℕ → Bool → String → List String
find_all anywhere m skip at_line String.[] = []
find_all anywhere m zero at_line (String.◌∷◌ c s) =
    elim (if anywhere || at_line then m (String.◌∷◌ c s) else none) [
      | none ↦ find_all anywhere m 0 (code c == b'\n') s
      | some (group, rest) ↦ group ∷ find_all anywhere m (size s - size rest) (code c == b'\n') s
    ]
find_all anywhere m (suc skip) at_line (String.◌∷◌ c s) =
    find_all anywhere m skip (code c == b'\n') s

-- `re.findall(r"(?m)^…", s)`
abbrev pub find_lines : Matcher → String → List String
find_lines m s = find_all false m 0 true s

-- `s.count(word)`
abbrev pub count_text : String → String → ℕ
count_text word s = length (
    find_all true (λ t. elim (after_prefix word t) [ none ↦ none | some rest ↦ some (word, rest) ])
      0 true s)

-- The white space in front of a text, and the rest.
unfoldable pub spaces : String → String × String
spaces String.[] = (String.[], String.[])
spaces (String.◌∷◌ c s) =
    let rest = spaces s in
    if is_space (code c) then (String.◌∷◌ c rest.0, rest.1) else (String.[], String.◌∷◌ c s)

-- The text in front of the first white space, and the rest.
unfoldable pub token : String → String × String
token String.[] = (String.[], String.[])
token (String.◌∷◌ c s) =
    let rest = token s in
    if is_space (code c) then (String.[], String.◌∷◌ c s) else (String.◌∷◌ c rest.0, rest.1)

-- The text from its last line break on.
unfoldable pub last_break : String → Option String
last_break String.[] = none
last_break (String.◌∷◌ c s) = elim (last_break s) [
  | some t ↦ some t
  | none ↦ if code c == b'\n' then some (String.◌∷◌ c s) else none
]

-- `\s*$`: the white space must hold the end of a line or reach the end of the text, and the match
-- ends as late as it can.
unfoldable pub line_end : String → Option String
line_end s =
    let split = spaces s in
    if is_empty split.1
    then some String.[]
    else elim (last_break split.0) [ none ↦ none | some t ↦ some (t <> split.1) ]

-- `word\s*(token)\s*$`, for a token without white space.
unfoldable pub entry : String → (String → Bool) → Matcher
entry word accepts s = elim (after_prefix word s) [
  | none ↦ none
  | some rest ↦
      let value = token (spaces rest).1 in
      elim (line_end value.1) [
        | none ↦ none
        | some behind ↦
            if not (is_empty value.0) && accepts value.0 then some (value.0, behind) else none
      ]
]

-- `---\s*$\n?`: the text behind it.
unfoldable pub separator : String → Option String
separator s = elim (after_prefix "---" s) [
  | none ↦ none
  | some rest ↦ elim (line_end rest) [ none ↦ none | some behind ↦ some (drop_text 1 behind) ]
]

abbrev prepend : String → List String → List String
prepend s [] = s ∷ []
prepend s (part ∷ parts) = (s <> part) ∷ parts

-- `re.split(r"(?m)^---\s*$\n?", s)`
unfoldable pub split_documents : ℕ → Bool → String → List String
split_documents skip at_line String.[] = String.[] ∷ []
split_documents zero at_line (String.◌∷◌ c s) =
    elim (if at_line then separator (String.◌∷◌ c s) else none) [
      | none ↦ prepend (String.◌∷◌ c String.[]) (split_documents 0 (code c == b'\n') s)
      | some rest ↦ String.[] ∷ split_documents (size s - size rest) (code c == b'\n') s
    ]
split_documents (suc skip) at_line (String.◌∷◌ c s) = split_documents skip (code c == b'\n') s

abbrev pub documents : String → List String
documents s = split_documents 0 true s
