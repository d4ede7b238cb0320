-- ===== src/Application/Ignore/RuleList.antt =====
-- application/ignore.go, parseRuleList, with the functions of `strings` that it calls.
use Prim.Native.Char.{Char, code}
use shingan.Prelude.{
  String, Bool, not, ◌&&◌, ◌||◌, ◌==◌, ◌≡◌, refl, List, [], ◌∷◌, map, leb, nat_eq, select,
  if◌then◌else◌,
}

-- unicode.IsSpace
unfoldable pub is_space : Char → Bool
is_space c =
    let n = code c in
    leb 9 n && leb n 13
    || nat_eq n 32
    || nat_eq n 133
    || nat_eq n 160
    || nat_eq n 5760
    || leb 8192 n && leb n 8202
    || nat_eq n 8232
    || nat_eq n 8233
    || nat_eq n 8239
    || nat_eq n 8287
    || nat_eq n 12288

-- strings.TrimLeftFunc and strings.TrimRightFunc
unfoldable pub trim_left : (Char → Bool) → String → String
trim_left p String.[] = String.[]
trim_left p (String.◌∷◌ c s) = let rest = trim_left p s in if p c then rest else String.◌∷◌ c s

unfoldable pub trim_right : (Char → Bool) → String → String
trim_right p String.[] = String.[]
trim_right p (String.◌∷◌ c s) =
    let rest = trim_right p s in if rest == "" && p c then String.[] else String.◌∷◌ c rest

abbrev pub trim : (Char → Bool) → String → String
trim p s = trim_right p (trim_left p s)

-- strings.FieldsFunc: the field at the front, which may be empty, and the other fields.
unfoldable pub fields_from : (Char → Bool) → String → String × List String
fields_from p String.[] = (String.[], [])
fields_from p (String.◌∷◌ c s) =
    let (front, rest) = fields_from p s in
    if p c
    then (String.[], if front == "" then rest else front ∷ rest)
    else (String.◌∷◌ c front, rest)

unfoldable pub fields : (Char → Bool) → String → List String
unfolding fields_from
fields p s = let (front, rest) = fields_from p s in if front == "" then rest else front ∷ rest

abbrev pub is_separator : Char → Bool
is_separator c = nat_eq (code c) b',' || nat_eq (code c) b' ' || nat_eq (code c) 9

abbrev pub is_punctuation : Char → Bool
is_punctuation c = nat_eq (code c) b'.' || nat_eq (code c) b';' || nat_eq (code c) b':'

abbrev pub names_of : List String → List String
names_of [] = "*" ∷ []
names_of (part ∷ parts) = select (λ p. not (p == "")) (map (trim is_punctuation) (part ∷ parts))

unfoldable pub parse_rule_list : String → List String
unfolding is_space trim_left trim_right fields select
parse_rule_list raw =
    if trim is_space raw == "" then "*" ∷ [] else names_of (fields is_separator (trim is_space raw))

parse_rule_list_runs :
    (parse_rule_list " " ≡ "*" ∷ [])
    × (parse_rule_list "loop_guard, pii_leak." ≡ "loop_guard" ∷ "pii_leak" ∷ [])
unfolding parse_rule_list
parse_rule_list_runs = (refl, refl)
