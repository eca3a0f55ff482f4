-- ===== src/Paths.antt =====
-- The functions of Go's packages `path` and `strings` that internal/security, internal/pathpipeline
-- and internal/scheduler use on slash-separated paths, over bytes.
pub mod Segments
pub mod Normal
pub mod Trim
use rclone_sync_hub_go_backe.Prelude.{
  ℕ, zero, suc, ◌+◌, ◌-◌, Text, codes, text_eq, [], ◌∷◌, ◌++◌, List, Bool, true, false, not, ◌&&◌,
  ◌||◌, ◌==◌, leb, map, if◌then◌else◌, some_of,
}
use mathlib.Core.List.{reverse}

abbrev pub slash : ℕ
slash = b'/'

unfoldable pub contains_byte : ℕ → Text → Bool
contains_byte b s = some_of (λ c. c == b) s

-- `strings.ContainsAny`
unfoldable pub contains_any : Text → Text → Bool
unfolding contains_byte
contains_any chars s = some_of (λ c. contains_byte c chars) s

abbrev pub has_prefix : Text → Text → Bool
has_prefix [] s = true
has_prefix (p ∷ ps) [] = false
has_prefix (p ∷ ps) (c ∷ s) = p == c && has_prefix ps s

-- `strings.TrimPrefix(s, "/")`
abbrev pub trim_slash : Text → Text
trim_slash [] = []
trim_slash (c ∷ s) = if c == slash then s else c ∷ s

-- `strings.TrimSuffix(s, "/")`
abbrev pub trim_last_slash : Text → Text
trim_last_slash [] = []
trim_last_slash (c ∷ []) = if c == slash then [] else c ∷ []
trim_last_slash (c ∷ d ∷ s) = c ∷ trim_last_slash (d ∷ s)

-- `strings.ReplaceAll(s, "\\", "/")`
abbrev pub to_slash : Text → Text
to_slash s = map (λ c. if c == 92 then slash else c) s

-- The white space of ASCII.
abbrev pub is_space : ℕ → Bool
is_space c = c == 32 || (leb 9 c && leb c 13)

unfoldable pub trim_left : Text → Text
trim_left [] = []
trim_left (c ∷ s) = let rest = trim_left s in if is_space c then rest else c ∷ s

-- Without the white space at its end.
unfoldable pub trim_right : Text → Text
trim_right [] = []
trim_right (c ∷ s) =
    let rest = trim_right s in if is_space c && text_eq rest [] then [] else c ∷ rest

unfoldable pub trim_space : Text → Text
unfolding trim_left trim_right
trim_space s = trim_right (trim_left s)

abbrev pub extend : ℕ → List Text → List Text
extend c [] = (c ∷ []) ∷ []
extend c (x ∷ xs) = (c ∷ x) ∷ xs

-- `strings.Split(s, "/")`
unfoldable pub split : Text → List Text
split [] = [] ∷ []
split (c ∷ s) = let rest = split s in if c == slash then [] ∷ rest else extend c rest

-- `strings.Join(xs, "/")`
unfoldable pub join : List Text → Text
join [] = []
join (x ∷ []) = x
join (x ∷ y ∷ ys) = x ++ (slash ∷ join (y ∷ ys))

abbrev pub dot : Text
dot = codes "."

abbrev pub dotdot : Text
dotdot = codes ".."

-- The state of `path.Clean`: the leading `..` segments, and the names after them, the last first.
pub record Cleaning : Type 0 where
  pub ups : ℕ
  pub names : List Text

-- A `..` takes the name before it away; at the root it is dropped.
abbrev pub go_up : Bool → Cleaning → Cleaning
go_up rooted s = elim s.names [
  | [] ↦ if rooted then s else record s { ups = s.ups + 1 }
  | x ∷ xs ↦ record s { names = xs }
]

unfoldable pub clean_step : Bool → Text → Cleaning → Cleaning
clean_step rooted x s =
    if text_eq x [] || text_eq x dot
    then s
    else if text_eq x dotdot
    then go_up rooted s
    else record s { names = x ∷ s.names }

unfoldable pub clean_all : Bool → List Text → Cleaning → Cleaning
clean_all rooted [] s = s
clean_all rooted (x ∷ xs) s = clean_all rooted xs (clean_step rooted x s)

abbrev pub dotdots : ℕ → List Text
dotdots zero = []
dotdots (suc n) = dotdot ∷ dotdots n

abbrev pub is_rooted : Text → Bool
is_rooted s = has_prefix (slash ∷ []) s

unfoldable pub cleaned : Text → Cleaning
unfolding clean_all clean_step split
cleaned s = clean_all (is_rooted s) (split s) (record { ups = 0; names = [] })

abbrev pub render : Bool → List Text → Text
render true xs = slash ∷ join xs
render false [] = dot
render false (x ∷ xs) = join (x ∷ xs)

-- `path.Clean`
unfoldable pub clean : Text → Text
clean s = let state = cleaned s in render (is_rooted s) (dotdots state.ups ++ reverse state.names)
