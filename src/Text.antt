-- ===== src/Text.antt =====
-- The functions of Go's `strings`, `unicode` and `path` packages that the program calls, over bytes.
-- `path` works on slash-separated segments: `clean` keeps a stack of segments, its top at the head.
pub mod Split
pub mod Clean
pub mod Prefix
pub mod Base64
pub mod Decimal
pub mod Cut
pub mod Slice
use goblin_ftp.Base.{
  ℕ, ◌≡◌, Bool, true, false, ◌&&◌, ◌||◌, List, [], ◌∷◌, ◌++◌, reverse, Bytes, nat_eq, leb, ltb,
  ◌==◌, bytes_has_eq, if◌then◌else◌, Option, none, some, map, not,
}

abbrev pub slash : ℕ
slash = b'/'

-- strings.Split by one byte: there is always a first part.
unfoldable pub split : ℕ → Bytes → List Bytes
split sep [] = [] ∷ []
split sep (c ∷ s) =
    let parts = split sep s in
    if nat_eq c sep then [] ∷ parts else elim parts [ [] ↦ (c ∷ []) ∷ [] | p ∷ ps ↦ (c ∷ p) ∷ ps ]

-- strings.Join
unfoldable pub join : ℕ → List Bytes → Bytes
join sep [] = []
join sep (p ∷ []) = p
join sep (p ∷ q ∷ ps) = p ++ (sep ∷ join sep (q ∷ ps))

-- strings.Contains for one byte, strings.ContainsAny for a set of ASCII bytes.
unfoldable pub contains : ℕ → Bytes → Bool
contains b [] = false
contains b (c ∷ s) = nat_eq c b || contains b s

unfoldable pub contains_any : Bytes → Bytes → Bool
contains_any cut [] = false
contains_any cut (c ∷ s) = contains c cut || contains_any cut s

-- strings.HasPrefix
unfoldable pub has_prefix : Bytes → Bytes → Bool
has_prefix [] s = true
has_prefix (p ∷ ps) [] = false
has_prefix (p ∷ ps) (c ∷ s) = nat_eq p c && has_prefix ps s

-- strings.TrimRight with a set of ASCII bytes.
unfoldable pub trim_right : Bytes → Bytes → Bytes
trim_right cut [] = []
trim_right cut (c ∷ s) = elim (trim_right cut s) [
  | [] ↦ if contains c cut then [] else c ∷ []
  | d ∷ t ↦ c ∷ d ∷ t
]

-- strings.ReplaceAll of one byte by another.
unfoldable pub replace_all : ℕ → ℕ → Bytes → Bytes
replace_all old new = map (λ c. if nat_eq c old then new else c)

-- strings.ContainsFunc(s, unicode.IsControl): the control characters are U+0000 to U+001F and
-- U+007F to U+009F, of which the last 32 are encoded as 0xC2 and a byte. 0xC2 stands in no other
-- place of an encoded character, so this holds of invalid UTF-8 too.
unfoldable pub contains_control : Bytes → Bool
contains_control [] = false
contains_control (c ∷ []) = ltb c 32 || nat_eq c 127
contains_control (c ∷ d ∷ s) =
    ltb c 32
    || nat_eq c 127
    || (nat_eq c 0xc2 && leb 0x80 d && leb d 0x9f)
    || contains_control (d ∷ s)

-- path.IsAbs
unfoldable pub is_abs : Bytes → Bool
is_abs [] = false
is_abs (c ∷ s) = nat_eq c slash

abbrev pub dot : Bytes
dot = b'.' ∷ []

abbrev pub dotdot : Bytes
dotdot = b'.' ∷ b'.' ∷ []

-- ".." takes a segment off, but never below a rooted path or past other ".." segments.
unfoldable pub parent : Bool → List Bytes → List Bytes
parent rooted [] = if rooted then [] else dotdot ∷ []
parent rooted (top ∷ stack) = if top == dotdot then dotdot ∷ top ∷ stack else stack

unfoldable pub resolve : Bool → List Bytes → Bytes → List Bytes
resolve rooted stack seg =
    if seg == [] || seg == dot
    then stack
    else if seg == dotdot
    then parent rooted stack
    else seg ∷ stack

unfoldable pub resolve_all : Bool → List Bytes → List Bytes → List Bytes
resolve_all rooted stack [] = reverse stack
resolve_all rooted stack (seg ∷ segs) = resolve_all rooted (resolve rooted stack seg) segs

-- The segments of a cleaned path.
unfoldable pub segments : Bytes → List Bytes
segments p = resolve_all (is_abs p) [] (split slash p)

unfoldable pub or_dot : Bytes → Bytes
or_dot [] = dot
or_dot (c ∷ s) = c ∷ s

unfoldable pub render : Bool → List Bytes → Bytes
render rooted segs = or_dot (if rooted then slash ∷ join slash segs else join slash segs)

-- path.Clean
unfoldable pub clean : Bytes → Bytes
clean p = render (is_abs p) (segments p)

-- path.Join of two elements: empty ones are left out.
unfoldable pub path_join : Bytes → Bytes → Bytes
path_join [] [] = []
path_join [] (c ∷ b) = clean (c ∷ b)
path_join (c ∷ a) [] = clean (c ∷ a)
path_join (c ∷ a) (d ∷ b) = clean ((c ∷ a) ++ (slash ∷ d ∷ b))

-- What stands up to and with the last slash, and what stands behind it.
unfoldable pub up_to_slash : Bytes → Bytes
up_to_slash [] = []
up_to_slash (c ∷ s) = elim (up_to_slash s) [
  | [] ↦ if nat_eq c slash then c ∷ [] else []
  | d ∷ t ↦ c ∷ d ∷ t
]

-- path.Dir
unfoldable pub path_dir : Bytes → Bytes
path_dir p = clean (up_to_slash p)

unfoldable pub after_slash : Bytes → Bytes
after_slash [] = []
after_slash (c ∷ s) = if contains slash (c ∷ s) then after_slash s else c ∷ s

unfoldable pub or_slash : Bytes → Bytes
or_slash [] = slash ∷ []
or_slash (c ∷ s) = c ∷ s

-- path.Base
unfoldable pub path_base : Bytes → Bytes
path_base [] = dot
path_base (c ∷ s) = or_slash (after_slash (trim_right (slash ∷ []) (c ∷ s)))
