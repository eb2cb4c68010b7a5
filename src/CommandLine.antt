-- ===== src/CommandLine.antt =====
-- server/core/app/CommandLineParser.cpp. A text is the list of its bytes; a map is an association list.
-- The callbacks of the arguments are left out.
use tg_chat_server.Prelude.{
  ℕ, ◌≡◌, ◌↔◌, sym, ap, ◌∙◌, Bool, true, false, not, ◌||◌, Option, none, some, List, [], ◌∷◌, ◌++◌,
  nat_beq, length, leb, if◌then◌else◌, Comparable, find, insert,
}
use tg_chat_server.Base64.{Bytes, ascii}
use tg_chat_server.Jwt.{bytes_beq}
use tg_chat_server.Jwt.Signed.{bytes_beq_lem, bytes_beq_refl}

bytes_beq_iff : (a b : Bytes) → (bytes_beq a b ≡ true) ↔ (a ≡ b)
bytes_beq_iff a b = (bytes_beq_lem a b, λ e. ap (bytes_beq a) (sym e) ∙ bytes_beq_refl a)

instance abbrev bytes_key : Comparable Bytes
bytes_key = record { same_iff = bytes_beq_iff; same = bytes_beq }

-- `m_args` maps a name to its default.
pub record CommandLineParser : Type 0 where
  pub args : List (Bytes × Bytes)
  pub name_map : List (Bytes × Bytes)
  pub values : List (Bytes × Bytes)
  pub positional_args : List Bytes
  pub help_mode : Bool
  pub terminal_mode : Bool

-- `find` of a character, with the text before it and after it.
unfoldable pub split_at : ℕ → Bytes → Option (Bytes × Bytes)
split_at sep [] = none
split_at sep (ch ∷ rest) =
    let later = split_at sep rest in
    if nat_beq ch sep
    then some ([], rest)
    else elim later [ none ↦ none | some p ↦ some (ch ∷ p.0, p.1) ]

unfoldable pub register_arg : CommandLineParser → Bytes → Bytes → CommandLineParser
unfolding split_at
register_arg c name default_value = elim (split_at b',' name) [
  | none ↦ record c {
    args = insert name default_value c.args;
    values = insert name default_value c.values;
  }
  | some (short_name, long_name) ↦ record c {
    args = insert long_name default_value c.args;
    name_map = insert short_name long_name c.name_map;
    values = insert long_name default_value c.values;
  }
]

-- The constructor's arguments.
unfoldable pub new_parser : CommandLineParser
unfolding register_arg
new_parser =
    let empty : CommandLineParser = record {
      args = [];
      name_map = [];
      values = [];
      positional_args = [];
      help_mode = false;
      terminal_mode = false;
    } in
    let help = register_arg empty (ascii "h,help") (ascii "false") in
    let terminal = register_arg help (ascii "t,terminal") (ascii "false") in
    let tick = register_arg terminal (ascii "tick-interval") (ascii "10") in
    let config = register_arg tick (ascii "c,config") (ascii "config.json") in
    let telnet = register_arg config (ascii "enable-telnet") (ascii "false") in
    register_arg telnet (ascii "telnet-port") (ascii "23")

unfoldable pub find_canonical_name : CommandLineParser → Bytes → Bytes
find_canonical_name c name = elim (find name c.args) [
  | some d ↦ name
  | none ↦ elim (find name c.name_map) [ some long_name ↦ long_name | none ↦ [] ]
]

unfoldable pub get_arg : CommandLineParser → Bytes → Bytes
unfolding find_canonical_name
get_arg c name = elim (find_canonical_name c name) [
  | [] ↦ []
  | ch ∷ rest ↦ elim (find (ch ∷ rest) c.values) [ some v ↦ v | none ↦ [] ]
]

-- The name of an argument, and its value where it has one.
unfoldable pub name_and_value : Bytes → Bytes × Option Bytes
unfolding split_at
name_and_value [] = ([], none)
name_and_value (d ∷ []) = ([], none)
name_and_value (d ∷ e ∷ rest) =
    if nat_beq e b'-'
    then (elim (split_at b'=' rest) [ none ↦ (rest, none) | some p ↦ (p.0, some p.1) ])
    else (e ∷ [], elim rest [ [] ↦ none | ch ∷ more ↦ some (ch ∷ more) ])

-- Whether the next argument is taken for a value.
unfoldable pub takes_next : Option Bytes → Bool
takes_next none = false
takes_next (some []) = true
takes_next (some (ch ∷ rest)) = not (nat_beq ch b'-')

-- `parseArg`: the parser after it, and whether the next argument was its value.
unfoldable pub parse_arg : CommandLineParser → Bytes → Option Bytes → CommandLineParser × Bool
unfolding name_and_value find_canonical_name takes_next
parse_arg c arg next =
    let named = name_and_value arg in
    elim (find_canonical_name c named.0) [
      | [] ↦ (c, false)
      | ch ∷ rest ↦ elim named.1 [
        | some value ↦ (record c { values = insert (ch ∷ rest) value c.values }, false)
        | none ↦ elim next [
          | none ↦ (record c { values = insert (ch ∷ rest) (ascii "true") c.values }, false)
          | some value ↦
              if takes_next (some value)
              then (record c { values = insert (ch ∷ rest) value c.values }, true)
              else (record c { values = insert (ch ∷ rest) (ascii "true") c.values }, false)
        ]
      ]
    ]

unfoldable pub starts_with_dash : Bytes → Bool
starts_with_dash [] = false
starts_with_dash (ch ∷ rest) = nat_beq ch b'-'

-- The loop of `parse`, past the name of the program.
unfoldable pub parse_args : CommandLineParser → List Bytes → CommandLineParser
unfolding parse_arg starts_with_dash
parse_args c [] = c
parse_args c (arg ∷ []) =
    if leb (length arg) 0
    then c
    else if starts_with_dash arg
    then (parse_arg c arg none).0
    else record c { positional_args = c.positional_args ++ arg ∷ [] }
parse_args c (arg ∷ next ∷ rest) =
    if leb (length arg) 0
    then parse_args c (next ∷ rest)
    else if starts_with_dash arg
    then (let q = parse_arg c arg (some next) in
        if q.1 then parse_args q.0 rest else parse_args q.0 (next ∷ rest))
    else parse_args (record c { positional_args = c.positional_args ++ arg ∷ [] }) (next ∷ rest)

-- The modes after the loop.
unfoldable pub parse_command_line : CommandLineParser → List Bytes → CommandLineParser
unfolding parse_args get_arg
parse_command_line c arguments =
    let p = parse_args c arguments in
    let is_on = λ (name : Bytes). bytes_beq (get_arg p name) (ascii "true") in
    record p {
      help_mode = p.help_mode || (is_on (ascii "help") || is_on (ascii "h"));
      terminal_mode = p.terminal_mode || (is_on (ascii "terminal") || is_on (ascii "t"));
    }
