-- ===== src/Tests/CommandLine.antt =====
-- server/core/app/CommandLineParser.cpp at concrete inputs.
use tg_chat_server.Prelude.{String, map, ◌≡◌, refl, true, false, List, [], ◌∷◌, find, insert}
use tg_chat_server.Base64.{ascii}
use tg_chat_server.Jwt.{bytes_beq}
use tg_chat_server.CommandLine.{
  CommandLineParser, split_at, register_arg, new_parser, find_canonical_name, get_arg,
  name_and_value, takes_next, parse_arg, starts_with_dash, parse_args, parse_command_line,
}

abbrev parsed : List String → CommandLineParser
parsed arguments = parse_command_line new_parser (map ascii arguments)

-- A flag takes the text after it for its value, and then is not on.
flags :
    (get_arg (parsed ("-cmy.json" ∷ "-t" ∷ "--help" ∷ [])) (ascii "config") ≡ ascii "my.json")
    × ((parsed ("-cmy.json" ∷ "-t" ∷ "--help" ∷ [])).terminal_mode ≡ true)
    × (get_arg (parsed ("--telnet-port=99" ∷ "in" ∷ [])) (ascii "telnet-port") ≡ ascii "99")
    × ((parsed ("-t" ∷ "in" ∷ [])).terminal_mode ≡ false)
unfolding parse_command_line new_parser register_arg split_at find_canonical_name get_arg
    name_and_value takes_next parse_arg starts_with_dash parse_args find insert bytes_beq
flags = (refl, refl, refl, refl)
