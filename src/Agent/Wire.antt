-- ===== src/Agent/Wire.antt =====
-- src/agent/protocol.rs, `write_message`, and the reads at both ends of a connection
-- (src/agent/client.rs, `execute`; src/agent/server.rs, `handle_client`): one message to a line.
-- `encode` and `decode` are the JSON encoder and parser.
pub mod Framing
pub mod Exchange
use btwattch2_rs.Prelude.{List, [], ◌∷◌, ◌++◌, map, Option, none, some, flatten}
use btwattch2_rs.Prelude.Text.{Text, trim}
use btwattch2_rs.Prelude.Reading.{read_lines, chomp}

first_line : List Text → Option Text
unfolding chomp
first_line [] = none
first_line (line ∷ lines) = some (chomp line)

-- The handler's one read.
unfoldable pub next_line : Text → Option Text
unfolding first_line
next_line bytes = first_line (read_lines bytes)

module _ {A : Type 0} where
  unfoldable pub write_message : (A → Text) → A → Text
  write_message encode m = encode m ++ b'\n' ∷ []

  -- All that one end writes.
  unfoldable pub written : (A → Text) → List A → Text
  unfolding write_message
  written encode ms = flatten (map (write_message encode) ms)

  -- The client's reads: `none` for a line that does not parse.
  unfoldable pub received : (Text → Option A) → Text → List (Option A)
  unfolding read_lines
  received decode bytes = map (λ line. decode (trim line)) (read_lines bytes)
