-- ===== src/Msb/Shell/Quoting.antt =====
-- internal/msb/client.go: how a POSIX shell reads the script that installs ssh keys. The reader
-- below splits a text into commands of words: single quotes, backslashes, comments and `>` as a word
-- of its own. Whatever else has a meaning for a shell outside single quotes (expansions, backticks,
-- double quotes, separators, globs, tildes, assignments, a NUL) is not read: the script is refused.
use msb_manager.Prelude.{
  ℕ, Text, codes, Bool, ◌||◌, any, Option, none, some, [], ◌∷◌, ◌++◌, List, ◌==◌, if◌then◌else◌,
}

-- between words, in a word, between single quotes, behind a backslash, in a comment, and refused
pub data Mode : Type 0 where
  blank bare quoted escaped comment refused : Mode

-- the bytes that are not read outside single quotes
abbrev pub special_bytes : Text
special_bytes = 0 ∷ codes "$`\";&|<()*?[]~=!"

abbrev pub is_special : ℕ → Bool
is_special c = any (λ b. b == c) special_bytes

pub record Reader : Type 0 where
  pub mode : Mode
  pub word : Text
  pub words : List Text
  pub commands : List (List Text)

abbrev push_byte : ℕ → Reader → Reader
push_byte c r = record r { mode = bare; word = r.word ++ c ∷ [] }

abbrev end_word : Reader → Reader
end_word r = record r { mode = blank; word = []; words = r.words ++ r.word ∷ [] }

-- a line without words is no command
abbrev add_command : List Text → List (List Text) → List (List Text)
add_command [] cs = cs
add_command (w ∷ ws) cs = cs ++ (w ∷ ws) ∷ []

abbrev end_line : Reader → Reader
end_line r = record r {
  mode = blank;
  word = [];
  words = [];
  commands = add_command r.words r.commands;
}

abbrev plain : ℕ → Reader → Reader
plain c r =
    if c == 39
    then record r { mode = quoted }
    else if c == 92
    then record r { mode = escaped }
    else if is_special c
    then record r { mode = refused }
    else push_byte c r

-- `>` between words is a word of its own
abbrev redirect : Reader → Reader
redirect r = record r { words = r.words ++ codes ">" ∷ [] }

abbrev between : ℕ → Reader → Reader
between c r =
    if c == 32
    then r
    else if c == 10
    then end_line r
    else if c == b'#'
    then record r { mode = comment }
    else if c == b'>'
    then redirect r
    else plain c r

abbrev read_in : Mode → ℕ → Reader → Reader
read_in blank c r = between c r
read_in bare c r =
    if c == 32
    then end_word r
    else if c == 10
    then end_line (end_word r)
    else if c == b'>'
    then record r { mode = refused }
    else plain c r
read_in quoted c r =
    if c == 39
    then record r { mode = bare }
    else if c == 0
    then record r { mode = refused }
    else record r { word = r.word ++ c ∷ [] }
read_in escaped c r = if c == 10 || c == 0 then record r { mode = refused } else push_byte c r
read_in comment c r = if c == 10 then end_line r else r
read_in refused c r = r

pub read : Reader → Text → Reader
read r [] = r
read r (c ∷ s) = read (read_in r.mode c r) s

abbrev pub start : List (List Text) → Reader
start done = record { mode = blank; word = []; words = []; commands = done }

-- the commands when the reader stands between two lines
abbrev finished : Reader → Option (List (List Text))
finished r = elim r.mode [
  | blank ↦ some r.commands
  | bare ↦ none
  | quoted ↦ none
  | escaped ↦ none
  | comment ↦ none
  | refused ↦ none
]

-- the commands of a script that ends with a newline, if all of it is read
pub sh_commands : Text → Option (List (List Text))
unfolding read
sh_commands s = finished (read (start []) s)

abbrev closed : List Text → List (List Text) → Text → Reader
closed ws cs w = record { mode = bare; word = w; words = ws; commands = cs }

abbrev opened : List (List Text) → Reader
opened cs = record {
  mode = quoted;
  word = [];
  words = codes "printf" ∷ codes "%s\\n" ∷ [];
  commands = cs;
}

abbrev closing : Text
closing = codes "} > /root/.ssh/authorized_keys\nchmod 600 /root/.ssh/authorized_keys\n"

abbrev inside : List Text → List (List Text) → Text → Reader
inside ws cs w = record { mode = quoted; word = w; words = ws; commands = cs }

abbrev pub printf_command : Text → List Text
printf_command k = codes "printf" ∷ codes "%s\\n" ∷ k ∷ []

abbrev pub commands_before : List (List Text)
commands_before =
    (codes "set" ∷ codes "-eu" ∷ [])
    ∷ (codes "mkdir" ∷ codes "-p" ∷ codes "/root/.ssh" ∷ [])
    ∷ (codes "chmod" ∷ codes "700" ∷ codes "/root/.ssh" ∷ [])
    ∷ (codes "{" ∷ [])
    ∷ []

abbrev closing_line : List Text
closing_line = codes "}" ∷ codes ">" ∷ codes "/root/.ssh/authorized_keys" ∷ []

abbrev chmod_line : List Text
chmod_line = codes "chmod" ∷ codes "600" ∷ codes "/root/.ssh/authorized_keys" ∷ []

abbrev pub commands_after : List (List Text)
commands_after = closing_line ∷ chmod_line ∷ []
