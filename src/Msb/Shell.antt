-- ===== src/Msb/Shell.antt =====
-- internal/msb/client.go: the shell script that installs ssh keys.
pub mod Quoting
use msb_manager.Prelude.{Text, codes, [], ◌∷◌, ◌++◌, List, ◌==◌, if◌then◌else◌}

-- strings.ReplaceAll(s, "'", `'\''`)
unfoldable pub escape_quotes : Text → Text
escape_quotes [] = []
escape_quotes (c ∷ s) =
    let rest = escape_quotes s in if c == 39 then 39 ∷ 92 ∷ 39 ∷ 39 ∷ rest else c ∷ rest

-- shellSingleQuote
unfoldable pub shell_single_quote : Text → Text
shell_single_quote s = 39 ∷ (escape_quotes s ++ 39 ∷ [])

-- the loop of sshKeysScript
unfoldable pub key_lines : List Text → Text → Text
key_lines [] end = end
key_lines (k ∷ ks) end =
    codes "printf '%s\\n' " ++ (shell_single_quote k ++ (10 ∷ key_lines ks end))

-- sshKeysScript
unfoldable pub ssh_keys_script : List Text → Text
ssh_keys_script keys =
    codes "#!/bin/sh\nset -eu\nmkdir -p /root/.ssh\nchmod 700 /root/.ssh\n{\n"
    ++ key_lines keys
        (codes "} > /root/.ssh/authorized_keys\nchmod 600 /root/.ssh/authorized_keys\n")
