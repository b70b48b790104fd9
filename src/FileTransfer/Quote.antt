-- ===== src/FileTransfer/Quote.antt =====
-- `shell_quote` and the commands that pack and unpack a directory (the POSIX variants).
pub mod Words
use hyper_link.Base.{ℕ, [], ◌∷◌, ◌++◌, Text, codes, ◌==◌, if◌then◌else◌, is_empty}
use hyper_link.FileTransfer.Names.{dot, parent_path, filename}

abbrev pub quote_mark : ℕ
quote_mark = b'\''

-- `'\''`: close the quotes, an escaped quotation mark, open them again.
abbrev pub escaped_mark : Text
escaped_mark = quote_mark ∷ b'\\' ∷ quote_mark ∷ quote_mark ∷ []

-- The loop of `shell_quote`, with the text quoted so far.
unfoldable pub quote_from : Text → Text → Text
quote_from quoted [] = quoted ++ quote_mark ∷ []
quote_from quoted (character ∷ text) =
    quote_from
      (if character == quote_mark then quoted ++ escaped_mark else quoted ++ character ∷ []) text

unfoldable pub shell_quote : Text → Text
unfolding quote_from
shell_quote text = quote_from (quote_mark ∷ []) text

unfoldable pub tar_create_command : Text → Text
tar_create_command directory =
    let parent = if is_empty (parent_path directory) then dot else parent_path directory in
    codes "tar -cf - -C " ++ (shell_quote parent ++ (codes " " ++ shell_quote (filename directory)))

unfoldable pub tar_extract_command : Text → Text
tar_extract_command output_dir = codes "tar -xf - -C " ++ shell_quote output_dir
